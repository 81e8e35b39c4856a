-- ===== src/Write/Depth.antt =====
-- The recursion of a commit through the flush of the dirty file, and how deep it gets.
use flog_fs.Base.{
  ℕ, suc, ◌≡◌, refl, arith, true, false, Bool-cases, inl, inr, ◌⊎◌, List, [], ◌==◌, ap,
}
use flog_fs.Structs.{tail_sector, block_idx_invalid}
use flog_fs.Fs.{Fs, null, clean}
use flog_fs.Write.{
  write_inner, commit_inner, commit_tail, flush_write_by, flush_dirty_by, commit_by,
  flog_commit_file_sector, commit_depth,
}
use flog_fs.Fs.Untouched.{On}
use flog_fs.Write.Untouched.{get_file-On, write_file_sector-On}
use flog_fs.Run.{Run, Cmd, and_then, modify}
use flog_fs.Run.Keeps.{Holds, holds, stopped, spent, Keeps, keeps_rules}

-- No file is dirty.
abbrev pub IsClean : Fs → Type 0
IsClean = On (λ d _. d.file ≡ null)

-- A change of other fields.
modify-IsClean :
    (f : Fs → Fs) → ((s : Fs) → (f s).dirty_block ≡ s.dirty_block) → Keeps IsClean (modify f)
modify-IsClean f same = record { at = λ s h. holds (rw (same s) h) }

write_inner-IsClean : (file : ℕ) (bytes : List ℕ) → Keeps IsClean (write_inner file bytes)
unfolding write_inner
write_inner-IsClean file bytes =
    search
      (
        keeps_rules,
        get_file-On (λ d _. d.file ≡ null),
        write_file_sector-On (λ d _. d.file ≡ null),
        modify-IsClean,
      )
      depth 20

-- The commit of the dirty file, inside its block, leaves no file dirty.
pub commit_inner-IsClean :
    (file : ℕ) (bytes : List ℕ) (s : Fs)
    → s.dirty_block.file ≡ file
    → Holds IsClean (commit_inner file bytes s)
unfolding commit_inner
commit_inner-IsClean file bytes s dirty =
    let same : (s.dirty_block.file == file) ≡ true = ground arith in
    rw same ((write_inner-IsClean file bytes).at (record s { dirty_block = clean }) refl)

-- Two continuations that agree where the first part can end.
and_then-agree :
    {A B : Type 0} {P : Fs → Type 0} {r : Run Fs A} (k l : A → Cmd Fs B)
    → Holds P r
    → ((a : A) (s : Fs) → P s → k a s ≡ l a s)
    → and_then r k ≡ and_then r l
and_then-agree k l (holds h) agree = agree _ _ h
and_then-agree k l stopped agree = refl
and_then-agree k l spent agree = refl

and_then-same :
    {A B : Type 0} {r q : Run Fs A} (k : A → Cmd Fs B) → r ≡ q → and_then r k ≡ and_then q k
and_then-same k e = ap (λ r. and_then r k) e

-- What is known of the dirty file between the calls of the interface: there is none, or it has not
-- come to the last sector of its block yet.
abbrev pub IsFlushable : Fs → Type 0
IsFlushable s =
    ((s.dirty_block.block == block_idx_invalid) ≡ true)
    ⊎ (((s.dirty_block.file == null) ≡ false)
        × (((s.write_files s.dirty_block.file).sector == tail_sector) ≡ false))

pub commit_inside :
    (k file : ℕ) (bytes : List ℕ) (s : Fs)
    → ((s.write_files file).sector == tail_sector) ≡ false
    → flog_commit_file_sector (suc k) file bytes s ≡ commit_inner file bytes s
unfolding flog_commit_file_sector commit_by
commit_inside k file bytes s e = rw e refl

flush_write-depth :
    (a b file : ℕ) (s : Fs)
    → s.dirty_block.file ≡ file
    → (file == null) ≡ false
    → ((s.write_files file).sector == tail_sector) ≡ false
    → flush_write_by (flog_commit_file_sector (suc a)) file s
      ≡ flush_write_by (flog_commit_file_sector (suc b)) file s
unfolding flush_write_by
flush_write-depth a b file s dirty some_file inside =
    rw (commit_inside a file [] s inside, commit_inside b file [] s inside)
      (and_then-agree _ _ (commit_inner-IsClean file [] s dirty) λ done t clean.
        let other : (file == t.dirty_block.file) ≡ false = ground arith in ground arith)

flush_dirty-depth :
    (a b : ℕ) (s : Fs)
    → IsFlushable s
    → flush_dirty_by (flog_commit_file_sector (suc a)) s
      ≡ flush_dirty_by (flog_commit_file_sector (suc b)) s
unfolding flush_dirty_by
flush_dirty-depth a b s h = elim (Bool-cases (s.dirty_block.block == block_idx_invalid)) [
  | inl e ↦ rw e refl
  | inr e ↦ elim h [
    | inl none_dirty ↦ ground arith
    | inr (some_file, inside) ↦
        rw e (and_then-same _ (flush_write-depth a b s.dirty_block.file s refl some_file inside))
  ]
]

-- Two levels of recursion are enough to commit a sector: from a state in which the dirty file, if
-- there is one, has not come to the last sector of its block, any more levels give the same.
pub flog_commit_file_sector-depth :
    (k file : ℕ) (bytes : List ℕ) (s : Fs)
    → IsFlushable s
    → flog_commit_file_sector commit_depth file bytes s
      ≡ flog_commit_file_sector (suc (suc k)) file bytes s
unfolding flog_commit_file_sector commit_by commit_tail
flog_commit_file_sector-depth k file bytes s h =
    elim (Bool-cases ((s.write_files file).sector == tail_sector)) [
      | inl e ↦ rw e (and_then-same _ (flush_dirty-depth 0 k s h))
      | inr e ↦ rw e refl
    ]
