-- ===== src/Write/Flushable.antt =====
-- Writing keeps what the depth of its recursion rests on: the dirty file has not come to the last
-- sector of its block.
use flog_fs.Base.{
  add16, sub16, add32, ℕ, zero, suc, refl, subst, ◌+◌, ◌≡◌, arith, Bool, true, false, Bool-cases,
  ◌⊎◌, inl, inr, List, ◌==◌, if◌then◌else◌, length,
}
use flog_fs.Structs.{
  FlogResult, success, SectorSpare, file_tail_size, tail_sector, block_idx_invalid,
}
use flog_fs.Prealloc.{BlockAlloc}
use flog_fs.Fs.{Fs, WriteFile, DirtyBlock, null, clean}
use flog_fs.Fs.Untouched.{On}
use flog_fs.Alloc.Untouched.{flog_allocate_block-On}
use flog_fs.Write.{
  write_inner, commit_inner, commit_tail_into, commit_tail, flush_write_by, flush_dirty_by,
  commit_by, flog_commit_file_sector, buffer_bytes, write_loop, flogfs_write, next_block_file,
  with_tail_header, write_file_sector, put_file,
}
use flog_fs.Write.Untouched.{get_file-On, write_file_sector-On}
use flog_fs.Write.Depth.{IsFlushable}
use flog_fs.Run.{pure, ◌>>◌, Run, ok, panic, out_of_fuel, and_then, Cmd, modify}
use flog_fs.Run.Keeps.{
  Holds, holds, stopped, spent, Keeps, Holds-bind, Holds-mono, Holds-ok, keeps_rules, Keeps-fail,
}

abbrev pub Flushable : DirtyBlock → (ℕ → WriteFile) → Type 0
Flushable d w =
    ((d.block == block_idx_invalid) ≡ true)
    ⊎ (((d.file == null) ≡ false) × (((w d.file).sector == tail_sector) ≡ false))

-- The same, of another file than this one.
abbrev OtherFlushable : ℕ → DirtyBlock → (ℕ → WriteFile) → Type 0
OtherFlushable file d w =
    ((d.block == block_idx_invalid) ≡ true)
    ⊎ (((d.file == null) ≡ false)
        × ((d.file == file) ≡ false)
        × (((w d.file).sector == tail_sector) ≡ false))

module _ (file : ℕ) where
  -- a change of this file only
  modify-OtherFlushable :
      (f : Fs → Fs)
      → ((s : Fs) → (f s).dirty_block ≡ s.dirty_block)
      → ((s : Fs) (p : ℕ) → (p == file) ≡ false → (f s).write_files p ≡ s.write_files p)
      → Keeps (On (OtherFlushable file)) (modify f)
  modify-OtherFlushable f same others = record {
    at = λ s h. elim h [
      | inl e ↦ holds (inl (rw (same s) e))
      | inr (some_file, other, inside) ↦
          holds
            (inr (rw (same s) (some_file, other, rw (others s s.dirty_block.file other) inside)))
    ];
  }

  if_false : {A : Type 0} (b : Bool) (x y : A) → b ≡ false → (if b then x else y) ≡ y
  if_false b x y e = rw e refl

  write_inner-OtherFlushable :
      (bytes : List ℕ) → Keeps (On (OtherFlushable file)) (write_inner file bytes)
  unfolding write_inner
  write_inner-OtherFlushable bytes =
      search
        (
          keeps_rules,
          get_file-On (OtherFlushable file),
          write_file_sector-On (OtherFlushable file),
          modify-OtherFlushable,
          if_false,
        )
        depth 20

  weaken : (s : Fs) → On (OtherFlushable file) s → IsFlushable s
  weaken s (inl e) = inl e
  weaken s (inr (a, _, c)) = inr (a, c)

  commit_inner-IsFlushable : (bytes : List ℕ) → Keeps IsFlushable (commit_inner file bytes)
  unfolding commit_inner
  commit_inner-IsFlushable bytes = record {
    at = λ s h. elim (Bool-cases (s.dirty_block.file == file)) [
      | inl e ↦ rw e (
          Holds-mono weaken
            ((write_inner-OtherFlushable bytes).at (record s { dirty_block = clean }) (inl refl)))
      | inr e ↦ rw e (
          Holds-mono weaken (
            (write_inner-OtherFlushable bytes).at s (elim h [
              | inl none_dirty ↦ inl none_dirty
              | inr (some_file, inside) ↦ inr (some_file, e, inside)
            ])))
    ];
  }

-- the end of a commit at the last sector
abbrev put_next : ℕ → WriteFile → Cmd Fs FlogResult
put_next file f = do modify (put_file file f); pure success

module _ (file : ℕ) (some_file : (file == null) ≡ false) where
  -- Taking the next block makes this file the dirty one, at the first sector of that block.
  commit_tail_into-IsFlushable :
      (next : BlockAlloc) (bytes : List ℕ) (s : Fs)
      → Holds IsFlushable (commit_tail_into next file bytes s)
  unfolding commit_tail_into next_block_file
  commit_tail_into-IsFlushable next bytes s =
      let taken : Fs = record s {
        dirty_block = record { block = next.block; file = file };
        t = add32 s.t 1;
      } in
      let f = with_tail_header next taken.t (length bytes) (s.write_files file) in
      let spare : SectorSpare = record {
        type_id = s.stack 1;
        nothing = s.stack 2;
        nbytes = sub16 (add16 (s.write_files file).offset (length bytes)) file_tail_size;
      } in
      Holds-bind {r = write_file_sector f bytes spare taken}
        {k = λ _. put_next file (next_block_file next (length bytes) f)}
        ((write_file_sector-On (λ d _. d.file ≡ file) f bytes spare).at taken refl)
        λ _ t dirty. holds (inr (ground arith, ground arith))

  flush_dirty_by-IsFlushable :
      (commit : ℕ → List ℕ → Cmd Fs FlogResult) (s : Fs)
      → Holds IsFlushable (flush_dirty_by commit s)
  unfolding flush_dirty_by
  flush_dirty_by-IsFlushable commit s =
      elim (Bool-cases (s.dirty_block.block == block_idx_invalid)) [
        | inl e ↦ rw e (holds (inl e))
        | inr e ↦ rw e (flushed (flush_write_by commit s.dirty_block.file s))
      ]
    where
      flushed :
          (r : Run Fs FlogResult)
          → Holds IsFlushable (
              and_then r (λ _. modify (λ (t : Fs). record t {
                dirty_block = record t.dirty_block { block = block_idx_invalid };
              })))
      flushed (ok a t) = holds (inl refl)
      flushed panic = stopped
      flushed out_of_fuel = spent

  commit_tail-IsFlushable :
      (commit : ℕ → List ℕ → Cmd Fs FlogResult) (bytes : List ℕ) (s : Fs)
      → Holds IsFlushable (commit_tail (flush_dirty_by commit) file bytes s)
  unfolding commit_tail
  commit_tail-IsFlushable commit bytes s = Holds-bind (flush_dirty_by-IsFlushable commit s) λ _ t h.
      Holds-bind ((flog_allocate_block-On Flushable).at t h) λ next u k.
        elim (Bool-cases (next.block == block_idx_invalid)) [
          | inl e ↦ rw e (holds k)
          | inr e ↦ rw e (commit_tail_into-IsFlushable next bytes u)
        ]

  commit_by-IsFlushable :
      (commit : ℕ → List ℕ → Cmd Fs FlogResult) (bytes : List ℕ)
      → Keeps IsFlushable (commit_by commit file bytes)
  unfolding commit_by
  commit_by-IsFlushable commit bytes = record {
    at = λ s h. elim (Bool-cases ((s.write_files file).sector == tail_sector)) [
      | inl e ↦ rw e (commit_tail-IsFlushable commit bytes s)
      | inr e ↦ rw e ((commit_inner-IsFlushable file bytes).at s h)
    ];
  }

  pub flog_commit_file_sector-IsFlushable :
      (depth : ℕ) (bytes : List ℕ) → Keeps IsFlushable (flog_commit_file_sector depth file bytes)
  unfolding flog_commit_file_sector
  flog_commit_file_sector-IsFlushable zero bytes = Keeps-fail
  flog_commit_file_sector-IsFlushable (suc depth) bytes =
      commit_by-IsFlushable (flog_commit_file_sector depth) bytes

  pub buffer_bytes-IsFlushable : (src : List ℕ) → Keeps IsFlushable (buffer_bytes file src)
  unfolding buffer_bytes
  buffer_bytes-IsFlushable src = record {
    at = λ s h. elim h [ inl e ↦ holds (inl e) | inr (a, b) ↦ holds (inr (a, ground arith)) ];
  }

  write_loop-IsFlushable :
      (k : ℕ) (src : List ℕ) (count : ℕ) → Keeps IsFlushable (write_loop k file src count)
  unfolding write_loop
  write_loop-IsFlushable zero src count = Keeps-fail
  write_loop-IsFlushable (suc k) src count =
      search
        (
          keeps_rules,
          get_file-On Flushable,
          flog_commit_file_sector-IsFlushable,
          buffer_bytes-IsFlushable,
          write_loop-IsFlushable k,
        )
        depth 20

-- A write to a file of the application, if it returns, leaves the dirty file before the last sector
-- of its block, if it was there before the write.
pub flogfs_write-IsFlushable :
    (file : ℕ) (src : List ℕ) (n : ℕ) (s s' : Fs)
    → (file == null) ≡ false
    → IsFlushable s
    → flogfs_write file src s ≡ ok n s'
    → IsFlushable s'
unfolding flogfs_write
flogfs_write-IsFlushable file src n s s' some_file h e = Holds-ok (
    subst (Holds IsFlushable) e
      ((write_loop-IsFlushable file some_file (length src + 1) src 0).at s h))
