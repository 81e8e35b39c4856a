-- ===== src/Write/Ends.antt =====
-- Writing ends: the bounds on the rounds of `flogfs_write` and on the depth of its recursion are
-- enough.
use flog_fs.Base.{
  ℕ, zero, suc, ◌+◌, ◌^◌, ◌<◌, ◌≡◌, ◌≢◌, refl, true, false, Bool-cases, inl, inr, List, [], ◌==◌,
  leb, length, take, drop, length-drop, add16, sub16, add32, arith,
}
use flog_fs.Structs.{
  FlogResult, success, succeeded, SectorSpare, tail_sector, block_type_file, file_tail_size,
  block_idx_invalid,
}
use flog_fs.Prealloc.{BlockAlloc}
use flog_fs.Prealloc.Listed.{IsListed}
use flog_fs.Fs.{Fs, WriteFile, DirtyBlock, null, clean}
use flog_fs.Fs.Listed.{Listed, listed_rules}
use flog_fs.Alloc.Listed.{flog_allocate_block-Listed}
use flog_fs.Write.{
  put_file, data_nbytes, with_tail_header, advance, next_block_file, with_init_header,
  write_file_sector, write_inner, commit_inner, commit_tail_into, commit_tail, flush_write_by,
  flush_dirty_by, commit_by, flog_commit_file_sector, commit_depth, buffer_bytes, write_loop,
  flogfs_write,
}
use flog_fs.Write.Depth.{IsFlushable, commit_inside, commit_inner-IsClean}
use flog_fs.Write.Flushable.{flog_commit_file_sector-IsFlushable, buffer_bytes-IsFlushable}
use flog_fs.Run.{Cmd, out_of_fuel, and_then, modify, pure, ◌>>◌}
use flog_fs.Run.Keeps.{Holds-ok}
use flog_fs.Run.Ends
use flog_fs.Run.Ends.{Ends, ends, failed, Lasts, Ends-ne-out_of_fuel}

-- The lists are well formed; nothing is said of the files.
abbrev Lists : Fs → Type 0
Lists s = IsListed s.prealloc

abbrev Nothing : DirtyBlock → (ℕ → WriteFile) → Type 0
Nothing d w = Unit {0}

write_file_sector-Listed :
    (f : WriteFile) (bytes : List ℕ) (spare : SectorSpare)
    → Lasts (Listed Nothing) (write_file_sector f bytes spare)
unfolding write_file_sector
write_file_sector-Listed f bytes spare = search listed_rules depth 20

-- Room is left in the sector that the file has come to.
abbrev HasRoom : ℕ → Fs → Type 0
HasRoom file s =
    (0 < (s.write_files file).sector_remaining_bytes)
    × ((s.write_files file).sector_remaining_bytes < 2 ^ 16)

-- the end of a commit: the file comes to another sector
abbrev put_then : ℕ → (Fs → WriteFile) → Cmd Fs FlogResult
put_then file next = do modify (λ s. put_file file (next s) s); pure success

module _ (file : ℕ) where
  abbrev Committed : FlogResult → Fs → Type 0
  Committed done s = Lists s × ((succeeded done ≡ true) → HasRoom file s)

  put_then-Ends :
      (next : Fs → WriteFile) (s : Fs)
      → Lists s
      → 0 < (next s).sector_remaining_bytes
      → (next s).sector_remaining_bytes < 2 ^ 16
      → Ends Committed (put_then file next s)
  put_then-Ends next s h some bound =
      let same : (file == file) ≡ true = ground arith in
      ends {s = put_file file (next s) s} (h, λ _. rw same (some, bound))

  -- a commit that writes a sector, and moves on
  write_then-Ends :
      (f : WriteFile) (bytes : List ℕ) (spare : SectorSpare) (next : Fs → WriteFile) (s : Fs)
      → Lists s
      → ((t : Fs)
          → (0 < (next t).sector_remaining_bytes) × ((next t).sector_remaining_bytes < 2 ^ 16))
      → Ends Committed (and_then (write_file_sector f bytes spare s) (λ _. put_then file next))
  write_then-Ends f bytes spare next s h room =
      Ends.bind {k = λ _. put_then file next}
        ((write_file_sector-Listed f bytes spare).at s (h, tt))
        λ _ t k. put_then-Ends next t k.0 (room t).0 (room t).1

  write_inner-Ends : (bytes : List ℕ) (s : Fs) → Lists s → Ends Committed (write_inner file bytes s)
  unfolding write_inner advance
  write_inner-Ends bytes s h =
      let f = with_init_header (s.write_files file) in
      write_then-Ends f bytes
        (record {
          type_id = block_type_file;
          nothing = s.stack 1;
          nbytes = data_nbytes (s.write_files file) (length bytes);
        })
        (λ t. advance t.params (length bytes) f) s h (λ t. (ground arith, ground arith))

  commit_inner-Ends :
      (bytes : List ℕ) (s : Fs) → Lists s → Ends Committed (commit_inner file bytes s)
  unfolding commit_inner
  commit_inner-Ends bytes s h = elim (Bool-cases (s.dirty_block.file == file)) [
    | inl e ↦ rw e (write_inner-Ends bytes (record s { dirty_block = clean }) h)
    | inr e ↦ rw e (write_inner-Ends bytes s h)
  ]

  commit_nothing : (s : Fs) → Lists s → Ends (λ _ t. Lists t) (commit_inner file [] s)
  commit_nothing s h = Ends.mono (commit_inner-Ends [] s h) (λ _ t k. k.0)

  commit_tail_into-Ends :
      (next : BlockAlloc) (bytes : List ℕ) (s : Fs)
      → Lists s
      → Ends Committed (commit_tail_into next file bytes s)
  unfolding commit_tail_into next_block_file
  commit_tail_into-Ends next bytes s h =
      let f = with_tail_header next (add32 s.t 1) (length bytes) (s.write_files file) in
      write_then-Ends f bytes
        (record {
          type_id = s.stack 1;
          nothing = s.stack 2;
          nbytes = sub16 (add16 (s.write_files file).offset (length bytes)) file_tail_size;
        })
        (λ _. next_block_file next (length bytes) f)
        (record s { dirty_block = record { block = next.block; file = file }; t = add32 s.t 1 }) h
        (λ t. (omega arith, omega arith))

-- Flushing the dirty file, which has not come to the last sector of its block, ends at the first
-- level of the recursion.
flush_write-Ends :
    (k dirty : ℕ) (s : Fs)
    → Lists s
    → s.dirty_block.file ≡ dirty
    → (dirty == null) ≡ false
    → ((s.write_files dirty).sector == tail_sector) ≡ false
    → Ends (λ _ t. Lists t) (flush_write_by (flog_commit_file_sector (suc k)) dirty s)
unfolding flush_write_by
flush_write-Ends k dirty s h same some_file inside = rw (commit_inside k dirty [] s inside) (
    Ends.bind (Ends.adding (commit_nothing dirty s h) (commit_inner-IsClean dirty [] s same))
      λ done t (lists, clean). elim (Bool-cases (succeeded done)) [
        | inr e ↦ rw e (ends lists)
        | inl e ↦
            let other : (dirty == t.dirty_block.file) ≡ false = ground arith in
            rw (e, other) (ends lists)
      ])

flush_dirty-Ends :
    (k : ℕ) (s : Fs)
    → Lists s
    → IsFlushable s
    → Ends (λ _ t. Lists t) (flush_dirty_by (flog_commit_file_sector (suc k)) s)
unfolding flush_dirty_by
flush_dirty-Ends k s h flushable = elim (Bool-cases (s.dirty_block.block == block_idx_invalid)) [
  | inl e ↦ rw e (ends h)
  | inr e ↦ elim flushable [
    | inl none_dirty ↦ cc
    | inr (some_file, inside) ↦ rw e (
        Ends.bind (flush_write-Ends k s.dirty_block.file s h refl some_file inside)
          λ _ t lists. ends lists)
  ]
]

module _ (file : ℕ) where
  commit_tail-Ends :
      (k : ℕ) (bytes : List ℕ) (s : Fs)
      → Lists s
      → IsFlushable s
      → Ends
          (Committed file)
          (commit_tail (flush_dirty_by (flog_commit_file_sector (suc k))) file bytes s)
  unfolding commit_tail
  commit_tail-Ends k bytes s h flushable = Ends.bind (flush_dirty-Ends k s h flushable) λ _ t lists.
      Ends.bind ((flog_allocate_block-Listed Nothing).at t (lists, tt)) λ next u (lists', _).
        elim (Bool-cases (next.block == block_idx_invalid)) [
          | inl e ↦ rw e (ends (lists', λ impossible. cc))
          | inr e ↦ rw e (commit_tail_into-Ends file next bytes u lists')
        ]

  flog_commit_file_sector-Ends :
      (bytes : List ℕ) (s : Fs)
      → Lists s
      → IsFlushable s
      → Ends (Committed file) (flog_commit_file_sector commit_depth file bytes s)
  unfolding flog_commit_file_sector commit_by
  flog_commit_file_sector-Ends bytes s h flushable =
      elim (Bool-cases ((s.write_files file).sector == tail_sector)) [
        | inl e ↦ rw e (commit_tail-Ends 0 bytes s h flushable)
        | inr e ↦ rw e (commit_inner-Ends file bytes s h)
      ]

-- What writing to a file needs, and brings about again.
pub record IsWritable (file : ℕ) (s : Fs) : Type 0 where
  pub listed : IsListed s.prealloc
  pub flushable : IsFlushable s
  pub room : 0 < (s.write_files file).sector_remaining_bytes
  pub word : (s.write_files file).sector_remaining_bytes < 2 ^ 16

module _ (file : ℕ) (some_file : (file == null) ≡ false) where
  -- A commit that succeeds leaves the file writable.
  commit-IsWritable :
      (bytes : List ℕ) (s : Fs)
      → IsWritable file s
      → Ends
          (λ done t.
            IsListed t.prealloc × IsFlushable t × ((succeeded done ≡ true) → IsWritable file t))
          (flog_commit_file_sector commit_depth file bytes s)
  commit-IsWritable bytes s w =
      Ends.mono
        (Ends.adding (flog_commit_file_sector-Ends file bytes s w.listed w.flushable) (
          (flog_commit_file_sector-IsFlushable file some_file commit_depth bytes).at s w.flushable))
        λ done t ((lists, room), flushable). (
          lists,
          flushable,
          λ e. record {
            listed = lists;
            flushable = flushable;
            room = (room e).0;
            word = (room e).1;
          },
        )

  -- The file is writable again if all bytes have been taken, or else a commit has failed.
  buffer_bytes-Ends :
      (src : List ℕ) (count : ℕ) (s : Fs)
      → IsWritable file s
      → length src < (s.write_files file).sector_remaining_bytes
      → Ends
          (λ _ t. IsListed t.prealloc × IsFlushable t)
          ((do buffer_bytes file src; pure (add32 count (length src))) s)
  unfolding buffer_bytes
  buffer_bytes-Ends src count s w lt =
      ends (w.listed, Holds-ok ((buffer_bytes-IsFlushable file some_file src).at s w.flushable))

  write_loop-Ends :
      (k : ℕ) (src : List ℕ) (count : ℕ) (s : Fs)
      → length src < k
      → IsWritable file s
      → Ends (λ _ t. IsListed t.prealloc × IsFlushable t) (write_loop k file src count s)
  unfolding write_loop
  write_loop-Ends zero src count s lt w = absurd (omega arith)
  write_loop-Ends (suc k) src count s lt w = elim (Bool-cases (length src == 0)) [
    | inl e ↦ rw e (ends (w.listed, w.flushable))
    | inr e ↦
        let n = (s.write_files file).sector_remaining_bytes in
        elim (Bool-cases (leb n (length src))) [
          | inr small ↦ rw (e, small) (buffer_bytes-Ends src count s w (ground arith))
          | inl large ↦
              rw (e, large)
                (Ends.bind (commit-IsWritable (take n src) s w) λ done t (lists, flushable, ready).
                  elim (Bool-cases (succeeded done)) [
                    | inr failing ↦ rw failing (ends (lists, flushable))
                    | inl passed ↦ rw passed (
                        write_loop-Ends k (drop n src) (add32 count n) t
                          (ground (arith, length-drop n src, w.room)) (ready passed))
                  ])
        ]
  ]

-- A write to a file of the application that has room left in its sector ends: it returns, or an
-- assertion fails. The rounds of its loop and the two levels of its recursion are enough, from any
-- state with well-formed preallocation lists in which the dirty file has not come to the last sector
-- of its block.
pub flogfs_write-Ends :
    (file : ℕ) (src : List ℕ) (s : Fs)
    → (file == null) ≡ false
    → IsWritable file s
    → flogfs_write file src s ≢ out_of_fuel
unfolding flogfs_write
flogfs_write-Ends file src s some_file w =
    Ends-ne-out_of_fuel (write_loop-Ends file some_file (length src + 1) src 0 s (omega arith) w)
