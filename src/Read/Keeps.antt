-- ===== src/Read/Keeps.antt =====
-- Reading keeps the invariants of the file system.
use flog_fs.Base.{ℕ, zero, suc, List}
use flog_fs.Read.{next_block_step, next_sector_step, refill, take_bytes, read_loop, flogfs_read}
use flog_fs.Run.Keeps.{Keeps}
use flog_fs.Fs.{Fs}
use flog_fs.Alloc.Stable.{IsStable, stable_rules}

module _ {I : Fs → Type 0} (st : IsStable I) where
  next_block_step-Keeps : (file : ℕ) → Keeps I (next_block_step file)
  unfolding next_block_step
  next_block_step-Keeps file = search stable_rules depth 20

  next_sector_step-Keeps : (file : ℕ) → Keeps I (next_sector_step file)
  unfolding next_sector_step
  next_sector_step-Keeps file = search stable_rules depth 20

  refill-Keeps : (file : ℕ) → Keeps I (refill file)
  unfolding refill
  refill-Keeps file = search (stable_rules, next_block_step-Keeps, next_sector_step-Keeps) depth 20

  take_bytes-Keeps : (file to_read : ℕ) → Keeps I (take_bytes file to_read)
  unfolding take_bytes
  take_bytes-Keeps file to_read = search stable_rules depth 20

  read_loop-Keeps :
      (k file nbytes count : ℕ) (dst : List ℕ) → Keeps I (read_loop k file nbytes count dst)
  unfolding read_loop
  read_loop-Keeps zero file nbytes count dst = search stable_rules
  read_loop-Keeps (suc k) file nbytes count dst =
      search (stable_rules, refill-Keeps, take_bytes-Keeps, read_loop-Keeps k) depth 20

  pub flogfs_read-Keeps : (file nbytes : ℕ) → Keeps I (flogfs_read file nbytes)
  unfolding flogfs_read
  flogfs_read-Keeps file nbytes = search (stable_rules, read_loop-Keeps) depth 20
