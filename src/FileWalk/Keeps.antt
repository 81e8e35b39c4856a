-- ===== src/FileWalk/Keeps.antt =====
-- Walking a file keeps the invariants of the file system, whatever the callback.
use flog_fs.Base.{ℕ, zero, suc}
use flog_fs.Fs.{Fs, ReadFile}
use flog_fs.FileWalk.{
  Visitor, FileWalkState, walk_sectors_loop, read_walk_sectors, walk_file_loop,
  flogfs_read_walk_file, flogfs_read_calc_file_size, flogfs_read_seek, WalkResult, walk_failure,
  walk_continue, walk_stop, walk_skip_block, on_verdict,
}
use flog_fs.Run.{Cmd}
use flog_fs.Run.Keeps.{Keeps}
use flog_fs.Alloc.Stable.{IsStable, stable_rules}

module _ {I : Fs → Type 0} (st : IsStable I) where
  Keeps-on_verdict :
      {A : Type 0} {P : Fs → Type 0} (v : WalkResult) (f c s b : Cmd Fs A)
      → Keeps P f
      → Keeps P c
      → Keeps P s
      → Keeps P b
      → Keeps P (on_verdict v f c s b)
  unfolding on_verdict
  Keeps-on_verdict walk_failure f c s b hf hc hs hb = hf
  Keeps-on_verdict walk_continue f c s b hf hc hs hb = hc
  Keeps-on_verdict walk_stop f c s b hf hc hs hb = hs
  Keeps-on_verdict walk_skip_block f c s b hf hc hs hb = hb

  module _ {A : Type 0} (walk : Visitor A) where
    walk_sectors_loop-Keeps :
        (k : ℕ) (state : FileWalkState) (arg : A) → Keeps I (walk_sectors_loop walk k state arg)
    unfolding walk_sectors_loop
    walk_sectors_loop-Keeps zero state arg = search stable_rules
    walk_sectors_loop-Keeps (suc k) state arg =
        search (stable_rules, Keeps-on_verdict, walk_sectors_loop-Keeps k) depth 20

    read_walk_sectors-Keeps :
        (state : FileWalkState) (arg : A) → Keeps I (read_walk_sectors walk state arg)
    unfolding read_walk_sectors
    read_walk_sectors-Keeps state arg = search (stable_rules, walk_sectors_loop-Keeps) depth 20

    walk_file_loop-Keeps :
        (k : ℕ) (state : FileWalkState) (arg : A) → Keeps I (walk_file_loop walk k state arg)
    unfolding walk_file_loop
    walk_file_loop-Keeps zero state arg = search stable_rules
    walk_file_loop-Keeps (suc k) state arg =
        search (stable_rules, Keeps-on_verdict, read_walk_sectors-Keeps, walk_file_loop-Keeps k)
          depth 20

    flogfs_read_walk_file-Keeps :
        (file : ReadFile) (arg : A) → Keeps I (flogfs_read_walk_file walk file arg)
    unfolding flogfs_read_walk_file
    flogfs_read_walk_file-Keeps file arg = search (stable_rules, walk_file_loop-Keeps) depth 20

  pub flogfs_read_calc_file_size-Keeps : (file : ℕ) → Keeps I (flogfs_read_calc_file_size file)
  unfolding flogfs_read_calc_file_size
  flogfs_read_calc_file_size-Keeps file =
      search (stable_rules, flogfs_read_walk_file-Keeps) depth 20

  pub flogfs_read_seek-Keeps : (file position : ℕ) → Keeps I (flogfs_read_seek file position)
  unfolding flogfs_read_seek
  flogfs_read_seek-Keeps file position = search (stable_rules, flogfs_read_walk_file-Keeps) depth 20
