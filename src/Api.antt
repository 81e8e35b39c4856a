-- ===== src/Api.antt =====
-- The functions that src/flogfs.h offers to an application, as calls that a client makes in any
-- order, and the states that a client can bring the file system to.
pub mod Coherent
pub mod Invariant
pub mod Pool
use flog_fs.Base.{ℕ, List, ◌≡◌}
use flog_fs.Fs.{Fs, Params}
use flog_fs.Mount.{flogfs_initialize, flogfs_format, flogfs_mount, flogfs_fsck}
use flog_fs.Open.{flogfs_open_read, flogfs_open_write, flogfs_close_read, flogfs_close_write}
use flog_fs.Read.{flogfs_read}
use flog_fs.Write.{flogfs_write}
use flog_fs.FileWalk.{flogfs_read_seek}
use flog_fs.Inode.{InodeIterator, flogfs_check_exists}
use flog_fs.Remove.{flogfs_rm, flogfs_start_ls, flogfs_ls_iterate}
use flog_fs.DiskWalk.{Shown, flog_walk}
use flog_fs.Run.{Run, ok, Cmd, pure, ◌>>=◌, ◌>>◌}

-- The callback of a walk has a number as its state here.
pub data Call : Type 0 where
  initialize : Params → Call
  format mount fsck : Call
  check_exists rm : List ℕ → Call
  open_read open_write : ℕ → List ℕ → Call
  close_read close_write : ℕ → Call
  read seek : ℕ → ℕ → Call
  write : ℕ → List ℕ → Call
  start_ls : Call
  ls_iterate : InodeIterator → Call
  walk : (Shown → ℕ → ℕ) → ℕ → Call

-- A call, of which the result is not looked at.
unfoldable pub perform : Call → Cmd Fs (Unit {0})
unfolding flogfs_initialize flogfs_format flogfs_mount flogfs_fsck flogfs_open_read
    flogfs_open_write flogfs_close_read flogfs_close_write flogfs_read flogfs_write flogfs_read_seek
    flogfs_check_exists flogfs_rm flogfs_start_ls flogfs_ls_iterate flog_walk
perform (initialize params) = do flogfs_initialize params; pure tt
perform format = do flogfs_format; pure tt
perform mount = do flogfs_mount; pure tt
perform fsck = do flogfs_fsck; pure tt
perform (check_exists name) = do flogfs_check_exists name; pure tt
perform (rm name) = do flogfs_rm name; pure tt
perform (open_read file name) = do flogfs_open_read file name; pure tt
perform (open_write file name) = do flogfs_open_write file name; pure tt
perform (close_read file) = do flogfs_close_read file; pure tt
perform (close_write file) = do flogfs_close_write file; pure tt
perform (read file nbytes) = do flogfs_read file nbytes; pure tt
perform (seek file position) = do flogfs_read_seek file position; pure tt
perform (write file src) = do flogfs_write file src; pure tt
perform start_ls = do flogfs_start_ls; pure tt
perform (ls_iterate iter) = do flogfs_ls_iterate iter; pure tt
perform (walk f arg) = do flog_walk f arg; pure tt

-- The states after `flogfs_initialize`, whatever memory held before, and any calls that returned.
pub data Reachable : Fs → Type 0 where
  initialized :
      (params : Params) (s s' : Fs) → perform (initialize params) s ≡ ok tt s' → Reachable s'
  called : (c : Call) (s s' : Fs) → Reachable s → perform c s ≡ ok tt s' → Reachable s'
