-- ===== src/Api/Invariant.antt =====
-- Invariants that hold in every state that a client can reach, from what the primitives keep.
use flog_fs.Base.{subst}
use flog_fs.Fs.{Fs, Params}
use flog_fs.Mount.{flogfs_initialize, flogfs_mount}
use flog_fs.Alloc.Stable.{IsStable}
use flog_fs.Mount.Keeps.{flogfs_format-Keeps, flogfs_fsck-Keeps}
use flog_fs.Open.Keeps.{
  flogfs_open_read-Keeps, flogfs_open_write-Keeps, flogfs_close_read-Keeps,
  flogfs_close_write-Keeps,
}
use flog_fs.Read.Keeps.{flogfs_read-Keeps}
use flog_fs.Write.Keeps.{flogfs_write-Keeps}
use flog_fs.FileWalk.Keeps.{flogfs_read_seek-Keeps}
use flog_fs.Inode.Keeps.{flogfs_check_exists-Keeps}
use flog_fs.Remove.Keeps.{flogfs_rm-Keeps, flogfs_start_ls-Keeps, flogfs_ls_iterate-Keeps}
use flog_fs.DiskWalk.Keeps.{flog_walk-Keeps}
use flog_fs.Api.{
  Call, initialize, format, mount, fsck, check_exists, rm, open_read, open_write, close_read,
  close_write, read, seek, write, start_ls, ls_iterate, walk, perform, Reachable, initialized,
  called,
}
use flog_fs.Run.Keeps.{Keeps, Keeps-then, Keeps-pure, Holds, Holds-ok, Holds-and_then}

-- What is to be shown of an invariant: the primitives keep it, initialising brings it about, and
-- mounting keeps it.
pub record IsInvariant (I : Fs → Type 0) : Type 1 where
  pub stable : IsStable I
  pub initializing : (params : Params) (s : Fs) → Holds I (flogfs_initialize params s)
  pub mounting : Keeps I flogfs_mount

ruleset call_rules = (
  Keeps-then, Keeps-pure, flogfs_format-Keeps, flogfs_fsck-Keeps, flogfs_open_read-Keeps,
  flogfs_open_write-Keeps, flogfs_close_read-Keeps, flogfs_close_write-Keeps, flogfs_read-Keeps,
  flogfs_write-Keeps, flogfs_read_seek-Keeps, flogfs_check_exists-Keeps, flogfs_rm-Keeps,
  flogfs_start_ls-Keeps, flogfs_ls_iterate-Keeps, flog_walk-Keeps,
)

module _ {I : Fs → Type 0} (inv : IsInvariant I) where
  initialize-Holds : (params : Params) (s : Fs) → Holds I (perform (initialize params) s)
  unfolding perform
  initialize-Holds params s = Holds-and_then (inv.initializing params s) (λ _. Keeps-pure tt)

  perform-Keeps : (c : Call) → Keeps I (perform c)
  unfolding perform
  perform-Keeps (initialize params) = record { at = λ s h. initialize-Holds params s }
  perform-Keeps format = search (call_rules, inv.stable)
  perform-Keeps mount = Keeps-then flogfs_mount _ inv.mounting (Keeps-pure tt)
  perform-Keeps fsck = search (call_rules, inv.stable)
  perform-Keeps (check_exists name) = search (call_rules, inv.stable)
  perform-Keeps (rm name) = search (call_rules, inv.stable)
  perform-Keeps (open_read file name) = search (call_rules, inv.stable)
  perform-Keeps (open_write file name) = search (call_rules, inv.stable)
  perform-Keeps (close_read file) = search (call_rules, inv.stable)
  perform-Keeps (close_write file) = search (call_rules, inv.stable)
  perform-Keeps (read file nbytes) = search (call_rules, inv.stable)
  perform-Keeps (seek file position) = search (call_rules, inv.stable)
  perform-Keeps (write file src) = search (call_rules, inv.stable)
  perform-Keeps start_ls = search (call_rules, inv.stable)
  perform-Keeps (ls_iterate iter) = search (call_rules, inv.stable)
  perform-Keeps (walk f arg) = search (call_rules, inv.stable)

  pub Reachable-Invariant : (s : Fs) → Reachable s → I s
  Reachable-Invariant s (initialized params t _ e) =
      Holds-ok (subst (Holds I) e (initialize-Holds params t))
  Reachable-Invariant s (called c t _ r e) =
      Holds-ok (subst (Holds I) e ((perform-Keeps c).at t (Reachable-Invariant t r)))
