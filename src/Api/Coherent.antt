-- ===== src/Api/Coherent.antt =====
-- Every state that a client can reach has a coherent page cache.
use flog_fs.Fs.{Fs}
use flog_fs.Fs.Cache.{IsCoherent}
use flog_fs.Mount.Coherent.{
  IsCoherent-IsStable, flogfs_initialize-IsCoherent, flogfs_mount-IsCoherent,
}
use flog_fs.Api.{Reachable}
use flog_fs.Api.Invariant.{Reachable-Invariant}

-- In every state that calls can lead to from `flogfs_initialize`, whatever was in memory before it,
-- a page that the cache marks as open is the page that is open in the chip.
pub Reachable-IsCoherent : (s : Fs) → Reachable s → IsCoherent s
Reachable-IsCoherent s r =
    Reachable-Invariant
      (record {
        stable = IsCoherent-IsStable;
        initializing = flogfs_initialize-IsCoherent;
        mounting = flogfs_mount-IsCoherent;
      })
      s r
