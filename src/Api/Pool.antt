-- ===== src/Api/Pool.antt =====
-- In every state that a client can reach, the preallocation list of a mounted file system is a pool of
-- blocks.
use flog_fs.Base.{◌≡◌, inl, inr}
use flog_fs.Structs.{mounted}
use flog_fs.Prealloc.Pool.{IsPool}
use flog_fs.Fs.{Fs}
use flog_fs.Alloc.Held.{Any}
use flog_fs.Mount.Pool.{
  MountedPool, MountedPool-IsStable, flogfs_initialize-MountedPool, flogfs_mount-MountedPool,
}
use flog_fs.Api.{Reachable}
use flog_fs.Api.Invariant.{Reachable-Invariant}

-- In every state that calls can lead to from `flogfs_initialize` and in which the file system is
-- mounted, the eight nodes are shared out among three well-formed lists, and the blocks that are
-- available or handed out are pairwise different blocks of the device, none of them 0.
pub Reachable-IsPool :
    (s : Fs) → Reachable s → s.state ≡ mounted → IsPool s.params.number_of_blocks Any s.prealloc
Reachable-IsPool s r up =
    let h : MountedPool s =
      Reachable-Invariant
        (record {
          stable = MountedPool-IsStable;
          initializing = flogfs_initialize-MountedPool;
          mounting = flogfs_mount-MountedPool;
        })
        s r in
    elim h.pool [ inl down ↦ cc | inr v ↦ v ]
