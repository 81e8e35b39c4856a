-- ===== src/Mount/Coherent.antt =====
-- The page cache is an invariant of the file system: the primitives keep it coherent, and so does
-- mounting.
use flog_fs.Base.{refl, arith}
use flog_fs.Fs.{Fs, Params}
use flog_fs.Fs.Cache.{
  IsCoherent, coherent_rules, KeepsPage-IsCoherent, flog_close_sector-IsCoherent,
  flog_open_page-IsCoherent, modify-IsCoherent, flog_block_statistics_read-IsBehind,
}
use flog_fs.Alloc.Coherent.{flog_prealloc_prime-IsCoherent, flog_allocate_block-IsCoherent}
use flog_fs.Alloc.Stable.{IsStable}
use flog_fs.Mount.{flogfs_initialize, flogfs_mount, fresh_mount, mount_table, mount_primed}
use flog_fs.Mount.Keeps.{mount_table-Keeps, fresh_mount_lem}
use flog_fs.Run.{modify}
use flog_fs.Run.Keeps.{Keeps, Holds, holds}

pub IsCoherent-IsStable : IsStable IsCoherent
IsCoherent-IsStable = record {
  chip = KeepsPage-IsCoherent;
  minor = λ f e. modify-IsCoherent f e.chip e.cache;
  resetting = modify-IsCoherent _ (λ s. refl) (λ s. refl);
  open_page = flog_open_page-IsCoherent;
  close_sector = flog_close_sector-IsCoherent;
  behind = λ block s h.
      flog_block_statistics_read-IsBehind block _
        (record { block_open = refl; page_open = refl; result = h.result });
  prime = flog_prealloc_prime-IsCoherent;
  allocate = flog_allocate_block-IsCoherent;
}

fresh_mount-IsCoherent : Keeps IsCoherent (modify fresh_mount)
fresh_mount-IsCoherent = record {
  at = λ s h.
      let closed = (fresh_mount_lem s).closed in
      holds (record { block = λ p. cc; page = λ p. cc; result = λ p. cc });
}

mount_primed-IsCoherent : Keeps IsCoherent mount_primed
unfolding mount_primed
mount_primed-IsCoherent = search (coherent_rules, flog_prealloc_prime-IsCoherent) depth 20

mount_table-IsCoherent : Keeps IsCoherent mount_table
mount_table-IsCoherent = mount_table-Keeps IsCoherent-IsStable

pub flogfs_mount-IsCoherent : Keeps IsCoherent flogfs_mount
unfolding flogfs_mount
flogfs_mount-IsCoherent =
    search (coherent_rules, fresh_mount-IsCoherent, mount_table-IsCoherent, mount_primed-IsCoherent)
      depth 20

-- Whatever the cache held, initialising empties it.
pub flogfs_initialize-IsCoherent :
    (params : Params) (s : Fs) → Holds IsCoherent (flogfs_initialize params s)
unfolding flogfs_initialize
flogfs_initialize-IsCoherent params s = holds (ground arith)
