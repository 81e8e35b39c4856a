-- ===== src/Mount/Keeps.antt =====
-- Formatting and mounting keep the invariants of the file system.
use flog_fs.Base.{◌≡◌, refl, false, ℕ, zero, suc}
use flog_fs.Flash.{flash_open_page, flash_block_is_bad}
use flog_fs.Inode.{InodeIterator}
use flog_fs.Inode.Keeps.{flog_inode_iterator_next-Keeps, flog_inode_iterator_initialize-Keeps}
use flog_fs.Mount.{
  mount_table, fresh_mount, erase_loop, first_valid_loop, write_first_inode, flogfs_format,
  find_inode0_loop, flogfs_find_first_inode, inspect_loop, flogfs_inspect, flogfs_fsck,
}
use flog_fs.Run.Keeps.{Keeps, Holds-and_then}
use flog_fs.Fs.{Fs}
use flog_fs.Alloc.Stable.{
  IsStable, stable_rules, flog_block_statistics_read-Keeps, flog_block_statistics_write-Keeps,
}

-- Mounting closes the page, and keeps the flash and the lists.
pub record Refreshed (s t : Fs) : Type 0 where
  pub closed : t.cache_status.page_open ≡ false
  pub chip : t.chip ≡ s.chip
  pub prealloc : t.prealloc ≡ s.prealloc
  pub params : t.params ≡ s.params
  pub state : t.state ≡ s.state

pub fresh_mount_lem : (s : Fs) → Refreshed s (fresh_mount s)
unfolding fresh_mount
fresh_mount_lem s = record {
  closed = refl;
  chip = refl;
  prealloc = refl;
  params = refl;
  state = refl;
}

module _ {I : Fs → Type 0} (st : IsStable I) where
  erase_loop-Keeps : (k block : ℕ) → Keeps I (erase_loop k block)
  unfolding erase_loop
  erase_loop-Keeps zero block = search stable_rules
  erase_loop-Keeps (suc k) block = search (stable_rules, erase_loop-Keeps k) depth 20

  first_valid_loop-Keeps : (k block : ℕ) → Keeps I (first_valid_loop k block)
  unfolding first_valid_loop
  first_valid_loop-Keeps zero block = search stable_rules
  first_valid_loop-Keeps (suc k) block =
      search
        (
          stable_rules,
          flog_block_statistics_read-Keeps,
          flog_block_statistics_write-Keeps,
          first_valid_loop-Keeps k,
        )
        depth 20

  write_first_inode-Keeps : (block : ℕ) → Keeps I (write_first_inode block)
  unfolding write_first_inode
  write_first_inode-Keeps block = search stable_rules depth 20

  pub flogfs_format-Keeps : Keeps I flogfs_format
  unfolding flogfs_format
  flogfs_format-Keeps =
      search (stable_rules, erase_loop-Keeps, first_valid_loop-Keeps, write_first_inode-Keeps) depth
        20

  find_inode0_loop-Keeps : (k block : ℕ) → Keeps I (find_inode0_loop k block)
  unfolding find_inode0_loop flash_open_page flash_block_is_bad
  find_inode0_loop-Keeps zero block = search stable_rules
  find_inode0_loop-Keeps (suc k) block = record {
    at = λ s h.
        Holds-and_then (st.behind block _ h)
          (λ statistics. search (stable_rules, find_inode0_loop-Keeps k) depth 20);
  }

  pub flogfs_find_first_inode-Keeps : Keeps I flogfs_find_first_inode
  unfolding flogfs_find_first_inode
  flogfs_find_first_inode-Keeps = search find_inode0_loop-Keeps

  inspect_loop-Keeps : (k : ℕ) (iter : InodeIterator) → Keeps I (inspect_loop k iter)
  unfolding inspect_loop
  inspect_loop-Keeps zero iter = search stable_rules
  inspect_loop-Keeps (suc k) iter =
      search (stable_rules, flog_inode_iterator_next-Keeps, inspect_loop-Keeps k) depth 20

  pub flogfs_inspect-Keeps : Keeps I flogfs_inspect
  unfolding flogfs_inspect
  flogfs_inspect-Keeps =
      search (stable_rules, flog_inode_iterator_initialize-Keeps, inspect_loop-Keeps) depth 20

  pub flogfs_fsck-Keeps : Keeps I flogfs_fsck
  unfolding flogfs_fsck
  flogfs_fsck-Keeps = search stable_rules

  pub mount_table-Keeps : Keeps I mount_table
  unfolding mount_table
  mount_table-Keeps =
      search (stable_rules, flogfs_find_first_inode-Keeps, flogfs_inspect-Keeps) depth 20
