-- ===== src/Inode/Keeps.antt =====
-- The inode table keeps the invariants of the file system.
use flog_fs.Base.{ℕ, zero, suc, List}
use flog_fs.Prealloc.{BlockAlloc}
use flog_fs.Fs.{flog_universal_get_next_block}
use flog_fs.Write.Keeps.{flog_flush_dirty_block-Keeps}
use flog_fs.Inode.{
  InodeIterator, flog_inode_iterator_initialize, flog_inode_iterator_next, link_inode_block,
  flog_inode_prepare_new, find_loop, flog_find_file, flogfs_check_exists,
}
use flog_fs.Run.Keeps.{Keeps}
use flog_fs.Fs.{Fs}
use flog_fs.Alloc.Stable.{IsStable, stable_rules, flog_allocate_block-Keeps}

module _ {I : Fs → Type 0} (st : IsStable I) where
  pub flog_universal_get_next_block-Keeps :
      (block : ℕ) → Keeps I (flog_universal_get_next_block block)
  unfolding flog_universal_get_next_block
  flog_universal_get_next_block-Keeps block = search stable_rules depth 20

  pub flog_inode_iterator_initialize-Keeps :
      (inode0 : ℕ) → Keeps I (flog_inode_iterator_initialize inode0)
  unfolding flog_inode_iterator_initialize
  flog_inode_iterator_initialize-Keeps inode0 = search stable_rules depth 20

  pub flog_inode_iterator_next-Keeps :
      (iter : InodeIterator) → Keeps I (flog_inode_iterator_next iter)
  unfolding flog_inode_iterator_next
  flog_inode_iterator_next-Keeps iter =
      search (stable_rules, flog_universal_get_next_block-Keeps) depth 20

  link_inode_block-Keeps :
      (iter : InodeIterator) (alloc : BlockAlloc) → Keeps I (link_inode_block iter alloc)
  unfolding link_inode_block
  link_inode_block-Keeps iter alloc = search stable_rules depth 30

  pub flog_inode_prepare_new-Keeps : (iter : InodeIterator) → Keeps I (flog_inode_prepare_new iter)
  unfolding flog_inode_prepare_new
  flog_inode_prepare_new-Keeps iter =
      search
        (
          stable_rules, flog_flush_dirty_block-Keeps, flog_allocate_block-Keeps,
          link_inode_block-Keeps,
        )
        depth 20

  find_loop-Keeps :
      (k : ℕ) (filename : List ℕ) (iter : InodeIterator) → Keeps I (find_loop k filename iter)
  unfolding find_loop
  find_loop-Keeps zero filename iter = search stable_rules
  find_loop-Keeps (suc k) filename iter =
      search (stable_rules, flog_inode_iterator_next-Keeps, find_loop-Keeps k) depth 20

  pub flog_find_file-Keeps : (filename : List ℕ) → Keeps I (flog_find_file filename)
  unfolding flog_find_file
  flog_find_file-Keeps filename =
      search (stable_rules, flog_inode_iterator_initialize-Keeps, find_loop-Keeps) depth 20

  pub flogfs_check_exists-Keeps : (filename : List ℕ) → Keeps I (flogfs_check_exists filename)
  unfolding flogfs_check_exists
  flogfs_check_exists-Keeps filename = search (stable_rules, flog_find_file-Keeps) depth 20
