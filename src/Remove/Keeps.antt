-- ===== src/Remove/Keeps.antt =====
-- Removing files and listing them keeps the invariants of the file system.
use flog_fs.Base.{ℕ, zero, suc, List}
use flog_fs.Structs.{FileInitHeader, FileTailHeader}
use flog_fs.Fs.{flog_get_block_type}
use flog_fs.Inode.{InodeIterator}
use flog_fs.Inode.Keeps.{
  flog_find_file-Keeps, flog_inode_iterator_next-Keeps, flog_universal_get_next_block-Keeps,
  flog_inode_iterator_initialize-Keeps,
}
use flog_fs.Remove.{
  erase_file_block, invalidate_block, invalidate_loop, flog_invalidate_chain, last_block_loop,
  flogfs_rm, flogfs_start_ls, ls_loop, flogfs_ls_iterate,
}
use flog_fs.Run.Keeps.{Keeps}
use flog_fs.Fs.{Fs}
use flog_fs.Alloc.Stable.{
  IsStable, stable_rules, flog_block_statistics_read-Keeps, flog_block_statistics_write-Keeps,
}

module _ {I : Fs → Type 0} (st : IsStable I) where
  flog_get_block_type-Keeps : (block : ℕ) → Keeps I (flog_get_block_type block)
  unfolding flog_get_block_type
  flog_get_block_type-Keeps block = search stable_rules depth 20

  erase_file_block-Keeps :
      (block : ℕ) (init : FileInitHeader) (tail : FileTailHeader)
      → Keeps I (erase_file_block block init tail)
  unfolding erase_file_block
  erase_file_block-Keeps block init tail =
      search (stable_rules, flog_block_statistics_write-Keeps) depth 20

  invalidate_block-Keeps : (block file_id : ℕ) → Keeps I (invalidate_block block file_id)
  unfolding invalidate_block
  invalidate_block-Keeps block file_id = search (stable_rules, erase_file_block-Keeps) depth 20

  invalidate_loop-Keeps : (k block file_id : ℕ) → Keeps I (invalidate_loop k block file_id)
  unfolding invalidate_loop
  invalidate_loop-Keeps zero block file_id = search stable_rules
  invalidate_loop-Keeps (suc k) block file_id =
      search
        (
          stable_rules,
          flog_get_block_type-Keeps,
          flog_block_statistics_read-Keeps,
          invalidate_block-Keeps,
          invalidate_loop-Keeps k,
        )
        depth 20

  flog_invalidate_chain-Keeps : (base file_id : ℕ) → Keeps I (flog_invalidate_chain base file_id)
  unfolding flog_invalidate_chain
  flog_invalidate_chain-Keeps base file_id = search (stable_rules, invalidate_loop-Keeps) depth 20

  last_block_loop-Keeps : (k block : ℕ) → Keeps I (last_block_loop k block)
  unfolding last_block_loop
  last_block_loop-Keeps zero block = search stable_rules
  last_block_loop-Keeps (suc k) block =
      search (stable_rules, flog_universal_get_next_block-Keeps, last_block_loop-Keeps k) depth 20

  pub flogfs_rm-Keeps : (filename : List ℕ) → Keeps I (flogfs_rm filename)
  unfolding flogfs_rm
  flogfs_rm-Keeps filename =
      search
        (stable_rules, flog_find_file-Keeps, last_block_loop-Keeps, flog_invalidate_chain-Keeps)
        depth 20

  pub flogfs_start_ls-Keeps : Keeps I flogfs_start_ls
  unfolding flogfs_start_ls
  flogfs_start_ls-Keeps = search (stable_rules, flog_inode_iterator_initialize-Keeps) depth 20

  ls_loop-Keeps : (k : ℕ) (iter : InodeIterator) → Keeps I (ls_loop k iter)
  unfolding ls_loop
  ls_loop-Keeps zero iter = search stable_rules
  ls_loop-Keeps (suc k) iter =
      search (stable_rules, flog_inode_iterator_next-Keeps, ls_loop-Keeps k) depth 20

  pub flogfs_ls_iterate-Keeps : (iter : InodeIterator) → Keeps I (flogfs_ls_iterate iter)
  unfolding flogfs_ls_iterate
  flogfs_ls_iterate-Keeps iter = search (stable_rules, ls_loop-Keeps) depth 20
