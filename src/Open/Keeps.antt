-- ===== src/Open/Keeps.antt =====
-- Opening and closing files keeps the invariants of the file system.
use flog_fs.Base.{ℕ, zero, suc, List}
use flog_fs.Prealloc.{BlockAlloc}
use flog_fs.Fs.{Fs}
use flog_fs.Write.Keeps.{flog_flush_dirty_block-Keeps, flog_flush_write-Keeps, file_rules}
use flog_fs.Inode.{InodeIterator}
use flog_fs.Inode.Keeps.{flog_find_file-Keeps, flog_inode_prepare_new-Keeps}
use flog_fs.FileWalk.Keeps.{flogfs_read_calc_file_size-Keeps}
use flog_fs.Open.{
  append_loop, unlink_loop, start_reading, link_reader, flogfs_open_read, flogfs_close_read,
  finished_blocks_loop, written_sectors_loop, open_existing, create_in, open_new, link_writer,
  flogfs_open_write, flogfs_close_write, set_next_reader, set_next_writer,
}
use flog_fs.Run.{modify}
use flog_fs.Run.Keeps.{Keeps}
use flog_fs.Alloc.Stable.{IsStable, stable_rules, flog_allocate_block-Keeps}

module _ {I : Fs → Type 0} (st : IsStable I) where
  module _ (next_of : Fs → ℕ → ℕ) (set_next : ℕ → ℕ → Fs → Fs)
      (h : (p q : ℕ) → Keeps I (modify (set_next p q))) where
    append_loop-Keeps : (k iter file : ℕ) → Keeps I (append_loop k next_of set_next iter file)
    unfolding append_loop
    append_loop-Keeps zero iter file = search stable_rules
    append_loop-Keeps (suc k) iter file = search (stable_rules, h, append_loop-Keeps k) depth 20

    unlink_loop-Keeps : (k iter file : ℕ) → Keeps I (unlink_loop k next_of set_next iter file)
    unfolding unlink_loop
    unlink_loop-Keeps zero iter file = search stable_rules
    unlink_loop-Keeps (suc k) iter file = search (stable_rules, h, unlink_loop-Keeps k) depth 20

  set_next_reader-Keeps : (p q : ℕ) → Keeps I (modify (set_next_reader p q))
  set_next_reader-Keeps p q = search stable_rules

  set_next_writer-Keeps : (p q : ℕ) → Keeps I (modify (set_next_writer p q))
  set_next_writer-Keeps p q = search stable_rules

  start_reading-Keeps : (file : ℕ) → Keeps I (start_reading file)
  unfolding start_reading
  start_reading-Keeps file = search stable_rules depth 20

  link_reader-Keeps : (file : ℕ) → Keeps I (link_reader file)
  unfolding link_reader
  link_reader-Keeps file = search (stable_rules, append_loop-Keeps, set_next_reader-Keeps) depth 20

  pub flogfs_open_read-Keeps :
      (file : ℕ) (filename : List ℕ) → Keeps I (flogfs_open_read file filename)
  unfolding flogfs_open_read
  flogfs_open_read-Keeps file filename =
      search
        (
          stable_rules, flog_find_file-Keeps, flogfs_read_calc_file_size-Keeps, start_reading-Keeps,
          link_reader-Keeps,
        )
        depth 20

  pub flogfs_close_read-Keeps : (file : ℕ) → Keeps I (flogfs_close_read file)
  unfolding flogfs_close_read
  flogfs_close_read-Keeps file =
      search (stable_rules, unlink_loop-Keeps, set_next_reader-Keeps) depth 20

  finished_blocks_loop-Keeps : (k file : ℕ) → Keeps I (finished_blocks_loop k file)
  unfolding finished_blocks_loop
  finished_blocks_loop-Keeps zero file = search file_rules
  finished_blocks_loop-Keeps (suc k) file =
      search (file_rules, finished_blocks_loop-Keeps k) depth 20

  written_sectors_loop-Keeps : (k file : ℕ) → Keeps I (written_sectors_loop k file)
  unfolding written_sectors_loop
  written_sectors_loop-Keeps zero file = search file_rules
  written_sectors_loop-Keeps (suc k) file =
      search (file_rules, written_sectors_loop-Keeps k) depth 20

  open_existing-Keeps : (file block id : ℕ) → Keeps I (open_existing file block id)
  unfolding open_existing
  open_existing-Keeps file block id =
      search (file_rules, finished_blocks_loop-Keeps, written_sectors_loop-Keeps) depth 20

  create_in-Keeps :
      (file : ℕ) (filename : List ℕ) (iter : InodeIterator) (alloc : BlockAlloc)
      → Keeps I (create_in file filename iter alloc)
  unfolding create_in
  create_in-Keeps file filename iter alloc = search file_rules depth 20

  open_new-Keeps :
      (file : ℕ) (filename : List ℕ) (iter : InodeIterator) → Keeps I (open_new file filename iter)
  unfolding open_new
  open_new-Keeps file filename iter =
      search
        (
          file_rules, flog_inode_prepare_new-Keeps, flog_flush_dirty_block-Keeps,
          flog_allocate_block-Keeps, create_in-Keeps,
        )
        depth 20

  link_writer-Keeps : (file : ℕ) → Keeps I (link_writer file)
  unfolding link_writer
  link_writer-Keeps file = search (stable_rules, append_loop-Keeps, set_next_writer-Keeps) depth 20

  pub flogfs_open_write-Keeps :
      (file : ℕ) (filename : List ℕ) → Keeps I (flogfs_open_write file filename)
  unfolding flogfs_open_write
  flogfs_open_write-Keeps file filename =
      search
        (stable_rules, flog_find_file-Keeps, open_new-Keeps, open_existing-Keeps, link_writer-Keeps)
        depth 20

  pub flogfs_close_write-Keeps : (file : ℕ) → Keeps I (flogfs_close_write file)
  unfolding flogfs_close_write
  flogfs_close_write-Keeps file =
      search (stable_rules, unlink_loop-Keeps, set_next_writer-Keeps, flog_flush_write-Keeps) depth
        20
