-- ===== src/Remove.antt =====
-- Removing a file and listing the inode table, src/flogfs.c.
pub mod Keeps
use flog_fs.Base.{
  ℕ, zero, suc, ◌+◌, ◌%◌, ◌^◌, List, [], ◌++◌, ◌∷◌, ◌==◌, if◌then◌else◌, not, take, add16, add32,
  ◌-◌, Option, none, some,
}
use flog_fs.Structs.{
  FlogResult, failure, success, block_idx_invalid, block_type_unallocated, block_type_file,
  init_sector, tail_sector, file_init_size, read_file_init, file_tail_size, read_file_tail,
  is_file_init_header_for_file, invalidation_bytes, invalidation_size, read_invalidation,
  allocation_header_size, read_allocation_header, max_fname_len, invalid_invalidation,
  invalid_allocation_header, FileTailHeader, FileInitHeader,
}
use flog_fs.Flash.{flash_erase_block, flash_write_sector, flash_commit}
use flog_fs.Fs.{
  Fs, on_chip, flog_open_sector, flog_close_sector, read_sector, flog_universal_get_next_block,
  flog_block_statistics_read, flog_block_statistics_write, flog_get_block_type, junk16,
}
use flog_fs.Inode.{
  InodeIterator, flog_find_file, flog_inode_iterator_initialize, flog_inode_iterator_next,
  table_bound,
}
use flog_fs.Run.{Cmd, pure, panic, out_of_fuel, ◌>>=◌, ◌>>◌, fetch, modify}

-- The statistics that `flog_invalidate_chain` leaves in an erased block: the key is uninitialised.
pub erase_file_block : ℕ → FileInitHeader → FileTailHeader → Cmd Fs (Unit {0})
unfolding flog_block_statistics_write
erase_file_block block init tail = do
  modify (λ s. record s { t = add32 s.t 1 })
  flog_close_sector
  s ← fetch
  on_chip (flash_erase_block block)
  flog_block_statistics_write block (record {
    age = init.age;
    timestamp = s.t;
    next_block = tail.universal.next_block;
    padding = junk16 s 1;
    next_age = tail.universal.next_age;
    version = s.version;
    key = s.stack 2 % 2 ^ 48;
    tail_padding = junk16 s 3;
  })

-- One block of the chain; the result is the next one.
pub invalidate_block : ℕ → ℕ → Cmd Fs ℕ
unfolding flog_open_sector read_file_init read_file_tail erase_file_block
invalidate_block block file_id = do
  flog_open_sector block init_sector
  head ← read_sector init_sector 0 file_init_size
  let init = read_file_init head
  if not (is_file_init_header_for_file init file_id) then (λ _. panic) else do
    flog_open_sector block tail_sector
    bytes ← read_sector tail_sector 0 file_tail_size
    erase_file_block block init (read_file_tail bytes)
    pure (read_file_tail bytes).universal.next_block

pub invalidate_loop : ℕ → ℕ → ℕ → Cmd Fs (Unit {0})
unfolding flog_get_block_type flog_block_statistics_read invalidate_block
invalidate_loop zero block file_id = λ _. out_of_fuel
invalidate_loop (suc k) block file_id = if block == block_idx_invalid then pure tt else do
  type_id ← flog_get_block_type block
  if type_id == block_type_unallocated
      then (do flog_block_statistics_read block; pure tt)
      else if type_id == block_type_file
      then (do next ← invalidate_block block file_id; invalidate_loop k next file_id)
      else (λ _. panic)

-- Each round but the last erases a block of the chain.
unfoldable pub flog_invalidate_chain : ℕ → ℕ → Cmd Fs (Unit {0})
unfolding invalidate_loop
flog_invalidate_chain base file_id = do
  s ← fetch
  invalidate_loop (s.params.number_of_blocks + 1) base file_id

pub last_block_loop : ℕ → ℕ → Cmd Fs ℕ
unfolding flog_universal_get_next_block
last_block_loop zero block = λ _. out_of_fuel
last_block_loop (suc k) block = do
  next ← flog_universal_get_next_block block
  if next == block_idx_invalid then pure block else last_block_loop k next

unfoldable pub flogfs_rm : List ℕ → Cmd Fs FlogResult
unfolding flog_find_file last_block_loop flog_open_sector invalidation_bytes flog_invalidate_chain
flogfs_rm filename = do
  (found, iter) ← flog_find_file filename
  if found.first_block == block_idx_invalid then pure failure else do
    s ← fetch
    last ← last_block_loop (s.params.number_of_blocks + 1) found.first_block
    modify (λ s. record s { t = add32 s.t 1 })
    flog_open_sector iter.block (add16 iter.sector 1)
    s ← fetch
    on_chip (
        flash_write_sector
          (invalidation_bytes (record { timestamp = s.t; last_block = last; padding = junk16 s 1 }))
          (add16 iter.sector 1) 0)
    on_chip flash_commit
    flog_invalidate_chain found.first_block found.file_id
    pure success

unfoldable pub flogfs_start_ls : Cmd Fs InodeIterator
unfolding flog_inode_iterator_initialize
flogfs_start_ls = do s ← fetch; flog_inode_iterator_initialize s.inode0

pub ls_loop : ℕ → InodeIterator → Cmd Fs (Option (List ℕ) × InodeIterator)
unfolding flog_open_sector read_allocation_header read_invalidation flog_inode_iterator_next
ls_loop zero iter = λ _. out_of_fuel
ls_loop (suc k) iter = do
  flog_open_sector iter.block iter.sector
  bytes ← read_sector iter.sector 0 allocation_header_size
  if invalid_allocation_header (read_allocation_header bytes) then pure (none, iter) else do
    flog_open_sector iter.block (add16 iter.sector 1)
    mark ← read_sector (add16 iter.sector 1) 0 invalidation_size
    if not (invalid_invalidation (read_invalidation mark))
        then (do following ← flog_inode_iterator_next iter; ls_loop k following)
        else (do
          flog_open_sector iter.block iter.sector
          name ← read_sector iter.sector allocation_header_size max_fname_len
          following ← flog_inode_iterator_next iter
          pure (some (take (max_fname_len - 1) name ++ (0 ∷ [])), following))

-- The name of the next file that is not deleted; `none` is the end of the table.
unfoldable pub flogfs_ls_iterate : InodeIterator → Cmd Fs (Option (List ℕ) × InodeIterator)
unfolding ls_loop
flogfs_ls_iterate iter = do s ← fetch; ls_loop (table_bound s.params) iter
