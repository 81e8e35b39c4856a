-- ===== src/Mount.antt =====
-- Initialising, formatting and mounting, src/flogfs.c.
pub mod Keeps
pub mod Coherent
pub mod Pool
use flog_fs.Base.{ℕ, zero, suc, ◌+◌, ◌-◌, Bool, ◌==◌, ltb, if◌then◌else◌, not, ◌&&◌, add32}
use flog_fs.Structs.{
  FlogResult, failure, success, succeeded, reset, mounted, is_mounted, block_idx_invalid,
  block_age_invalid, fs_first_block, BlockStatistics, block_statistics_key, invalid_block,
  init_sector, inode_init_bytes, spare_bytes, block_type_inode, allocation_header_size,
  read_allocation_header, invalid_allocation_header,
}
use flog_fs.Flash.{
  flash_erase_block, flash_block_is_bad, flash_open_page, flash_write_sector, flash_write_spare,
  flash_commit,
}
use flog_fs.Prealloc.{flog_prealloc_initialize}
use flog_fs.Fs.{
  Fs, Params, null, clean, on_chip, on_prealloc, junk16, flog_open_page, flog_open_sector,
  flog_close_sector, read_sector, read_spare_of, flog_block_statistics_read,
  flog_block_statistics_write, invalid_block_or_older_version,
}
use flog_fs.Alloc.{flog_prealloc_prime}
use flog_fs.Inode.{
  InodeIterator, flog_inode_iterator_initialize, flog_inode_iterator_next, table_bound,
}
use flog_fs.Run.{Cmd, pure, out_of_fuel, ◌>>=◌, ◌>>◌, fetch, modify, assert}

-- FS_INODE0_MAX_BLOCK
abbrev pub inode0_max_block : ℕ
inode0_max_block = 32

unfoldable pub flogfs_initialize : Params → Cmd Fs FlogResult
flogfs_initialize params = do
  modify (λ s. record s {
    state = reset;
    cache_status = record s.cache_status { page_open = Bool.false };
    version = 31337;
    dirty_block = clean;
    params = params;
  })
  pure success

-- The first loop of `flogfs_format`, over the blocks from `block` on.
pub erase_loop : ℕ → ℕ → Cmd Fs FlogResult
unfolding flog_open_page
erase_loop zero block = pure success
erase_loop (suc k) block = do
  flog_open_page block 0
  erased ← on_chip (flash_erase_block block)
  if succeeded erased then erase_loop k (block + 1) else pure failure

-- New statistics of a block that is formatted, and the version that they carry.
pub format_statistics : ℕ → BlockStatistics → BlockStatistics
format_statistics version h =
    let cleared : BlockStatistics = record h {
      next_block = block_idx_invalid;
      next_age = block_age_invalid;
      timestamp = 0;
    } in
    if invalid_block h
    then record cleared { age = 0; key = block_statistics_key; version = version }
    else record cleared { version = add32 h.version 1 }

-- The second loop: the first block that is not bad gets its statistics, and the loop ends. The
-- result is that block, `block_idx_invalid` if there is none.
pub first_valid_loop : ℕ → ℕ → Cmd Fs (FlogResult × ℕ)
unfolding flog_open_page flog_block_statistics_read flog_block_statistics_write format_statistics
first_valid_loop zero block = pure (success, block_idx_invalid)
first_valid_loop (suc k) block = do
  flog_open_page block 0
  bad ← on_chip flash_block_is_bad
  if succeeded bad then first_valid_loop k (block + 1) else do
    h ← flog_block_statistics_read block
    flog_close_sector
    s ← fetch
    let new = format_statistics s.version h
    modify (λ s. record s { version = if invalid_block h then s.version else new.version })
    erased ← on_chip (flash_erase_block block)
    if not (succeeded erased)
        then pure (failure, block)
        else do flog_block_statistics_write block new; on_chip flash_commit; pure (success, block)

-- The first inode block; the spare shares a union with the header.
pub write_first_inode : ℕ → Cmd Fs (Unit {0})
unfolding flog_open_sector inode_init_bytes spare_bytes
write_first_inode block = do
  flog_open_sector block init_sector
  s ← fetch
  on_chip (
      flash_write_sector
        (inode_init_bytes
          (record { timestamp = 0; previous = block_idx_invalid; padding = junk16 s 1 }))
        init_sector 0)
  on_chip (
      flash_write_spare
        (spare_bytes (record { type_id = block_type_inode; nothing = 0; nbytes = 0 })) init_sector)
  on_chip flash_commit

unfoldable pub flogfs_format : Cmd Fs FlogResult
unfolding erase_loop first_valid_loop write_first_inode
flogfs_format = do
  modify (λ s. record s { state = reset })
  s ← fetch
  let rounds = s.params.number_of_blocks - fs_first_block
  erased ← erase_loop rounds fs_first_block
  if not (succeeded erased) then pure failure else do
    (done, first_valid) ← first_valid_loop rounds fs_first_block
    if not (succeeded done) then pure failure else do
      assert (not (first_valid == block_idx_invalid))
      write_first_inode first_valid
      pure success

pub find_inode0_loop : ℕ → ℕ → Cmd Fs ℕ
unfolding flog_block_statistics_read
find_inode0_loop zero block = pure block_idx_invalid
find_inode0_loop (suc k) block = do
  opened ← on_chip (flash_open_page block 0)
  if not (succeeded opened) then find_inode0_loop k (block + 1) else do
    bad ← on_chip flash_block_is_bad
    if succeeded bad then find_inode0_loop k (block + 1) else do
      h ← flog_block_statistics_read block
      spare ← read_spare_of init_sector
      flog_close_sector
      s ← fetch
      if not (invalid_block_or_older_version s.version h)
            && (spare.type_id == block_type_inode && spare.nbytes == 0)
          then pure block
          else find_inode0_loop k (block + 1)

unfoldable pub flogfs_find_first_inode : Cmd Fs ℕ
unfolding find_inode0_loop
flogfs_find_first_inode = find_inode0_loop (inode0_max_block - fs_first_block) fs_first_block

pub inspect_loop : ℕ → InodeIterator → Cmd Fs FlogResult
unfolding flog_open_sector read_allocation_header flog_inode_iterator_next
inspect_loop zero iter = λ _. out_of_fuel
inspect_loop (suc k) iter = do
  flog_open_sector iter.block iter.sector
  bytes ← read_sector iter.sector 0 allocation_header_size
  let entry = read_allocation_header bytes
  if invalid_allocation_header entry then pure success else do
    modify (λ s. record s {
      max_file_id = if ltb s.max_file_id entry.file_id then entry.file_id else s.max_file_id;
    })
    following ← flog_inode_iterator_next iter
    inspect_loop k following

unfoldable pub flogfs_inspect : Cmd Fs FlogResult
unfolding inspect_loop flog_inode_iterator_initialize
flogfs_inspect = do
  s ← fetch
  iter ← flog_inode_iterator_initialize s.inode0
  inspect_loop (table_bound s.params) iter

-- the fields that mounting resets
pub fresh_mount : Fs → Fs
fresh_mount s = record s {
  allocate_head = 0;
  max_file_id = 0;
  cache_status = record {
    current_open_block = 0;
    current_open_page = 0;
    page_open = Bool.false;
    page_open_result = failure;
  };
  read_head = null;
  write_head = null;
  dirty_block = clean;
}

-- the last part of mounting: an empty preallocation list is primed
pub mount_primed : Cmd Fs FlogResult
unfolding flog_prealloc_initialize flog_prealloc_prime
mount_primed = do
  on_prealloc flog_prealloc_initialize
  primed ← flog_prealloc_prime
  if not (succeeded primed)
      then pure failure
      else do modify (λ s. record s { state = mounted }); pure success

-- the search for the inode table and the largest file number in it
pub mount_table : Cmd Fs FlogResult
unfolding flogfs_find_first_inode flogfs_inspect
mount_table = do
  inode0 ← flogfs_find_first_inode
  modify (λ s. record s { inode0 = inode0 })
  if inode0 == block_idx_invalid then pure failure else flogfs_inspect

unfoldable pub flogfs_mount : Cmd Fs FlogResult
unfolding fresh_mount mount_table mount_primed
flogfs_mount = do
  s ← fetch
  if is_mounted s.state then pure success else do
    modify fresh_mount
    inspected ← mount_table
    if not (succeeded inspected) then pure failure else mount_primed

-- Both checks of `flogfs_fsck` are still to be written.
unfoldable pub flogfs_fsck : Cmd Fs FlogResult
flogfs_fsck = do s ← fetch; assert (is_mounted s.state); pure success
