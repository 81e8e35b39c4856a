-- ===== src/Fs.antt =====
-- The state of the file system, `flogfs_t` of src/flogfs.c, with the flash below it and the files
-- that applications hand over, and the access to pages, sectors and block statistics.
-- A pointer to a file is a number, NULL is 0. The locks are empty functions in the backend modelled
-- here, and are left out. `stack` gives the bytes of locals that the code does not initialise.
-- `open_bound` is no field of the program: a bound on the number of open files, which is the bound
-- on the rounds of a walk along the list of open files.
pub mod Cache
pub mod Untouched
pub mod Returns
pub mod Listed
use flog_fs.Base.{
  ℕ, ◌+◌, ◌*◌, ◌/◌, ◌%◌, ◌^◌, Bool, true, false, List, ◌==◌, if◌then◌else◌, not, ◌&&◌, ◌||◌,
}
use flog_fs.Bytes.{Mem, decode}
use flog_fs.Structs.{
  FlogResult, failure, success, FlogState, succeeded, BlockStatistics, statistics_bytes,
  read_statistics, statistics_size, statistics_sector, init_sector, tail_sector, SectorSpare,
  read_spare, invalid_block, invalid_block_index, block_idx_invalid, block_type_error,
}
use flog_fs.Flash.{
  Chip, fs_sectors_per_page, flash_open_page, flash_read_sector, flash_read_spare,
  flash_write_sector, flash_commit,
}
use flog_fs.Prealloc.{Prealloc, block_remove_pending}
use flog_fs.Run.{Run, Cmd, pure, ◌>>=◌, ◌>>◌, fetch, modify, assert, lift}

-- flog_read_file_t
pub record ReadFile : Type 0 where
  pub read_head : ℕ
  pub first_block : ℕ
  pub block : ℕ
  pub sector : ℕ
  pub offset : ℕ
  pub sector_remaining_bytes : ℕ
  pub file_size : ℕ
  pub id : ℕ
  pub next : ℕ

-- flog_write_file_t; `base_threshold` is left out, since the allocator does not use it.
pub record WriteFile : Type 0 where
  pub file_size : ℕ
  pub block : ℕ
  pub sector : ℕ
  pub offset : ℕ
  pub sector_remaining_bytes : ℕ
  pub bytes_in_block : ℕ
  pub block_age : ℕ
  pub id : ℕ
  pub sector_buffer : Mem
  pub next : ℕ

-- flog_initialize_params_t
pub record Params : Type 0 where
  pub number_of_blocks : ℕ
  pub pages_per_block : ℕ

pub record CacheStatus : Type 0 where
  pub current_open_block : ℕ
  pub current_open_page : ℕ
  pub page_open : Bool
  pub page_open_result : FlogResult

-- flog_dirty_block_t
pub record DirtyBlock : Type 0 where
  pub block : ℕ
  pub file : ℕ

pub record Fs : Type 0 where
  pub chip : Chip
  pub read_files : ℕ → ReadFile
  pub write_files : ℕ → WriteFile
  pub read_head : ℕ
  pub write_head : ℕ
  pub max_file_id : ℕ
  pub state : FlogState
  pub prealloc : Prealloc
  pub t : ℕ
  pub version : ℕ
  pub inode0 : ℕ
  pub cache_status : CacheStatus
  pub dirty_block : DirtyBlock
  pub allocate_head : ℕ
  pub params : Params
  pub stack : ℕ → ℕ
  pub open_bound : ℕ

abbrev pub null : ℕ
null = 0

abbrev pub clean : DirtyBlock
clean = record { block = block_idx_invalid; file = null }

abbrev pub on_chip : {A : Type 0} → Cmd Chip A → Cmd Fs A
on_chip m s = lift (λ (t : Fs) c. record t { chip = c }) (m s.chip) s

abbrev pub on_prealloc : {A : Type 0} → Cmd Prealloc A → Cmd Fs A
on_prealloc m s = lift (λ (t : Fs) p. record t { prealloc = p }) (m s.prealloc) s

-- Two uninitialised bytes of a local, as the integer that they hold.
abbrev pub junk16 : Fs → ℕ → ℕ
junk16 s k = s.stack k % 2 ^ 16

abbrev pub sectors_in_block : Params → ℕ
sectors_in_block p = p.pages_per_block * fs_sectors_per_page

abbrev pub set_cache : ℕ → ℕ → FlogResult → Fs → Fs
set_cache block page result s = record s {
  cache_status = record {
    current_open_block = block;
    current_open_page = page;
    page_open = true;
    page_open_result = result;
  };
}

abbrev pub is_cached : CacheStatus → ℕ → ℕ → Bool
is_cached c block page =
    c.page_open && (c.current_open_block == block && c.current_open_page == page)

unfoldable pub flog_open_page : ℕ → ℕ → Cmd Fs FlogResult
unfolding flash_open_page block_remove_pending
flog_open_page block page s =
    if is_cached s.cache_status block page
    then pure s.cache_status.page_open_result s
    else (do
      result ← on_chip (flash_open_page block page)
      modify (set_cache block page result)
      on_prealloc (block_remove_pending block)
      pure result)
        s

unfoldable pub flog_open_sector : ℕ → ℕ → Cmd Fs FlogResult
unfolding flog_open_page
flog_open_sector block sector = flog_open_page block (sector / fs_sectors_per_page)

unfoldable pub flog_close_sector : Cmd Fs (Unit {0})
flog_close_sector =
    modify (λ s. record s { cache_status = record s.cache_status { page_open = false } })

-- `flash_read_sector` into a struct of `n` bytes
abbrev pub read_sector : (sector offset n : ℕ) → Cmd Fs (List ℕ)
read_sector sector offset n = on_chip (flash_read_sector sector offset n)

abbrev pub read_spare_of : ℕ → Cmd Fs SectorSpare
read_spare_of sector = do bytes ← on_chip (flash_read_spare sector); pure (read_spare bytes)

unfoldable pub flog_universal_get_next_block : ℕ → Cmd Fs ℕ
unfolding flog_open_sector decode
flog_universal_get_next_block block = if block == block_idx_invalid then pure block else do
  flog_open_sector block tail_sector
  bytes ← read_sector tail_sector 0 2
  if invalid_block_index (decode bytes) then pure block_idx_invalid else pure (decode bytes)

unfoldable pub flog_block_statistics_write : ℕ → BlockStatistics → Cmd Fs (Unit {0})
unfolding flog_open_sector statistics_bytes
flog_block_statistics_write block statistics = do
  assert (not (statistics.version == 0))
  flog_open_sector block statistics_sector
  on_chip (flash_write_sector (statistics_bytes statistics) statistics_sector 0)
  on_chip flash_commit

unfoldable pub flog_block_statistics_read : ℕ → Cmd Fs BlockStatistics
unfolding flog_open_sector read_statistics
flog_block_statistics_read block = do
  flog_open_sector block statistics_sector
  bytes ← read_sector statistics_sector 0 statistics_size
  pure (read_statistics bytes)

abbrev pub invalid_block_or_older_version : ℕ → BlockStatistics → Bool
invalid_block_or_older_version version h = not (h.version == version) || invalid_block h

unfoldable pub flog_get_block_type : ℕ → Cmd Fs ℕ
unfolding flog_open_sector
flog_get_block_type block = do
  opened ← flog_open_sector block init_sector
  if succeeded opened
      then (do spare ← read_spare_of init_sector; pure spare.type_id)
      else pure block_type_error
