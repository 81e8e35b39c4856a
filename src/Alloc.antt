-- ===== src/Alloc.antt =====
-- The block allocator of src/flogfs.c: priming the preallocation list, and taking a block from it.
pub mod Coherent
pub mod Stable
pub mod Untouched
pub mod Pool
pub mod Held
pub mod Listed
use flog_fs.Base.{ℕ, zero, suc, ◌-◌, ◌%◌, ◌^◌, none, ◌==◌, if◌then◌else◌, not}
use flog_fs.Structs.{
  FlogResult, failure, success, succeeded, BlockStatistics, init_sector, block_idx_invalid,
  block_age_invalid, block_type_unallocated, block_statistics_key, SectorSpare,
}
use flog_fs.Flash.{
  flash_random, flash_open_page, flash_block_is_bad, flash_erase_block, flash_commit,
}
use flog_fs.Prealloc.{
  BlockAlloc, flog_prealloc_contains, flog_prealloc_push, flog_prealloc_pop, flog_prealloc_is_empty,
  flog_prealloc_is_full,
}
use flog_fs.Fs.{
  Fs, on_chip, on_prealloc, read_spare_of, flog_close_sector, flog_block_statistics_read,
  flog_block_statistics_write, invalid_block_or_older_version,
}
use flog_fs.Run.{Cmd, pure, ◌>>=◌, ◌>>◌, fetch}

-- What is written into a block that holds no statistics of this version.
abbrev pub fresh_statistics : ℕ → BlockStatistics → BlockStatistics
fresh_statistics version h = record h {
  age = 0;
  next_block = block_idx_invalid;
  next_age = block_age_invalid;
  timestamp = 0;
  version = version;
  key = block_statistics_key;
}

-- The branch of a round for such a block: erase it, write statistics, and list it.
pub prime_invalid : ℕ → BlockStatistics → Cmd Fs FlogResult
unfolding flog_block_statistics_write flog_prealloc_push
prime_invalid block h = do
  s ← fetch
  erased ← on_chip (flash_erase_block block)
  if not (succeeded erased) then pure failure else do
    flog_block_statistics_write block (fresh_statistics s.version h)
    on_chip flash_commit
    on_prealloc (flog_prealloc_push block 0)
    pure success

-- The branch for a block with statistics: it is listed if it is not allocated.
pub prime_valid : ℕ → BlockStatistics → SectorSpare → Cmd Fs FlogResult
unfolding flog_prealloc_push
prime_valid block h spare =
    if spare.type_id == block_type_unallocated
    then (do on_prealloc (flog_prealloc_push block h.age); pure success)
    else pure success

-- The part of a round for a block that is not listed: open it, and look at what it holds.
pub prime_candidate : ℕ → Cmd Fs FlogResult
unfolding prime_invalid prime_valid flog_block_statistics_read
prime_candidate block = do
  s ← fetch
  opened ← on_chip (flash_open_page block 0)
  if not (succeeded opened) then pure success else do
    bad ← on_chip flash_block_is_bad
    if succeeded bad then pure success else do
      h ← flog_block_statistics_read block
      spare ← read_spare_of init_sector
      flog_close_sector
      if invalid_block_or_older_version s.version h
          then prime_invalid block h
          else prime_valid block h spare

-- One round of the loop; `failure` is the early return, `success` goes on.
pub prime_round : Cmd Fs FlogResult
unfolding prime_candidate flog_prealloc_contains
prime_round = do
  s ← fetch
  drawn ← on_chip (flash_random s.params.number_of_blocks)
  let block = drawn % 2 ^ 16
  if block == 0 then pure success else do
    found ← on_prealloc (flog_prealloc_contains block)
    if found then pure success else prime_candidate block

-- A round and the rest of the loop, if the list is not full.
pub prime_step : Cmd Fs FlogResult → Cmd Fs FlogResult
unfolding prime_round
prime_step rest = do
  s ← fetch
  if flog_prealloc_is_full s.prealloc
      then pure success
      else do went_on ← prime_round; if succeeded went_on then rest else pure failure

pub prime_loop : ℕ → Cmd Fs FlogResult
unfolding prime_step
prime_loop zero = pure success
prime_loop (suc k) = prime_step (prime_loop k)

-- `tries` starts at 64 and is decremented before it is tested. The check that the list has become
-- non-empty only prints: the function returns success all the same.
unfoldable pub flog_prealloc_prime : Cmd Fs FlogResult
unfolding prime_loop
flog_prealloc_prime = prime_loop (64 - 1)

-- where the last available block has been taken
pub refill_if_empty : Cmd Fs (Unit {0})
unfolding flog_prealloc_prime
refill_if_empty = do
  s ← fetch
  if flog_prealloc_is_empty s.prealloc then (do flog_prealloc_prime; pure tt) else pure tt

pub allocate_loop : ℕ → BlockAlloc → Cmd Fs BlockAlloc
unfolding flog_prealloc_pop refill_if_empty
allocate_loop zero last = pure last
allocate_loop (suc i) last = do
  block ← on_prealloc flog_prealloc_pop
  refill_if_empty
  if not (block.block == block_idx_invalid) then pure block else allocate_loop i block

-- The age is uninitialised where no block is returned.
unfoldable pub flog_allocate_block : Cmd Fs BlockAlloc
unfolding allocate_loop
flog_allocate_block = do
  s ← fetch
  let nothing : BlockAlloc = record { block = block_idx_invalid; age = s.stack 0; next = none }
  if flog_prealloc_is_empty s.prealloc
      then pure nothing
      else allocate_loop (s.params.number_of_blocks % 2 ^ 16) nothing
