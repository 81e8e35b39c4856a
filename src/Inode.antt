-- ===== src/Inode.antt =====
-- The inode table of src/flogfs.c: the iterator over its entries, claiming an entry, and the search
-- for a file by name. The iterator's `previous_block` is never used and is left out.
pub mod Keeps
use flog_fs.Base.{
  ℕ, zero, suc, ◌*◌, ◌-◌, ◌/◌, ◌%◌, ◌^◌, Bool, true, false, List, ◌==◌, leb, if◌then◌else◌, not,
  get_or, drop, add16, add32,
}
use flog_fs.Bytes.{decode}
use flog_fs.Structs.{
  FlogResult, failure, success, block_idx_invalid, init_sector, tail_sector,
  inode_first_entry_sector, universal_tail_size, universal_tail_bytes, read_universal_tail,
  inode_init_bytes, spare_bytes, block_type_inode, timestamp_erased, max_fname_len, allocation_size,
  read_allocation, invalid_allocation_header,
}
use flog_fs.Flash.{flash_write_sector, flash_write_spare, flash_commit}
use flog_fs.Prealloc.{BlockAlloc}
use flog_fs.Fs.{
  Fs, Params, on_chip, flog_open_sector, read_sector, read_spare_of, sectors_in_block, junk16,
  flog_universal_get_next_block,
}
use flog_fs.Alloc.{flog_allocate_block}
use flog_fs.Write.{flog_flush_dirty_block}
use flog_fs.Run.{Cmd, pure, out_of_fuel, ◌>>=◌, ◌>>◌, fetch, modify, assert}

-- flog_inode_iterator_t
pub record InodeIterator : Type 0 where
  pub block : ℕ
  pub next_block : ℕ
  pub inode_idx : ℕ
  pub inode_block_idx : ℕ
  pub sector : ℕ

-- flog_file_find_result_t
pub record FindResult : Type 0 where
  pub file_id : ℕ
  pub first_block : ℕ

unfoldable pub flog_inode_iterator_initialize : ℕ → Cmd Fs InodeIterator
unfolding flog_open_sector read_universal_tail
flog_inode_iterator_initialize inode0 = do
  flog_open_sector inode0 tail_sector
  tail ← read_sector tail_sector 0 universal_tail_size
  flog_open_sector inode0 init_sector
  spare ← read_spare_of init_sector
  pure (record {
    block = inode0;
    next_block = (read_universal_tail tail).next_block;
    inode_idx = 0;
    inode_block_idx = spare.nbytes;
    sector = inode_first_entry_sector;
  })

-- Past the end of a block the iterator goes on in the next one, which must exist.
unfoldable pub flog_inode_iterator_next : InodeIterator → Cmd Fs InodeIterator
unfolding flog_universal_get_next_block
flog_inode_iterator_next iter = do
  s ← fetch
  let moved : InodeIterator = record iter {
    sector = add16 iter.sector 2;
    inode_idx = add16 iter.inode_idx 1;
  }
  if not (leb (sectors_in_block s.params) moved.sector) then pure moved else do
    assert (not (moved.next_block == block_idx_invalid))
    following ← flog_universal_get_next_block moved.next_block
    pure (record moved {
      block = moved.next_block;
      next_block = following;
      sector = inode_first_entry_sector;
    })

-- The two blocks are linked: the tail of the old one, and the first sector of the new one. The
-- structs share a union, so that `previous` gets the bytes of `next_age`.
pub link_inode_block : InodeIterator → BlockAlloc → Cmd Fs InodeIterator
unfolding flog_open_sector universal_tail_bytes inode_init_bytes spare_bytes
link_inode_block iter alloc = do
  flog_open_sector iter.block tail_sector
  modify (λ s. record s { t = add32 s.t 1 })
  s ← fetch
  let next_age = add32 alloc.age 1
  on_chip (
      flash_write_sector
        (universal_tail_bytes (record {
          next_block = alloc.block;
          padding = junk16 s 1;
          next_age = next_age;
          timestamp = s.t;
        }))
        tail_sector 0)
  on_chip flash_commit
  flog_open_sector alloc.block init_sector
  on_chip (
      flash_write_sector
        (inode_init_bytes
          (record { timestamp = s.t; previous = next_age % 2 ^ 16; padding = next_age / 2 ^ 16 }))
        init_sector 0)
  let index = add16 iter.inode_block_idx 1
  on_chip (
      flash_write_spare
        (spare_bytes (record { type_id = block_type_inode; nothing = 0; nbytes = index }))
        init_sector)
  on_chip flash_commit
  pure (record iter { inode_block_idx = index; next_block = alloc.block })

unfoldable pub flog_inode_prepare_new : InodeIterator → Cmd Fs (FlogResult × InodeIterator)
unfolding link_inode_block flog_flush_dirty_block flog_allocate_block
flog_inode_prepare_new iter = do
  s ← fetch
  if not (iter.sector == sectors_in_block s.params - 2) then pure (success, iter) else do
    flog_flush_dirty_block
    alloc ← flog_allocate_block
    if alloc.block == block_idx_invalid
        then pure (failure, iter)
        else do linked ← link_inode_block iter alloc; pure (success, linked)

-- Whether `strncmp(a, b, n)` is 0. Behind the bytes of a list stands a terminator.
unfoldable pub strncmp_equal : ℕ → List ℕ → List ℕ → Bool
strncmp_equal zero a b = true
strncmp_equal (suc n) a b =
    let rest = strncmp_equal n (drop 1 a) (drop 1 b) in
    if get_or a 0 0 == get_or b 0 0 then (if get_or a 0 0 == 0 then true else rest) else false

-- A rounds bound for the walks over the inode table: its entries are at most the sectors.
abbrev pub table_bound : Params → ℕ
table_bound p = p.number_of_blocks * sectors_in_block p

pub find_loop : ℕ → List ℕ → InodeIterator → Cmd Fs (FindResult × InodeIterator)
unfolding flog_open_sector read_allocation decode strncmp_equal flog_inode_iterator_next
find_loop zero filename iter = λ _. out_of_fuel
find_loop (suc k) filename iter = do
  flog_open_sector iter.block iter.sector
  bytes ← read_sector iter.sector 0 allocation_size
  s ← fetch
  let entry = (read_allocation bytes).header
  let none_found : FindResult = record { file_id = s.stack 1; first_block = block_idx_invalid }
  let go_on : Cmd Fs (FindResult × InodeIterator) = do
    following ← flog_inode_iterator_next iter
    find_loop k filename following
  if invalid_allocation_header entry
      then pure (none_found, iter)
      else if not (strncmp_equal max_fname_len filename (read_allocation bytes).filename)
      then go_on
      else do
        flog_open_sector iter.block (add16 iter.sector 1)
        stamp ← read_sector (add16 iter.sector 1) 0 4
        if not (decode stamp == timestamp_erased)
            then go_on
            else pure (record { file_id = entry.file_id; first_block = entry.first_block }, iter)

unfoldable pub flog_find_file : List ℕ → Cmd Fs (FindResult × InodeIterator)
unfolding find_loop flog_inode_iterator_initialize
flog_find_file filename = do
  s ← fetch
  iter ← flog_inode_iterator_initialize s.inode0
  find_loop (table_bound s.params) filename iter

unfoldable pub flogfs_check_exists : List ℕ → Cmd Fs FlogResult
unfolding flog_find_file
flogfs_check_exists filename = do
  (found, iter) ← flog_find_file filename
  pure (if found.first_block == block_idx_invalid then failure else success)
