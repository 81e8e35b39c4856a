-- ===== src/DiskWalk.antt =====
-- `flog_walk` of src/flogfs.c: every block, and every entry or sector of it, is shown to a callback.
-- The callback gets what it is shown and its own state; its result is not used.
pub mod Keeps
use flog_fs.Base.{ℕ, zero, suc, ◌+◌, Bool, List, [], ◌∷◌, ◌==◌, ltb, if◌then◌else◌, not, add16}
use flog_fs.Structs.{
  FlogResult, success, block_idx_invalid, init_sector, tail_sector, inode_first_entry_sector,
  block_type_inode, block_type_file, file_init_size, read_file_init, file_tail_size, read_file_tail,
  allocation_size, read_allocation, invalidation_size, read_invalidation, invalid_invalidation,
  invalid_allocation_header, invalid_sector_spare, file_id_erased, timestamp_erased,
}
use flog_fs.Flash.{flash_open_page}
use flog_fs.Fs.{
  Fs, on_chip, flog_open_sector, flog_close_sector, read_sector, read_spare_of, sectors_in_block,
  flog_block_statistics_read, invalid_block_or_older_version,
}
use flog_fs.Write.{flog_increment_sector}
use flog_fs.Run.{Cmd, pure, out_of_fuel, ◌>>=◌, ◌>>◌, fetch}

-- flogfs_walk_inode_block_state_t; `deleted` is not set for an entry that is not valid.
pub record InodeEntry : Type 0 where
  pub sector : ℕ
  pub valid : Bool
  pub file_id : ℕ
  pub file_name : List ℕ
  pub first_block : ℕ
  pub created_at : ℕ
  pub deleted : Bool
  pub deleted_at : ℕ
  pub last_block : ℕ

-- flogfs_walk_file_block_state_t
pub record FileSector : Type 0 where
  pub sector : ℕ
  pub valid : Bool
  pub file_id : ℕ
  pub size : ℕ

-- flogfs_walk_state_t, without the union
pub record BlockInfo : Type 0 where
  pub block : ℕ
  pub next_block : ℕ
  pub age : ℕ
  pub type_id : ℕ
  pub file_id : ℕ
  pub bytes_in_block : ℕ

-- What the callback is shown, by the parts of the state that are set then.
pub data Shown : Type 0 where
  invalid_block_shown : ℕ → Shown
  block_shown : BlockInfo → Shown
  entry_shown : BlockInfo → InodeEntry → Shown
  sector_shown : BlockInfo → FileSector → Shown

-- `strcpy` from a name field: the bytes before the terminator.
pub c_string : List ℕ → List ℕ
c_string [] = []
c_string (b ∷ bs) = if b == 0 then [] else b ∷ c_string bs

pub blank_entry : ℕ → Bool → InodeEntry
blank_entry sector deleted = record {
  sector = sector;
  valid = Bool.false;
  file_id = file_id_erased;
  file_name = [];
  first_block = block_idx_invalid;
  created_at = timestamp_erased;
  deleted = deleted;
  deleted_at = timestamp_erased;
  last_block = block_idx_invalid;
}

module _ {A : Type 0} (walk_fn : Shown → A → A) where
  pub entries_loop : ℕ → BlockInfo → ℕ → A → Cmd Fs A
  unfolding flog_open_sector read_allocation read_invalidation blank_entry c_string
  entries_loop zero info sector arg = pure arg
  entries_loop (suc k) info sector arg = do
    s ← fetch
    if not (ltb sector (sectors_in_block s.params)) then pure arg else do
      flog_open_sector info.block sector
      bytes ← read_sector sector 0 allocation_size
      flog_close_sector
      let entry = read_allocation bytes
      let blank = blank_entry sector (not (s.stack 1 == 0))
      if invalid_allocation_header entry.header
          then entries_loop k info (add16 sector 2) (walk_fn (entry_shown info blank) arg)
          else (do
            flog_open_sector info.block (add16 sector 1)
            mark ← read_sector (add16 sector 1) 0 invalidation_size
            flog_close_sector
            let gone = read_invalidation mark
            entries_loop k info (add16 sector 2) (
                walk_fn
                  (entry_shown info (record blank {
                    valid = Bool.true;
                    file_name = c_string entry.filename;
                    file_id = entry.header.file_id;
                    first_block = entry.header.first_block;
                    created_at = entry.header.timestamp;
                    deleted = not (invalid_invalidation gone);
                    last_block = gone.last_block;
                    deleted_at = gone.timestamp;
                  }))
                  arg))

  pub file_sectors_loop : ℕ → BlockInfo → ℕ → A → Cmd Fs A
  unfolding flog_open_sector flog_increment_sector
  file_sectors_loop zero info sector arg = λ _. out_of_fuel
  file_sectors_loop (suc k) info sector arg = do
    s ← fetch
    flog_open_sector info.block sector
    spare ← read_spare_of sector
    flog_close_sector
    let arg' =
        walk_fn
          (sector_shown info (record {
            sector = sector;
            valid = not (invalid_sector_spare spare);
            file_id = info.file_id;
            size = spare.nbytes;
          }))
          arg
    if sector == tail_sector
        then pure arg'
        else file_sectors_loop k info (flog_increment_sector s.params sector) arg'

  -- the body of the loop for a block with statistics of this version
  pub valid_block : ℕ → (age type_id : ℕ) → A → Cmd Fs A
  unfolding flog_open_sector read_file_init read_file_tail entries_loop file_sectors_loop
  valid_block block age type_id arg = do
    flog_open_sector block init_sector
    head ← read_sector init_sector 0 file_init_size
    flog_close_sector
    flog_open_sector block tail_sector
    tail ← read_sector tail_sector 0 file_tail_size
    flog_close_sector
    s ← fetch
    let info : BlockInfo = record {
      block = block;
      next_block = (read_file_tail tail).universal.next_block;
      age = age;
      type_id = type_id;
      file_id = (read_file_init head).file_id;
      bytes_in_block = (read_file_tail tail).bytes_in_block;
    }
    let arg' = walk_fn (block_shown info) arg
    if type_id == block_type_inode
        then entries_loop (sectors_in_block s.params) info inode_first_entry_sector arg'
        else if type_id == block_type_file
        then file_sectors_loop (sectors_in_block s.params) info init_sector arg'
        else pure arg'

  pub blocks_loop : ℕ → ℕ → A → Cmd Fs A
  unfolding valid_block flog_block_statistics_read
  blocks_loop zero block arg = pure arg
  blocks_loop (suc k) block arg = do
    on_chip (flash_open_page block 0)
    h ← flog_block_statistics_read block
    spare ← read_spare_of init_sector
    s ← fetch
    arg' ←
        if invalid_block_or_older_version s.version h
        then pure (walk_fn (invalid_block_shown block) arg)
        else valid_block block h.age spare.type_id arg
    blocks_loop k (block + 1) arg'

  unfoldable pub flog_walk : A → Cmd Fs (FlogResult × A)
  unfolding blocks_loop
  flog_walk arg = do
    s ← fetch
    arg' ← blocks_loop s.params.number_of_blocks 0 arg
    pure (success, arg')
