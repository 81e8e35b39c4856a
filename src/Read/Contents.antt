-- ===== src/Read/Contents.antt =====
-- The sectors that `flogfs_read` of src/flogfs.c comes to, one after the other, by the headers and spare
-- areas on the flash, and their data as the code counts it: of an empty first sector of a block, and the
-- sector behind it, there is none.
use flog_fs.Base.{
  ℕ, zero, suc, ◌+◌, ◌/◌, ◌<◌, ◌≤◌, ◌≡◌, Option, none, some, List, [], ◌++◌, ◌==◌, if◌then◌else◌,
  not,
}
use flog_fs.Structs.{
  init_sector, tail_sector, file_init_size, read_file_init, file_tail_size, read_file_tail,
  SectorSpare, read_spare, invalid_sector_spare,
}
use flog_fs.Flash.{Chip, fs_sector_size, fs_sectors_per_page}
use flog_fs.Flash.Access.{sector_at, spare_at}
use flog_fs.Fs.{Params}
use flog_fs.Write.{flog_increment_sector}
use flog_fs.Read.{data_offset}

-- A sector and the number of bytes of data in it.
pub record Position : Type 0 where
  pub block : ℕ
  pub sector : ℕ
  pub nbytes : ℕ

module _ (c : Chip) where
  abbrev pub bytes_of : (block sector offset n : ℕ) → List ℕ
  bytes_of block sector offset n = sector_at c block (sector / fs_sectors_per_page) sector offset n

  abbrev pub spare_of : (block sector : ℕ) → SectorSpare
  spare_of block sector = read_spare (spare_at c block (sector / fs_sectors_per_page) sector)

  -- the data of a sector
  abbrev pub data_of : Position → List ℕ
  data_of p = bytes_of p.block p.sector (data_offset p.sector) p.nbytes

  module _ (params : Params) (id : ℕ) where
    -- Behind the last sector of a block, unless the next block is not of this file.
    unfoldable pub next_block_position : ℕ → Option Position
    unfolding read_file_tail read_file_init flog_increment_sector
    next_block_position block =
        let next =
          (read_file_tail (bytes_of block tail_sector 0 file_tail_size)).universal.next_block in
        let nbytes = (spare_of next init_sector).nbytes in
        if not ((read_file_init (bytes_of next init_sector 0 file_init_size)).file_id == id)
        then none
        else some (record {
          block = next;
          sector = if nbytes == 0 then flog_increment_sector params init_sector else init_sector;
          nbytes = nbytes;
        })

    -- Inside a block, unless the next sector is not written.
    unfoldable pub next_sector_position : (block sector : ℕ) → Option Position
    unfolding flog_increment_sector
    next_sector_position block sector =
        let next = flog_increment_sector params sector in
        if invalid_sector_spare (spare_of block next)
        then none
        else some (record { block = block; sector = next; nbytes = (spare_of block next).nbytes })

    unfoldable pub following : (block sector : ℕ) → Option Position
    unfolding next_block_position next_sector_position
    following block sector =
        if sector == tail_sector
        then next_block_position block
        else next_sector_position block sector

    -- the data of at most `k` sectors behind a sector
    unfoldable pub behind : ℕ → (block sector : ℕ) → List ℕ
    unfolding following
    behind zero block sector = []
    behind (suc k) block sector = elim (following block sector) [
      | none ↦ []
      | some p ↦ data_of p ++ behind k p.block p.sector
    ]

    module _ (blocks : ℕ) where
      -- The data lie in the sector, and the sector in the chip.
      pub record IsPlaced (p : Position) : Type 0 where
        pub block_in : p.block < blocks
        pub page_in : p.sector / fs_sectors_per_page < c.pages_per_block
        pub fits : data_offset p.sector + p.nbytes ≤ fs_sector_size

      -- At most `k` sectors follow, and their data lie in them.
      abbrev pub IsReadable : ℕ → (block sector : ℕ) → Type 0
      IsReadable zero block sector = following block sector ≡ none
      IsReadable (suc k) block sector = elim (following block sector) [
        | none ↦ Unit {0}
        | some p ↦ IsPlaced p × IsReadable k p.block p.sector
      ]
