-- ===== src/Read/Vacant.antt =====
-- Sectors of a block that are erased and not yet part of the file, in the order in which they are
-- written, before and after the first one is committed.
use flog_fs.Base.{ℕ, zero, suc, ◌/◌, ◌^◌, ◌<◌, ◌≤◌, ◌≡◌, ◌≢◌, none, arith, List}
use flog_fs.Structs.{init_sector, tail_sector, SectorSpare}
use flog_fs.Flash.{Chip, fs_sectors_per_page}
use flog_fs.Flash.Address.{IsGeometry}
use flog_fs.Fs.{Fs, Params, WriteFile}
use flog_fs.Write.{flog_increment_sector}
use flog_fs.Write.Sector.{IsErased, Stored}
use flog_fs.Write.Elsewhere.{Stored-IsWritten, IsErased-stays}
use flog_fs.Read.Contents.{following}
use flog_fs.Read.Extended.{following-stays}

module _ (c : Chip) (params : Params) (id : ℕ) where
  -- Inside the block and erased, and nothing of the file follows.
  pub record IsVacant (block sector : ℕ) : Type 0 where
    pub no_tail : sector ≢ tail_sector
    pub no_init : sector ≢ init_sector
    pub positive : 0 < sector
    pub word : sector < 2 ^ 16
    pub page_in : sector / fs_sectors_per_page < c.pages_per_block
    pub erased : IsErased c block sector
    pub unwritten : following c params id block sector ≡ none
    pub room : flog_increment_sector params sector / fs_sectors_per_page < c.pages_per_block

  -- The next `m` sectors behind a sector are vacant.
  abbrev pub AreVacant : ℕ → (block sector : ℕ) → Type 0
  AreVacant zero block sector = Unit {0}
  AreVacant (suc m) block sector =
      let next = flog_increment_sector params sector in
      IsVacant block next × (sector < next) × AreVacant m block next

module _ (blocks : ℕ) (g : WriteFile) (new : List ℕ) (spare : SectorSpare) (from s : Fs)
    (geometry : IsGeometry from.chip.pages_per_block blocks) (block_in : g.block < blocks)
    (page_in : g.sector / fs_sectors_per_page < from.chip.pages_per_block)
    (no_tail : g.sector ≢ tail_sector) (positive : 0 < g.sector)
    (stored : Stored g new spare from s) (id : ℕ) where
  IsVacant-stays :
      (sector : ℕ)
      → g.sector < sector
      → IsVacant from.chip from.params id g.block sector
      → IsVacant s.chip from.params id g.block sector
  unfolding flog_increment_sector
  IsVacant-stays sector lt h =
      let written = Stored-IsWritten blocks g new spare from s geometry block_in page_in stored in
      record {
        no_tail = h.no_tail;
        no_init = h.no_init;
        positive = h.positive;
        word = h.word;
        page_in = rw written.pages h.page_in;
        erased =
            IsErased-stays blocks g new spare from s geometry block_in page_in stored g.block sector
              block_in h.page_in (λ same. let e = same.1 in omega arith) h.erased;
        unwritten =
            following-stays from.chip s.chip from.params id blocks g.block g.sector sector written
              h.no_tail block_in h.room
              (λ e. ground (arith, e, h.no_tail, no_tail, positive, lt, h.word)) h.unwritten;
        room = rw written.pages h.room;
      }

  pub AreVacant-stays :
      (m sector : ℕ)
      → g.sector ≤ sector
      → AreVacant from.chip from.params id m g.block sector
      → AreVacant s.chip from.params id m g.block sector
  unfolding flog_increment_sector
  AreVacant-stays zero sector le h = tt
  AreVacant-stays (suc m) sector le (h, lt, rest) = (
    IsVacant-stays (flog_increment_sector from.params sector) (omega arith) h,
    lt,
    AreVacant-stays m (flog_increment_sector from.params sector) (omega arith) rest,
  )
