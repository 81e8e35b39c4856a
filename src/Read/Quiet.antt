-- ===== src/Read/Quiet.antt =====
-- Opening a sector and reading from it, for `flogfs_read` of src/flogfs.c: the flash and the file that
-- is read stay.
use flog_fs.Base.{ℕ, ◌/◌, ◌≡◌, ◌∙◌, refl, List}
use flog_fs.Flash.{
  Chip, fs_sectors_per_page, mapped_sector_ptr, flash_read_sector, flash_read_spare,
}
use flog_fs.Prealloc.Queue.{IsPrealloc}
use flog_fs.Fs.{Fs, Params, ReadFile, flog_open_sector, read_sector, read_spare_of}
use flog_fs.Fs.Cache.{IsCoherent}
use flog_fs.Fs.Returns.{flog_open_page_lem}
use flog_fs.Read.Contents.{bytes_of, spare_of}
use flog_fs.Run.Returns
use flog_fs.Run.Returns.{Returns, returns}

-- The flash is that of `c`, and pages can be opened.
pub record IsQuiet (c : Chip) (params : Params) (s : Fs) : Type 0 where
  pub memory : s.chip.mapped ≡ c.mapped
  pub pages : s.chip.pages_per_block ≡ c.pages_per_block
  pub configured : s.params ≡ params
  pub coherent : IsCoherent s
  pub lists :
      (free : List ℕ) × (avs : List ℕ) × (pending : List ℕ) × IsPrealloc s.prealloc free avs pending

-- In addition, the page of a sector is open.
pub record IsOpenAt (c : Chip) (params : Params) (readers : ℕ → ReadFile) (block sector : ℕ)
    (s : Fs) : Type 0 where
  pub quiet : IsQuiet c params s
  pub block_open : s.chip.open_block ≡ block
  pub page_open : s.chip.open_page ≡ sector / fs_sectors_per_page
  pub same : s.read_files ≡ readers

module _ (c : Chip) (params : Params) where
  pub flog_open_sector-IsOpenAt :
      (block sector : ℕ) (s : Fs)
      → IsQuiet c params s
      → Returns
          (λ _ t. IsOpenAt c params s.read_files block sector t)
          (flog_open_sector block sector s)
  unfolding flog_open_sector
  flog_open_sector-IsOpenAt block sector s q =
      let (free, avs, pending, v) = q.lists in
      Returns.mono
        (flog_open_page_lem block (sector / fs_sectors_per_page) s free avs pending v q.coherent)
        (λ _ t o. record {
          quiet = record {
            memory = o.memory ∙ q.memory;
            pages = o.pages ∙ q.pages;
            configured = o.params ∙ q.configured;
            coherent = o.at.coherent;
            lists = (o.lists.0, avs, o.lists.1, o.lists.2);
          };
          block_open = o.at.block_open;
          page_open = o.at.page_open;
          same = o.readers;
        })

  module _ (readers : ℕ → ReadFile) (block sector : ℕ) (s : Fs)
      (o : IsOpenAt c params readers block sector s) where
    pub read_sector-IsOpenAt :
        (offset n : ℕ)
        → Returns
            (λ bytes t.
              (bytes ≡ bytes_of c block sector offset n) × IsOpenAt c params readers block sector t)
            (read_sector sector offset n s)
    unfolding flash_read_sector mapped_sector_ptr
    read_sector-IsOpenAt offset n =
        returns (rw (o.quiet.memory, o.quiet.pages, o.block_open, o.page_open) refl, o)

    pub read_spare_of-IsOpenAt :
        Returns
          (λ spare t. (spare ≡ spare_of c block sector) × IsOpenAt c params readers block sector t)
          (read_spare_of sector s)
    unfolding flash_read_spare mapped_sector_ptr
    read_spare_of-IsOpenAt =
        returns (rw (o.quiet.memory, o.quiet.pages, o.block_open, o.page_open) refl, o)
