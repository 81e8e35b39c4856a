-- ===== src/Alloc/Stable.antt =====
-- Invariants of the whole file system. Its functions reach the chip, the page cache and the allocator
-- through a few primitives: what these keep, every function that is built from them keeps.
use flog_fs.Base.{ℕ, ◌/◌, ◌≡◌, refl}
use flog_fs.Structs.{reset, BlockStatistics}
use flog_fs.Flash.{Chip, fs_sectors_per_page}
use flog_fs.Fs.{
  Fs, on_chip, flog_open_page, flog_open_sector, flog_close_sector, flog_block_statistics_read,
  flog_block_statistics_write,
}
use flog_fs.Fs.Cache.{
  KeepsPage, flash_write_sector-KeepsPage, flash_write_spare-KeepsPage, flash_erase_block-KeepsPage,
  flash_read_sector-KeepsPage, flash_read_spare-KeepsPage, flash_block_is_bad-KeepsPage,
  flash_commit-KeepsPage, flash_random-KeepsPage,
}
use flog_fs.Alloc.{flog_prealloc_prime, flog_allocate_block}
use flog_fs.Run.{Cmd, modify}
use flog_fs.Run.Keeps.{Holds, Holds-and_then, Keeps, keeps_rules}

-- The state in which the driver has opened the first page of a block, not the cache.
abbrev pub opened_behind : ℕ → Fs → Fs
opened_behind block s = record s { chip = record s.chip { open_block = block; open_page = 0 } }

-- A change of the fields that no invariant of this kind looks at.
pub record IsMinor (f : Fs → Fs) : Type 0 where
  pub chip : (s : Fs) → (f s).chip ≡ s.chip
  pub cache : (s : Fs) → (f s).cache_status ≡ s.cache_status
  pub prealloc : (s : Fs) → (f s).prealloc ≡ s.prealloc
  pub params : (s : Fs) → (f s).params ≡ s.params
  pub state : (s : Fs) → (f s).state ≡ s.state

pub record IsStable (I : Fs → Type 0) : Type 1 where
  pub chip : {A : Type 0} (m : Cmd Chip A) → KeepsPage m → Keeps I (on_chip m)
  pub minor : (f : Fs → Fs) → IsMinor f → Keeps I (modify f)
  pub resetting : Keeps I (modify (λ s. record s { state = reset }))
  pub open_page : (block page : ℕ) → Keeps I (flog_open_page block page)
  pub close_sector : Keeps I flog_close_sector
  pub behind :
      (block : ℕ) (s : Fs)
      → I s
      → Holds I (flog_block_statistics_read block (opened_behind block s))
  pub prime : Keeps I flog_prealloc_prime
  pub allocate : Keeps I flog_allocate_block

pub is_minor :
    (f : Fs → Fs)
    → ((s : Fs) → (f s).chip ≡ s.chip)
    → ((s : Fs) → (f s).cache_status ≡ s.cache_status)
    → ((s : Fs) → (f s).prealloc ≡ s.prealloc)
    → ((s : Fs) → (f s).params ≡ s.params)
    → ((s : Fs) → (f s).state ≡ s.state)
    → IsMinor f
is_minor f a b c d e = record { chip = a; cache = b; prealloc = c; params = d; state = e }

module _ {I : Fs → Type 0} (st : IsStable I) where
  pub on_chip-Keeps : {A : Type 0} (m : Cmd Chip A) → KeepsPage m → Keeps I (on_chip m)
  on_chip-Keeps m = st.chip m

  pub modify-Keeps : (f : Fs → Fs) → IsMinor f → Keeps I (modify f)
  modify-Keeps f = st.minor f

  pub reset-Keeps : Keeps I (modify (λ s. record s { state = reset }))
  reset-Keeps = st.resetting

  pub flog_open_page-Keeps : (block page : ℕ) → Keeps I (flog_open_page block page)
  flog_open_page-Keeps block page = st.open_page block page

  pub flog_open_sector-Keeps : (block sector : ℕ) → Keeps I (flog_open_sector block sector)
  unfolding flog_open_sector
  flog_open_sector-Keeps block sector = st.open_page block (sector / fs_sectors_per_page)

  pub flog_close_sector-Keeps : Keeps I flog_close_sector
  flog_close_sector-Keeps = st.close_sector

  pub flog_prealloc_prime-Keeps : Keeps I flog_prealloc_prime
  flog_prealloc_prime-Keeps = st.prime

  pub flog_allocate_block-Keeps : Keeps I flog_allocate_block
  flog_allocate_block-Keeps = st.allocate

-- The rules by which a function of the file system keeps an invariant.
pub ruleset stable_rules = (
  keeps_rules, refl, is_minor, on_chip-Keeps, modify-Keeps, reset-Keeps, flog_open_page-Keeps,
  flog_open_sector-Keeps, flog_close_sector-Keeps, flog_prealloc_prime-Keeps,
  flog_allocate_block-Keeps, flash_write_sector-KeepsPage, flash_write_spare-KeepsPage,
  flash_erase_block-KeepsPage, flash_read_sector-KeepsPage, flash_read_spare-KeepsPage,
  flash_block_is_bad-KeepsPage, flash_commit-KeepsPage, flash_random-KeepsPage,
)

module _ {I : Fs → Type 0} (st : IsStable I) where
  pub flog_block_statistics_read-Keeps : (block : ℕ) → Keeps I (flog_block_statistics_read block)
  unfolding flog_block_statistics_read
  flog_block_statistics_read-Keeps block = search stable_rules depth 20

  pub flog_block_statistics_write-Keeps :
      (block : ℕ) (h : BlockStatistics) → Keeps I (flog_block_statistics_write block h)
  unfolding flog_block_statistics_write
  flog_block_statistics_write-Keeps block h = search stable_rules depth 20
