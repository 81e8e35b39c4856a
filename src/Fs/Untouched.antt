-- ===== src/Fs/Untouched.antt =====
-- What depends on the dirty block and the files that are open for writing only, and so is kept by all
-- that works on the flash, the cache and the preallocation list.
use flog_fs.Base.{ℕ, Bool-cases, inl, inr}
use flog_fs.Structs.{FlogResult, BlockStatistics}
use flog_fs.Flash.{Chip, flash_open_page}
use flog_fs.Prealloc.{Prealloc, block_remove_pending}
use flog_fs.Fs.{
  Fs, WriteFile, DirtyBlock, on_chip, on_prealloc, set_cache, is_cached, flog_open_page,
  flog_open_sector, flog_close_sector, flog_block_statistics_read, flog_block_statistics_write,
}
use flog_fs.Run.{Cmd, pure, ◌>>=◌, ◌>>◌, modify}
use flog_fs.Run.Keeps.{holds, Keeps, Holds-lift, keeps_rules}

abbrev pub On : (DirtyBlock → (ℕ → WriteFile) → Type 0) → Fs → Type 0
On P s = P s.dirty_block s.write_files

module _ (P : DirtyBlock → (ℕ → WriteFile) → Type 0) where
  pub on_chip-On : {A : Type 0} (m : Cmd Chip A) → Keeps (On P) (on_chip m)
  on_chip-On m = record {
    at = λ s h. Holds-lift (λ (t : Fs) c. record t { chip = c }) s (m s.chip) (λ _. h);
  }

  pub on_prealloc-On : {A : Type 0} (m : Cmd Prealloc A) → Keeps (On P) (on_prealloc m)
  on_prealloc-On m = record {
    at = λ s h. Holds-lift (λ (t : Fs) p. record t { prealloc = p }) s (m s.prealloc) (λ _. h);
  }

  set_cache-On :
      (block page : ℕ) (result : FlogResult) → Keeps (On P) (modify (set_cache block page result))
  set_cache-On block page result = record { at = λ s h. holds h }

  pub flog_close_sector-On : Keeps (On P) flog_close_sector
  unfolding flog_close_sector
  flog_close_sector-On = record { at = λ s h. holds h }

  -- the branch of `flog_open_page` that calls the driver
  uncached-On :
      (block page : ℕ)
      → Keeps (On P) (
          on_chip (flash_open_page block page) >>= λ result.
          modify (set_cache block page result)
          >> (on_prealloc (block_remove_pending block) >> pure result))
  uncached-On block page = search (keeps_rules, on_chip-On, on_prealloc-On, set_cache-On) depth 20

  flog_open_page-On : (block page : ℕ) → Keeps (On P) (flog_open_page block page)
  unfolding flog_open_page
  flog_open_page-On block page = record {
    at = λ s h. elim (Bool-cases (is_cached s.cache_status block page)) [
      | inl e ↦ rw e (holds h)
      | inr e ↦ rw e ((uncached-On block page).at s h)
    ];
  }

  pub flog_open_sector-On : (block sector : ℕ) → Keeps (On P) (flog_open_sector block sector)
  unfolding flog_open_sector
  flog_open_sector-On block sector = flog_open_page-On block _

  pub flog_block_statistics_read-On : (block : ℕ) → Keeps (On P) (flog_block_statistics_read block)
  unfolding flog_block_statistics_read
  flog_block_statistics_read-On block =
      search (keeps_rules, on_chip-On, flog_open_sector-On) depth 20

  pub flog_block_statistics_write-On :
      (block : ℕ) (h : BlockStatistics) → Keeps (On P) (flog_block_statistics_write block h)
  unfolding flog_block_statistics_write
  flog_block_statistics_write-On block h =
      search (keeps_rules, on_chip-On, flog_open_sector-On) depth 20
