-- ===== src/Fs/Listed.antt =====
-- The access to pages, sectors and block statistics ends where the preallocation lists are well
-- formed, and keeps them well formed.
use flog_fs.Base.{ℕ, Bool-cases, inl, inr, List, length}
use flog_fs.Bytes.{all_equal}
use flog_fs.Structs.{FlogResult, BlockStatistics, erase_char}
use flog_fs.Flash.{
  Chip, flash_open_page, flash_block_is_bad, flash_erase_block, flash_commit, verified_memcpy,
  flash_read_sector, flash_read_spare, flash_write_sector, flash_write_spare, flash_random,
}
use flog_fs.Prealloc.{Prealloc, block_remove_pending}
use flog_fs.Prealloc.Listed.{IsListed, block_remove_pending-IsListed}
use flog_fs.Fs.{
  Fs, WriteFile, DirtyBlock, on_chip, on_prealloc, is_cached, set_cache, flog_open_page,
  flog_open_sector, flog_close_sector, flog_block_statistics_read, flog_block_statistics_write,
}
use flog_fs.Run.{Cmd, modify, pure, ◌>>=◌, ◌>>◌}
use flog_fs.Run.Ends
use flog_fs.Run.Ends.{Ends, ends, failed, Lasts, lasts_rules}

-- A command of the driver that has no rounds to run out of.
pub record IsPrompt {A : Type 0} (m : Cmd Chip A) : Type 0 where
  pub at : (c : Chip) → Ends (λ _ _. Unit {0}) (m c)

pub flash_open_page-IsPrompt : (block page : ℕ) → IsPrompt (flash_open_page block page)
unfolding flash_open_page
flash_open_page-IsPrompt block page = record { at = λ c. ends tt }

pub flash_block_is_bad-IsPrompt : IsPrompt flash_block_is_bad
unfolding flash_block_is_bad
flash_block_is_bad-IsPrompt = record { at = λ c. ends tt }

pub flash_erase_block-IsPrompt : (block : ℕ) → IsPrompt (flash_erase_block block)
unfolding flash_erase_block
flash_erase_block-IsPrompt block = record { at = λ c. ends tt }

pub flash_commit-IsPrompt : IsPrompt flash_commit
unfolding flash_commit
flash_commit-IsPrompt = record { at = λ c. ends tt }

pub flash_random-IsPrompt : (max : ℕ) → IsPrompt (flash_random max)
unfolding flash_random
flash_random-IsPrompt max = record { at = λ c. ends tt }

pub flash_read_sector-IsPrompt : (s o n : ℕ) → IsPrompt (flash_read_sector s o n)
unfolding flash_read_sector
flash_read_sector-IsPrompt s o n = record { at = λ c. ends tt }

pub flash_read_spare-IsPrompt : (s : ℕ) → IsPrompt (flash_read_spare s)
unfolding flash_read_spare
flash_read_spare-IsPrompt s = record { at = λ c. ends tt }

verified_memcpy-IsPrompt : (dst : ℕ) (src : List ℕ) → IsPrompt (verified_memcpy dst src)
unfolding verified_memcpy
verified_memcpy-IsPrompt dst src = record {
  at = λ c. elim (Bool-cases (all_equal erase_char c.mapped dst (length src))) [
    | inl e ↦ rw e (ends tt)
    | inr e ↦ rw e failed
  ];
}

pub flash_write_sector-IsPrompt : (src : List ℕ) (s o : ℕ) → IsPrompt (flash_write_sector src s o)
unfolding flash_write_sector
flash_write_sector-IsPrompt src s o = record { at = λ c. (verified_memcpy-IsPrompt _ src).at c }

pub flash_write_spare-IsPrompt : (src : List ℕ) (s : ℕ) → IsPrompt (flash_write_spare src s)
unfolding flash_write_spare
flash_write_spare-IsPrompt src s = record { at = λ c. (verified_memcpy-IsPrompt _ src).at c }

-- The lists are well formed, and `W` holds of the dirty block and the files open for writing.
abbrev pub Listed : (DirtyBlock → (ℕ → WriteFile) → Type 0) → Fs → Type 0
Listed W s = IsListed s.prealloc × W s.dirty_block s.write_files

module _ (W : DirtyBlock → (ℕ → WriteFile) → Type 0) where
  pub on_chip-Listed : {A : Type 0} (m : Cmd Chip A) → IsPrompt m → Lasts (Listed W) (on_chip m)
  on_chip-Listed m prompt = record {
    at = λ s h. Ends.lifted (λ (t : Fs) c. record t { chip = c }) s (prompt.at s.chip) (λ _ _ _. h);
  }

  pub on_prealloc-Listed :
      {A : Type 0} (m : Cmd Prealloc A) → Lasts IsListed m → Lasts (Listed W) (on_prealloc m)
  on_prealloc-Listed m lasts = record {
    at = λ s h.
        Ends.lifted (λ (t : Fs) p. record t { prealloc = p }) s (lasts.at s.prealloc h.0)
          (λ _ p v. (v, h.1));
  }

  set_cache-Listed :
      (block page : ℕ) (result : FlogResult)
      → Lasts (Listed W) (modify (set_cache block page result))
  set_cache-Listed block page result = record { at = λ s h. ends h }

  pub flog_close_sector-Listed : Lasts (Listed W) flog_close_sector
  unfolding flog_close_sector
  flog_close_sector-Listed = record { at = λ s h. ends h }

  uncached-Listed :
      (block page : ℕ)
      → Lasts (Listed W) (
          on_chip (flash_open_page block page) >>= λ result.
          modify (set_cache block page result)
          >> (on_prealloc (block_remove_pending block) >> pure result))
  uncached-Listed block page =
      search
        (
          lasts_rules, on_chip-Listed, flash_open_page-IsPrompt, on_prealloc-Listed,
          block_remove_pending-IsListed, set_cache-Listed,
        )
        depth 20

  pub flog_open_page-Listed : (block page : ℕ) → Lasts (Listed W) (flog_open_page block page)
  unfolding flog_open_page
  flog_open_page-Listed block page = record {
    at = λ s h. elim (Bool-cases (is_cached s.cache_status block page)) [
      | inl e ↦ rw e (ends h)
      | inr e ↦ rw e ((uncached-Listed block page).at s h)
    ];
  }

  pub flog_open_sector-Listed :
      (block sector : ℕ) → Lasts (Listed W) (flog_open_sector block sector)
  unfolding flog_open_sector
  flog_open_sector-Listed block sector = flog_open_page-Listed block _

pub ruleset listed_rules = (
  lasts_rules, on_chip-Listed, on_prealloc-Listed, flog_close_sector-Listed, flog_open_page-Listed,
  flog_open_sector-Listed, flash_open_page-IsPrompt, flash_block_is_bad-IsPrompt,
  flash_erase_block-IsPrompt, flash_commit-IsPrompt, flash_random-IsPrompt,
  flash_read_sector-IsPrompt, flash_read_spare-IsPrompt, flash_write_sector-IsPrompt,
  flash_write_spare-IsPrompt,
)

module _ (W : DirtyBlock → (ℕ → WriteFile) → Type 0) where
  pub flog_block_statistics_read-Listed :
      (block : ℕ) → Lasts (Listed W) (flog_block_statistics_read block)
  unfolding flog_block_statistics_read
  flog_block_statistics_read-Listed block = search listed_rules depth 20

  pub flog_block_statistics_write-Listed :
      (block : ℕ) (h : BlockStatistics) → Lasts (Listed W) (flog_block_statistics_write block h)
  unfolding flog_block_statistics_write
  flog_block_statistics_write-Listed block h = search listed_rules depth 20
