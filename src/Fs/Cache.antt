-- ===== src/Fs/Cache.antt =====
-- The page cache: whenever it is marked open, the page that it names is the one open in the chip, so
-- that the test of `flog_open_page` may skip the chip.
use flog_fs.Base.{
  ℕ, ◌/◌, ◌≡◌, refl, Bool, true, false, Bool-cases, inl, inr, arith, List, length, ◌%◌,
}
use flog_fs.Structs.{success, erase_char}
use flog_fs.Bytes.{all_equal}
use flog_fs.Flash.{
  Chip, flash_open_page, flash_block_is_bad, flash_erase_block, flash_commit, verified_memcpy,
  flash_read_sector, flash_read_spare, flash_write_sector, flash_write_spare, flash_random,
  mapped_sector_ptr, spare_offset, fs_sectors_per_page,
}
use flog_fs.Prealloc.{Prealloc, block_remove_pending}
use flog_fs.Fs.{
  Fs, on_chip, on_prealloc, is_cached, flog_open_page, flog_open_sector, flog_close_sector,
  flog_block_statistics_read,
}
use flog_fs.Run.{Run, ok, panic, out_of_fuel, Cmd, lift, modify}
use flog_fs.Run.Keeps.{
  Holds, holds, stopped, spent, Keeps, Holds-lift, Holds-and_then, Holds-mono, Keeps-pure,
  keeps_rules,
}

pub record IsCoherent (s : Fs) : Type 0 where
  pub block :
      s.cache_status.page_open ≡ true → s.chip.open_block ≡ s.cache_status.current_open_block
  pub page : s.cache_status.page_open ≡ true → s.chip.open_page ≡ s.cache_status.current_open_page
  pub result : s.cache_status.page_open ≡ true → s.cache_status.page_open_result ≡ success

-- A command that leaves the chip's page open.
pub record KeepsPage {A : Type 0} (m : Cmd Chip A) : Type 0 where
  pub at :
      (c : Chip) → Holds (λ d. (d.open_block ≡ c.open_block) × (d.open_page ≡ c.open_page)) (m c)

pub KeepsPage-IsCoherent :
    {A : Type 0} (m : Cmd Chip A) → KeepsPage m → Keeps IsCoherent (on_chip m)
KeepsPage-IsCoherent {A} m same = record { at = λ s h. go s h (m s.chip) (same.at s.chip) }
  where
    go :
        (s : Fs)
        → IsCoherent s
        → (r : Run Chip A)
        → Holds (λ d. (d.open_block ≡ s.chip.open_block) × (d.open_page ≡ s.chip.open_page)) r
        → Holds IsCoherent (lift (λ (t : Fs) c. record t { chip = c }) r s)
    go s h (ok a c) (holds e) = holds (record {
      block = λ p. ground (arith, h.block p);
      page = λ p. ground (arith, h.page p);
      result = h.result;
    })
    go s h panic stopped = stopped
    go s h out_of_fuel spent = spent

-- The operations of the driver but `flash_open_page`.
pub verified_memcpy-KeepsPage : (dst : ℕ) (src : List ℕ) → KeepsPage (verified_memcpy dst src)
unfolding verified_memcpy
verified_memcpy-KeepsPage dst src = record {
  at = λ c. elim (Bool-cases (all_equal erase_char c.mapped dst (length src))) [
    | inl e ↦ rw e (holds (refl, refl))
    | inr e ↦ rw e stopped
  ];
}

pub flash_write_sector-KeepsPage : (src : List ℕ) (s o : ℕ) → KeepsPage (flash_write_sector src s o)
unfolding flash_write_sector
flash_write_sector-KeepsPage src s o = record {
  at = λ c. (verified_memcpy-KeepsPage (mapped_sector_ptr c (s % fs_sectors_per_page) o) src).at c;
}

pub flash_write_spare-KeepsPage : (src : List ℕ) (s : ℕ) → KeepsPage (flash_write_spare src s)
unfolding flash_write_spare
flash_write_spare-KeepsPage src s = record {
  at = λ c. (verified_memcpy-KeepsPage (mapped_sector_ptr c 0 (spare_offset s)) src).at c;
}

pub flash_erase_block-KeepsPage : (block : ℕ) → KeepsPage (flash_erase_block block)
unfolding flash_erase_block
flash_erase_block-KeepsPage block = record { at = λ c. holds (refl, refl) }

pub flash_read_sector-KeepsPage : (s o n : ℕ) → KeepsPage (flash_read_sector s o n)
unfolding flash_read_sector
flash_read_sector-KeepsPage s o n = record { at = λ c. holds (refl, refl) }

pub flash_read_spare-KeepsPage : (s : ℕ) → KeepsPage (flash_read_spare s)
unfolding flash_read_spare
flash_read_spare-KeepsPage s = record { at = λ c. holds (refl, refl) }

pub flash_block_is_bad-KeepsPage : KeepsPage flash_block_is_bad
unfolding flash_block_is_bad
flash_block_is_bad-KeepsPage = record { at = λ c. holds (refl, refl) }

pub flash_commit-KeepsPage : KeepsPage flash_commit
unfolding flash_commit
flash_commit-KeepsPage = record { at = λ c. holds (refl, refl) }

pub flash_random-KeepsPage : (max : ℕ) → KeepsPage (flash_random max)
unfolding flash_random
flash_random-KeepsPage max = record { at = λ c. holds (refl, refl) }

pub on_prealloc-IsCoherent : {A : Type 0} (m : Cmd Prealloc A) → Keeps IsCoherent (on_prealloc m)
on_prealloc-IsCoherent m = record {
  at = λ s h.
      Holds-lift (λ (t : Fs) p. record t { prealloc = p }) s (m s.prealloc)
        (λ p. record { block = h.block; page = h.page; result = h.result });
}

pub flog_close_sector-IsCoherent : Keeps IsCoherent flog_close_sector
unfolding flog_close_sector
flog_close_sector-IsCoherent = record { at = λ s h. holds (ground arith) }

-- A page that has been opened is open: in the chip, and in the cache.
pub record IsAt (block page : ℕ) (s : Fs) : Type 0 where
  pub coherent : IsCoherent s
  pub block_open : s.chip.open_block ≡ block
  pub page_open : s.chip.open_page ≡ page

on_prealloc-IsAt :
    {A : Type 0} (block page : ℕ) (m : Cmd Prealloc A) → Keeps (IsAt block page) (on_prealloc m)
on_prealloc-IsAt block page m = record {
  at = λ s h.
      Holds-lift (λ (t : Fs) p. record t { prealloc = p }) s (m s.prealloc)
        (λ p. record {
          coherent = record {
            block = h.coherent.block;
            page = h.coherent.page;
            result = h.coherent.result;
          };
          block_open = h.block_open;
          page_open = h.page_open;
        });
}

open_uncached :
    (block page : ℕ) (s : Fs)
    → is_cached s.cache_status block page ≡ false
    → Holds (IsAt block page) (flog_open_page block page s)
unfolding flog_open_page flash_open_page
open_uncached block page s e = rw e (
    Holds-and_then
      ((on_prealloc-IsAt block page (block_remove_pending block)).at _ (record {
        coherent = record { block = λ _. refl; page = λ _. refl; result = λ _. refl };
        block_open = refl;
        page_open = refl;
      }))
      (λ _. Keeps-pure success))

pub open_cached :
    (block page : ℕ) (s : Fs)
    → is_cached s.cache_status block page ≡ true
    → flog_open_page block page s ≡ ok s.cache_status.page_open_result s
unfolding flog_open_page
open_cached block page s e = rw e

-- Whatever page was open before, `flog_open_page` leaves the one that it is asked for open in the
-- chip, also where it does not call the driver.
pub flog_open_page-IsAt :
    (block page : ℕ) (s : Fs) → IsCoherent s → Holds (IsAt block page) (flog_open_page block page s)
flog_open_page-IsAt block page s h = elim (Bool-cases (is_cached s.cache_status block page)) [
  | inl e ↦ rw (open_cached block page s e) (
      holds (record {
        coherent = h;
        block_open = ground (arith, h.block);
        page_open = ground (arith, h.page);
      }))
  | inr e ↦ open_uncached block page s e
]

pub flog_open_page-IsCoherent : (block page : ℕ) → Keeps IsCoherent (flog_open_page block page)
flog_open_page-IsCoherent block page = record {
  at = λ s h.
      Holds-mono (λ s' (a : IsAt block page s'). a.coherent) (flog_open_page-IsAt block page s h);
}

pub flog_open_sector-IsCoherent :
    (block sector : ℕ) → Keeps IsCoherent (flog_open_sector block sector)
unfolding flog_open_sector
flog_open_sector-IsCoherent block sector =
    flog_open_page-IsCoherent block (sector / fs_sectors_per_page)

-- A change of other fields.
pub modify-IsCoherent :
    (f : Fs → Fs)
    → ((s : Fs) → (f s).chip ≡ s.chip)
    → ((s : Fs) → (f s).cache_status ≡ s.cache_status)
    → Keeps IsCoherent (modify f)
modify-IsCoherent f same_chip same_cache = record {
  at = λ s h. holds (record {
    block = rw (same_chip s, same_cache s) h.block;
    page = rw (same_chip s, same_cache s) h.page;
    result = rw (same_cache s) h.result;
  });
}

pub ruleset chip_rules = (
  KeepsPage-IsCoherent, flash_write_sector-KeepsPage, flash_write_spare-KeepsPage,
  flash_erase_block-KeepsPage, flash_read_sector-KeepsPage, flash_read_spare-KeepsPage,
  flash_block_is_bad-KeepsPage, flash_commit-KeepsPage, flash_random-KeepsPage,
)

-- The rules by which a block of the file system is coherent.
pub ruleset coherent_rules = (
  keeps_rules, refl, modify-IsCoherent, chip_rules, on_prealloc-IsCoherent,
  flog_close_sector-IsCoherent, flog_open_page-IsCoherent, flog_open_sector-IsCoherent,
)

pub flog_block_statistics_read-IsCoherent :
    (block : ℕ) → Keeps IsCoherent (flog_block_statistics_read block)
unfolding flog_block_statistics_read
flog_block_statistics_read-IsCoherent block = search coherent_rules

-- The driver has been told to open the first page of a block behind the cache's back.
pub record IsBehind (block : ℕ) (s : Fs) : Type 0 where
  pub block_open : s.chip.open_block ≡ block
  pub page_open : s.chip.open_page ≡ 0
  pub result : s.cache_status.page_open ≡ true → s.cache_status.page_open_result ≡ success

open_page-IsBehind :
    (block : ℕ) (s : Fs) → IsBehind block s → Holds IsCoherent (flog_open_page block 0 s)
open_page-IsBehind block s h = elim (Bool-cases (is_cached s.cache_status block 0)) [
  | inl e ↦
      rw (open_cached block 0 s e)
        (holds (record { block = λ p. ground arith; page = λ p. ground arith; result = h.result }))
  | inr e ↦ Holds-mono (λ s' (a : IsAt block 0 s'). a.coherent) (open_uncached block 0 s e)
]

-- Reading the statistics of that block makes the cache coherent again.
pub flog_block_statistics_read-IsBehind :
    (block : ℕ) (s : Fs) → IsBehind block s → Holds IsCoherent (flog_block_statistics_read block s)
unfolding flog_block_statistics_read flog_open_sector
flog_block_statistics_read-IsBehind block s h =
    Holds-and_then (open_page-IsBehind block s h) (λ _. search coherent_rules)
