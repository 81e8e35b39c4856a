-- ===== src/Alloc/Pool.antt =====
-- The allocator keeps the pool of blocks: priming lists blocks of the device that are not in it, and
-- allocating hands out blocks that stay in it until a page of them is opened.
use flog_fs.Base.{
  ℕ, zero, suc, [], ◌∷◌, ◌++◌, Bool, if◌then◌else◌, ◌+◌, ◌%◌, ◌^◌, ◌<◌, ◌≡◌, refl, true, false,
  Bool-cases, ◌⊎◌, inl, inr, ◌==◌, arith,
}
use flog_fs.Structs.{FlogResult, success, FlogState, BlockStatistics}
use flog_fs.Flash.{Chip, flash_open_page, flash_random}
use flog_fs.Prealloc.{
  Prealloc, BlockAlloc, block_remove_pending, flog_prealloc_contains, flog_prealloc_push,
  flog_prealloc_pop,
}
use flog_fs.Prealloc.Without.{erase_entry}
use flog_fs.Prealloc.Pool.{
  Entries, IsPool, block_remove_pending-IsPool, flog_prealloc_push-IsPool, flog_prealloc_pop-IsPool,
  flog_prealloc_contains-same,
}
use flog_fs.Fs.{
  Fs, on_chip, on_prealloc, is_cached, set_cache, flog_open_page, flog_open_sector,
  flog_close_sector, flog_block_statistics_read, flog_block_statistics_write,
}
use flog_fs.Alloc.{
  prime_invalid, prime_valid, prime_candidate, prime_round, prime_step, prime_loop,
  flog_prealloc_prime, allocate_loop, flog_allocate_block,
}
use flog_fs.Run.{Run, ok, panic, out_of_fuel, Cmd, and_then, lift, modify, pure, ◌>>=◌, ◌>>◌}
use flog_fs.Run.Keeps.{Holds, holds, stopped, spent, Keeps, Holds-lift, keeps_rules}

-- The device has `n` blocks, and the lists are a pool, unless `R` holds of the state.
pub record Pooled (n : ℕ) (Q : Entries → Type 0) (R : FlogState → Type 0) (s : Fs) : Type 0 where
  pub size : s.params.number_of_blocks ≡ n
  pub pool : R s.state ⊎ IsPool n Q s.prealloc

module _ (n : ℕ) (Q : Entries → Type 0) (R : FlogState → Type 0) where
  pub on_chip-Pooled : {A : Type 0} (m : Cmd Chip A) → Keeps (Pooled n Q R) (on_chip m)
  on_chip-Pooled m = record {
    at = λ s h.
        Holds-lift (λ (t : Fs) c. record t { chip = c }) s (m s.chip)
          (λ _. record { size = h.size; pool = h.pool });
  }

  pub on_prealloc-Pooled :
      {A : Type 0} (m : Cmd Prealloc A)
      → Keeps (IsPool n Q) m
      → Keeps (Pooled n Q R) (on_prealloc m)
  on_prealloc-Pooled {A} m keep = record {
    at = λ s h. elim (h.pool) [
      | inl r ↦
          Holds-lift (λ (t : Fs) p. record t { prealloc = p }) s (m s.prealloc)
            (λ _. record { size = h.size; pool = inl r })
      | inr v ↦ lifted s h.size (m s.prealloc) (keep.at s.prealloc v)
    ];
  }
    where
      lifted :
          (s : Fs)
          → s.params.number_of_blocks ≡ n
          → (r : Run Prealloc A) → Holds (IsPool n Q) r
          → Holds (Pooled n Q R) (lift (λ (t : Fs) p. record t { prealloc = p }) r s)
      lifted s size (ok a p) (holds v) = holds (record { size = size; pool = inr v })
      lifted s size panic stopped = stopped
      lifted s size out_of_fuel spent = spent

  -- A change of other fields.
  pub modify-Pooled :
      (f : Fs → Fs)
      → ((s : Fs) → (f s).prealloc ≡ s.prealloc)
      → ((s : Fs) → (f s).params ≡ s.params)
      → ((s : Fs) → (f s).state ≡ s.state)
      → Keeps (Pooled n Q R) (modify f)
  modify-Pooled f lists params state = record {
    at = λ s h. holds (record { size = rw (params s) h.size; pool = rw (lists s, state s) h.pool });
  }

  pub flog_close_sector-Pooled : Keeps (Pooled n Q R) flog_close_sector
  unfolding flog_close_sector
  flog_close_sector-Pooled = modify-Pooled _ (λ s. refl) (λ s. refl) (λ s. refl)

  -- Opening a page of a block whose removal `Q` survives.
  module _ (block : ℕ) (erased : (es : Entries) → Q es → Q (erase_entry block es)) where
    removed-Pooled : Keeps (Pooled n Q R) (on_prealloc (block_remove_pending block))
    removed-Pooled = on_prealloc-Pooled _ (block_remove_pending-IsPool n Q block erased)

    cached-Pooled :
        (page : ℕ) (result : FlogResult)
        → Keeps (Pooled n Q R) (modify (set_cache block page result))
    cached-Pooled page result = modify-Pooled _ (λ s. refl) (λ s. refl) (λ s. refl)

    uncached-Pooled :
        (page : ℕ)
        → Keeps (Pooled n Q R) (
            on_chip (flash_open_page block page) >>= λ result.
            modify (set_cache block page result)
            >> (on_prealloc (block_remove_pending block) >> pure result))
    uncached-Pooled page =
        search (keeps_rules, on_chip-Pooled, cached-Pooled, removed-Pooled) depth 20

    pub flog_open_page-Pooled : (page : ℕ) → Keeps (Pooled n Q R) (flog_open_page block page)
    unfolding flog_open_page
    flog_open_page-Pooled page = record {
      at = λ s h. elim (Bool-cases (is_cached s.cache_status block page)) [
        | inl e ↦ rw e (holds h)
        | inr e ↦ rw e ((uncached-Pooled page).at s h)
      ];
    }

    pub flog_open_sector-Pooled :
        (sector : ℕ) → Keeps (Pooled n Q R) (flog_open_sector block sector)
    unfolding flog_open_sector
    flog_open_sector-Pooled sector = flog_open_page-Pooled _

    pub flog_block_statistics_read-Pooled : Keeps (Pooled n Q R) (flog_block_statistics_read block)
    unfolding flog_block_statistics_read
    flog_block_statistics_read-Pooled =
        search (keeps_rules, on_chip-Pooled, flog_open_sector-Pooled) depth 20

    flog_block_statistics_write-Pooled :
        (h : BlockStatistics) → Keeps (Pooled n Q R) (flog_block_statistics_write block h)
    unfolding flog_block_statistics_write
    flog_block_statistics_write-Pooled h =
        search (keeps_rules, on_chip-Pooled, flog_open_sector-Pooled) depth 20

    module _ (pos : 0 < block) (inside : 0 < n → block < n) where
      push-Pooled : (age : ℕ) → Keeps (Pooled n Q R) (on_prealloc (flog_prealloc_push block age))
      push-Pooled age = on_prealloc-Pooled _ (flog_prealloc_push-IsPool n Q block age pos inside)

      prime_candidate-Pooled : Keeps (Pooled n Q R) (prime_candidate block)
      unfolding prime_candidate prime_invalid prime_valid
      prime_candidate-Pooled =
          search
            (
              keeps_rules, on_chip-Pooled, push-Pooled, flog_close_sector-Pooled,
              flog_block_statistics_read-Pooled, flog_block_statistics_write-Pooled,
            )
            depth 30

  -- What is asked of `Q`: it survives the opening of a block that is not in the pool, and a block that
  -- is handed out.
  module _
      (opened : (s : Fs) (block : ℕ)
        → Pooled n Q R s
        → flog_prealloc_contains block s.prealloc ≡ ok false s.prealloc
        → (es : Entries) → Q es
        → Q (erase_entry block es)) where
    prime_listed :
        (s : Fs) (block : ℕ) (r : Run Prealloc Bool)
        → Pooled n Q R s
        → (block == 0) ≡ false
        → (0 < n → block < n)
        → flog_prealloc_contains block s.prealloc ≡ r
        → Holds (Pooled n Q R) (
            and_then
              (lift (λ (t : Fs) p. record t { prealloc = p }) r s)
              (λ found. if found then pure success else prime_candidate block))
    prime_listed s block panic h nonzero inside e = stopped
    prime_listed s block out_of_fuel h nonzero inside e = spent
    prime_listed s block (ok true p) h nonzero inside e =
        let same : p ≡ s.prealloc = flog_prealloc_contains-same block s.prealloc p true e in
        holds (record { size = h.size; pool = rw same h.pool })
    prime_listed s block (ok false p) h nonzero inside e =
        let same : p ≡ s.prealloc = flog_prealloc_contains-same block s.prealloc p false e in
        (prime_candidate-Pooled block (opened s block h (rw same at e)) (ground arith) inside).at _
          (record { size = h.size; pool = rw same h.pool })

    prime_round-Pooled : Keeps (Pooled n Q R) prime_round
    unfolding prime_round flash_random
    prime_round-Pooled = record {
      at = λ s h.
          let block = s.chip.random s.chip.draws % s.params.number_of_blocks % 2 ^ 16 in
          let drawn : Fs = record s { chip = record s.chip { draws = s.chip.draws + 1 } } in
          let still : Pooled n Q R drawn = record { size = h.size; pool = h.pool } in
          elim (Bool-cases (block == 0)) [
            | inl e ↦ rw e (holds still)
            | inr e ↦ rw e (
                prime_listed drawn block (flog_prealloc_contains block s.prealloc) still e
                  (λ some_blocks. rw (← h.size) (grind arith)) refl)
          ];
    }

    prime_step-Pooled :
        (rest : Cmd Fs FlogResult)
        → Keeps (Pooled n Q R) rest
        → Keeps (Pooled n Q R) (prime_step rest)
    unfolding prime_step
    prime_step-Pooled rest h = search (keeps_rules, prime_round-Pooled) depth 20

    prime_loop-Pooled : (k : ℕ) → Keeps (Pooled n Q R) (prime_loop k)
    unfolding prime_loop
    prime_loop-Pooled zero = search keeps_rules
    prime_loop-Pooled (suc k) = prime_step-Pooled (prime_loop k) (prime_loop-Pooled k)

    pub flog_prealloc_prime-Pooled : Keeps (Pooled n Q R) flog_prealloc_prime
    unfolding flog_prealloc_prime
    flog_prealloc_prime-Pooled = prime_loop-Pooled 63

    module _ (taken : (es : Entries) (b a : ℕ) → Q es → Q (es ++ (b, a) ∷ [])) where
      pop-Pooled : Keeps (Pooled n Q R) (on_prealloc flog_prealloc_pop)
      pop-Pooled = on_prealloc-Pooled _ (flog_prealloc_pop-IsPool n Q taken)

      allocate_loop-Pooled :
          (k : ℕ) (last : BlockAlloc) → Keeps (Pooled n Q R) (allocate_loop k last)
      unfolding allocate_loop
      allocate_loop-Pooled zero last = search keeps_rules
      allocate_loop-Pooled (suc k) last =
          search (keeps_rules, pop-Pooled, flog_prealloc_prime-Pooled, allocate_loop-Pooled k) depth
            20

      pub flog_allocate_block-Pooled : Keeps (Pooled n Q R) flog_allocate_block
      unfolding flog_allocate_block
      flog_allocate_block-Pooled = search (keeps_rules, allocate_loop-Pooled) depth 20
