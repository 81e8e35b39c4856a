-- ===== src/Alloc/Coherent.antt =====
-- The allocator keeps the page cache coherent, though priming opens pages behind its back.
use flog_fs.Base.{ℕ, zero, suc, refl}
use flog_fs.Structs.{FlogResult, BlockStatistics, SectorSpare}
use flog_fs.Flash.{flash_open_page, flash_block_is_bad}
use flog_fs.Prealloc.{BlockAlloc}
use flog_fs.Fs.{Fs, flog_block_statistics_write}
use flog_fs.Fs.Cache.{IsCoherent, coherent_rules, flog_block_statistics_read-IsBehind}
use flog_fs.Alloc.{
  prime_invalid, prime_valid, prime_candidate, prime_round, prime_step, prime_loop,
  flog_prealloc_prime, allocate_loop, flog_allocate_block,
}
use flog_fs.Run.{Cmd}
use flog_fs.Run.Keeps.{Keeps, Holds-and_then}

pub flog_block_statistics_write-IsCoherent :
    (block : ℕ) (h : BlockStatistics) → Keeps IsCoherent (flog_block_statistics_write block h)
unfolding flog_block_statistics_write
flog_block_statistics_write-IsCoherent block h = search coherent_rules depth 20

prime_invalid-IsCoherent :
    (block : ℕ) (h : BlockStatistics) → Keeps IsCoherent (prime_invalid block h)
unfolding prime_invalid
prime_invalid-IsCoherent block h =
    search (coherent_rules, flog_block_statistics_write-IsCoherent) depth 20

prime_valid-IsCoherent :
    (block : ℕ) (h : BlockStatistics) (spare : SectorSpare)
    → Keeps IsCoherent (prime_valid block h spare)
unfolding prime_valid
prime_valid-IsCoherent block h spare = search coherent_rules depth 20

prime_candidate-IsCoherent : (block : ℕ) → Keeps IsCoherent (prime_candidate block)
unfolding prime_candidate flash_open_page flash_block_is_bad
prime_candidate-IsCoherent block = record {
  at = λ s h.
      Holds-and_then
        (flog_block_statistics_read-IsBehind block _
          (record { block_open = refl; page_open = refl; result = h.result }))
        (λ statistics.
          search (coherent_rules, prime_invalid-IsCoherent, prime_valid-IsCoherent) depth 20);
}

prime_round-IsCoherent : Keeps IsCoherent prime_round
unfolding prime_round
prime_round-IsCoherent = search (coherent_rules, prime_candidate-IsCoherent) depth 20

prime_step-IsCoherent :
    (rest : Cmd Fs FlogResult) → Keeps IsCoherent rest → Keeps IsCoherent (prime_step rest)
unfolding prime_step
prime_step-IsCoherent rest h = search (coherent_rules, prime_round-IsCoherent) depth 20

prime_loop-IsCoherent : (k : ℕ) → Keeps IsCoherent (prime_loop k)
unfolding prime_loop
prime_loop-IsCoherent zero = search coherent_rules depth 20
prime_loop-IsCoherent (suc k) = prime_step-IsCoherent (prime_loop k) (prime_loop-IsCoherent k)

pub flog_prealloc_prime-IsCoherent : Keeps IsCoherent flog_prealloc_prime
unfolding flog_prealloc_prime
flog_prealloc_prime-IsCoherent = prime_loop-IsCoherent 63

allocate_loop-IsCoherent : (k : ℕ) (last : BlockAlloc) → Keeps IsCoherent (allocate_loop k last)
unfolding allocate_loop
allocate_loop-IsCoherent zero last = search coherent_rules depth 20
allocate_loop-IsCoherent (suc k) last =
    search (coherent_rules, flog_prealloc_prime-IsCoherent, allocate_loop-IsCoherent k) depth 20

pub flog_allocate_block-IsCoherent : Keeps IsCoherent flog_allocate_block
unfolding flog_allocate_block
flog_allocate_block-IsCoherent = search (coherent_rules, allocate_loop-IsCoherent) depth 20
