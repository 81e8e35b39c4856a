-- ===== src/Alloc/Listed.antt =====
-- The allocator ends where the preallocation lists are well formed: its loops are counted, and the
-- walks along the lists have rounds enough.
use flog_fs.Base.{ℕ, zero, suc}
use flog_fs.Structs.{FlogResult}
use flog_fs.Prealloc.{BlockAlloc}
use flog_fs.Prealloc.Listed.{
  flog_prealloc_contains-IsListed, flog_prealloc_push-IsListed, flog_prealloc_pop-IsListed,
}
use flog_fs.Fs.{Fs, WriteFile, DirtyBlock}
use flog_fs.Fs.Listed.{
  Listed, listed_rules, flog_block_statistics_read-Listed, flog_block_statistics_write-Listed,
}
use flog_fs.Alloc.{
  prime_invalid, prime_valid, prime_candidate, prime_round, prime_step, prime_loop,
  flog_prealloc_prime, refill_if_empty, allocate_loop, flog_allocate_block,
}
use flog_fs.Run.{Cmd}
use flog_fs.Run.Ends.{Lasts}

module _ (W : DirtyBlock → (ℕ → WriteFile) → Type 0) where
  prime_candidate-Listed : (block : ℕ) → Lasts (Listed W) (prime_candidate block)
  unfolding prime_candidate prime_invalid prime_valid
  prime_candidate-Listed block =
      search
        (
          listed_rules, flog_prealloc_push-IsListed, flog_block_statistics_read-Listed,
          flog_block_statistics_write-Listed,
        )
        depth 30

  prime_round-Listed : Lasts (Listed W) prime_round
  unfolding prime_round
  prime_round-Listed =
      search (listed_rules, flog_prealloc_contains-IsListed, prime_candidate-Listed) depth 20

  prime_step-Listed :
      (rest : Cmd Fs FlogResult) → Lasts (Listed W) rest → Lasts (Listed W) (prime_step rest)
  unfolding prime_step
  prime_step-Listed rest h = search (listed_rules, prime_round-Listed) depth 20

  prime_loop-Listed : (k : ℕ) → Lasts (Listed W) (prime_loop k)
  unfolding prime_loop
  prime_loop-Listed zero = search listed_rules
  prime_loop-Listed (suc k) = prime_step-Listed (prime_loop k) (prime_loop-Listed k)

  pub flog_prealloc_prime-Listed : Lasts (Listed W) flog_prealloc_prime
  unfolding flog_prealloc_prime
  flog_prealloc_prime-Listed = prime_loop-Listed 63

  allocate_loop-Listed : (k : ℕ) (last : BlockAlloc) → Lasts (Listed W) (allocate_loop k last)
  unfolding allocate_loop refill_if_empty
  allocate_loop-Listed zero last = search listed_rules
  allocate_loop-Listed (suc k) last =
      search
        (
          listed_rules,
          flog_prealloc_pop-IsListed,
          flog_prealloc_prime-Listed,
          allocate_loop-Listed k,
        )
        depth 20

  pub flog_allocate_block-Listed : Lasts (Listed W) flog_allocate_block
  unfolding flog_allocate_block
  flog_allocate_block-Listed = search (listed_rules, allocate_loop-Listed) depth 20
