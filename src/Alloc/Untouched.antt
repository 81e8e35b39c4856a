-- ===== src/Alloc/Untouched.antt =====
-- The allocator keeps what depends on the dirty block and the files open for writing only.
use flog_fs.Base.{ℕ, zero, suc}
use flog_fs.Structs.{FlogResult}
use flog_fs.Prealloc.{BlockAlloc}
use flog_fs.Fs.{Fs, WriteFile, DirtyBlock}
use flog_fs.Fs.Untouched.{
  On, on_chip-On, on_prealloc-On, flog_close_sector-On, flog_block_statistics_read-On,
  flog_block_statistics_write-On,
}
use flog_fs.Alloc.{
  prime_invalid, prime_valid, prime_candidate, prime_round, prime_step, prime_loop,
  flog_prealloc_prime, allocate_loop, flog_allocate_block,
}
use flog_fs.Run.{Cmd}
use flog_fs.Run.Keeps.{Keeps, keeps_rules}

module _ (P : DirtyBlock → (ℕ → WriteFile) → Type 0) where
  prime_candidate-On : (block : ℕ) → Keeps (On P) (prime_candidate block)
  unfolding prime_candidate prime_invalid prime_valid
  prime_candidate-On block =
      search
        (
          keeps_rules, on_chip-On, on_prealloc-On, flog_close_sector-On,
          flog_block_statistics_read-On, flog_block_statistics_write-On,
        )
        depth 30

  prime_round-On : Keeps (On P) prime_round
  unfolding prime_round
  prime_round-On = search (keeps_rules, on_chip-On, on_prealloc-On, prime_candidate-On) depth 20

  prime_step-On : (rest : Cmd Fs FlogResult) → Keeps (On P) rest → Keeps (On P) (prime_step rest)
  unfolding prime_step
  prime_step-On rest h = search (keeps_rules, prime_round-On) depth 20

  prime_loop-On : (k : ℕ) → Keeps (On P) (prime_loop k)
  unfolding prime_loop
  prime_loop-On zero = search keeps_rules
  prime_loop-On (suc k) = prime_step-On (prime_loop k) (prime_loop-On k)

  flog_prealloc_prime-On : Keeps (On P) flog_prealloc_prime
  unfolding flog_prealloc_prime
  flog_prealloc_prime-On = prime_loop-On 63

  allocate_loop-On : (k : ℕ) (last : BlockAlloc) → Keeps (On P) (allocate_loop k last)
  unfolding allocate_loop
  allocate_loop-On zero last = search keeps_rules
  allocate_loop-On (suc k) last =
      search (keeps_rules, on_prealloc-On, flog_prealloc_prime-On, allocate_loop-On k) depth 20

  pub flog_allocate_block-On : Keeps (On P) flog_allocate_block
  unfolding flog_allocate_block
  flog_allocate_block-On = search (keeps_rules, allocate_loop-On) depth 20
