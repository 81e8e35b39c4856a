-- ===== src/Tests/Pools.antt =====
-- The theorems on the pool of blocks and on the end of a write, at a chip of four blocks of two pages.
use flog_fs.Base.{ℕ, ◌≡◌, ◌≢◌, refl, arith, false, inl, inr, List, [], ◌∷◌, ◌==◌}
use flog_fs.Structs.{read_spare, block_idx_invalid}
use flog_fs.Flash.{
  flash_erase_block, flash_block_is_bad, flash_read_sector, flash_write_sector, flash_commit,
  flash_write_spare, flash_read_spare, flash_random,
}
use flog_fs.Prealloc.{BlockAlloc}
use flog_fs.Prealloc.Chain.{has}
use flog_fs.Prealloc.Pool.{IsPool}
use flog_fs.Fs.{Fs, flog_close_sector}
use flog_fs.Alloc.{flog_allocate_block}
use flog_fs.Alloc.Pool.{Pooled}
use flog_fs.Alloc.Held.{Any, Never, Hold, flog_allocate_block-Hold}
use flog_fs.Write.{flogfs_write}
use flog_fs.Write.Ends.{IsWritable, flogfs_write-Ends}
use flog_fs.Api.{mount, perform, Reachable, called}
use flog_fs.Api.Pool.{Reachable-IsPool}
use flog_fs.Tests.Scenario.{power_on, blank_writer, blank_node}
use flog_fs.Tests.Files.{final, formatted, formatted-Reachable}
use flog_fs.Tests.Lists.{list, free_nodes, list-IsPrealloc}
use flog_fs.Run.{Run, ok, panic, out_of_fuel}

abbrev up : Fs
unfolding final perform
up = final (perform mount formatted)

up_lem : perform mount formatted ≡ ok tt up
unfolding final perform flash_erase_block flash_block_is_bad flash_read_sector flog_close_sector
    flash_write_sector flash_commit flash_write_spare flash_read_spare read_spare flash_random
up_lem = refl

up-Reachable : Reachable up
up-Reachable = called mount formatted up formatted-Reachable up_lem

Reachable-IsPool_example : IsPool 4 Any up.prealloc
unfolding final perform flash_erase_block flash_block_is_bad flash_read_sector flog_close_sector
    flash_write_sector flash_commit flash_write_spare flash_read_spare read_spare flash_random
Reachable-IsPool_example = Reachable-IsPool up up-Reachable refl

first_of : Run Fs BlockAlloc → BlockAlloc × Fs
first_of (ok a s) = (a, s)
first_of panic = (blank_node, power_on)
first_of out_of_fuel = (blank_node, power_on)

abbrev taken_and_left : BlockAlloc × Fs
unfolding first_of flog_allocate_block
taken_and_left = first_of (flog_allocate_block up)

abbrev taken : BlockAlloc
taken = taken_and_left.0

abbrev left : Fs
left = taken_and_left.1

taken_lem : flog_allocate_block up ≡ ok taken left
unfolding first_of flog_allocate_block final perform flash_erase_block flash_block_is_bad
    flash_read_sector flog_close_sector flash_write_sector flash_commit flash_write_spare
    flash_read_spare read_spare flash_random
taken_lem = refl

taken-valid : (taken.block == block_idx_invalid) ≡ false
unfolding first_of flog_allocate_block final perform flash_erase_block flash_block_is_bad
    flash_read_sector flog_close_sector flash_write_sector flash_commit flash_write_spare
    flash_read_spare read_spare flash_random
taken-valid = refl

up-Pooled : Pooled 4 (Hold []) Never up
unfolding final perform flash_erase_block flash_block_is_bad flash_read_sector flog_close_sector
    flash_write_sector flash_commit flash_write_spare flash_read_spare read_spare flash_random
up-Pooled = record { size = refl; pool = inr (Reachable-IsPool up up-Reachable refl) }

left-Pooled : Pooled 4 (Hold (taken.block ∷ [])) Never left
left-Pooled = (flog_allocate_block-Hold 4 [] up left taken up-Pooled taken_lem taken-valid).1

-- The next block that it hands out is another one.
abbrev next_and_left : BlockAlloc × Fs
unfolding first_of flog_allocate_block
next_and_left = first_of (flog_allocate_block left)

next_taken_lem : flog_allocate_block left ≡ ok next_and_left.0 next_and_left.1
unfolding first_of flog_allocate_block final perform flash_erase_block flash_block_is_bad
    flash_read_sector flog_close_sector flash_write_sector flash_commit flash_write_spare
    flash_read_spare read_spare flash_random
next_taken_lem = refl

next_taken-valid : (next_and_left.0.block == block_idx_invalid) ≡ false
unfolding first_of flog_allocate_block final perform flash_erase_block flash_block_is_bad
    flash_read_sector flog_close_sector flash_write_sector flash_commit flash_write_spare
    flash_read_spare read_spare flash_random
next_taken-valid = refl

flog_allocate_block-Hold_example :
    (has next_and_left.0.block (taken.block ∷ []) ≡ false)
    × Pooled 4 (Hold (next_and_left.0.block ∷ (taken.block ∷ []))) Never next_and_left.1
flog_allocate_block-Hold_example =
    flog_allocate_block-Hold 4 (taken.block ∷ []) left next_and_left.1 next_and_left.0 left-Pooled
      next_taken_lem next_taken-valid

-- An erased chip, and a file at the tail sector of its block with room for 10 bytes.
abbrev writing : Fs
writing = record power_on {
  chip = record power_on.chip { mapped = λ _. 0xff };
  prealloc = list;
  write_files = λ _. record blank_writer { sector = 3; offset = 502; sector_remaining_bytes = 10 };
}

writing-IsWritable : IsWritable 1 writing
writing-IsWritable = record {
  listed = record {
    free = 2 ∷ free_nodes;
    available = 1 ∷ [];
    pending = 0 ∷ [];
    lists = list-IsPrealloc;
  };
  flushable = inl refl;
  room = omega arith;
  word = omega arith;
}

abbrev thirteen : List ℕ
thirteen = 1 ∷ 2 ∷ 3 ∷ 4 ∷ 5 ∷ 6 ∷ 7 ∷ 8 ∷ 9 ∷ 10 ∷ 11 ∷ 12 ∷ 13 ∷ []

flogfs_write-Ends_example : flogfs_write 1 thirteen writing ≢ out_of_fuel
flogfs_write-Ends_example = flogfs_write-Ends 1 thirteen writing refl writing-IsWritable
