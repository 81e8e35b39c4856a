-- ===== src/Tests/Scenario.antt =====
-- Sessions of a client on a small chip, run from the memory of a program that has not started.
use flog_fs.Base.{ℕ, ◌≡◌, refl, false, Option, none, some, List, [], ◌∷◌}
use flog_fs.Structs.{failure, reset, read_spare}
use flog_fs.Flash.{
  flash_erase_block, flash_block_is_bad, flash_read_sector, flash_write_sector, flash_commit,
  flash_write_spare, flash_read_spare, flash_random,
}
use flog_fs.Prealloc.{BlockAlloc}
use flog_fs.Fs.{Fs, ReadFile, WriteFile, Params, clean, flog_close_sector}
use flog_fs.Mount.{flogfs_initialize, flogfs_format, flogfs_mount}
use flog_fs.Open.{flogfs_open_write, flogfs_close_write, flogfs_open_read}
use flog_fs.Write.{flogfs_write}
use flog_fs.Read.{flogfs_read}
use flog_fs.Run.{Run, ok, panic, out_of_fuel, Cmd, ◌>>◌}

abbrev pub params : Params
params = record { number_of_blocks = 4; pages_per_block = 2 }

abbrev pub blank_reader : ReadFile
blank_reader = record {
  read_head = 0;
  first_block = 0;
  block = 0;
  sector = 0;
  offset = 0;
  sector_remaining_bytes = 0;
  file_size = 0;
  id = 0;
  next = 0;
}

abbrev pub blank_writer : WriteFile
blank_writer = record {
  file_size = 0;
  block = 0;
  sector = 0;
  offset = 0;
  sector_remaining_bytes = 0;
  bytes_in_block = 0;
  block_age = 0;
  id = 0;
  sector_buffer = λ _. 0;
  next = 0;
}

abbrev pub blank_node : BlockAlloc
blank_node = record { block = 0; age = 0; next = none }

abbrev pub power_on : Fs
power_on = record {
  chip = record {
    mapped = λ _. 0;
    open_block = 0;
    open_page = 0;
    pages_per_block = 2;
    random = λ i. i;
    draws = 0;
  };
  read_files = λ _. blank_reader;
  write_files = λ _. blank_writer;
  read_head = 0;
  write_head = 0;
  max_file_id = 0;
  state = reset;
  prealloc = record {
    blocks = λ _. blank_node;
    n = 0;
    age_sum = 0;
    free = none;
    available = none;
    pending = none;
  };
  t = 0;
  version = 0;
  inode0 = 0;
  cache_status = record {
    current_open_block = 0;
    current_open_page = 0;
    page_open = false;
    page_open_result = failure;
  };
  dirty_block = clean;
  allocate_head = 0;
  params = params;
  stack = λ i. 0x55;
  open_bound = 8;
}

abbrev name : List ℕ
name = b'l' ∷ b'o' ∷ b'g' ∷ []

-- A chip is formatted, a file is written and closed, and what it holds is read.
session : Cmd Fs (ℕ × List ℕ)
unfolding flogfs_initialize flogfs_format flogfs_mount flogfs_open_write flogfs_write
    flogfs_close_write flogfs_open_read flogfs_read
session = do
  flogfs_initialize params
  flogfs_format
  flogfs_mount
  flogfs_open_write 1 name
  flogfs_write 1 (1 ∷ 2 ∷ 3 ∷ [])
  flogfs_close_write 1
  flogfs_open_read 1 name
  flogfs_read 1 10

pub value : {A : Type 0} → Run Fs A → Option A
value (ok a s) = some a
value panic = none
value out_of_fuel = none

value-session : value (session power_on) ≡ some (3, 1 ∷ 2 ∷ 3 ∷ [])
unfolding session value flash_erase_block flash_block_is_bad flash_read_sector flog_close_sector
    flash_write_sector flash_commit flash_write_spare flash_read_spare read_spare flash_random
value-session = refl
