-- ===== src/Tests/Mapped.antt =====
-- The theorems on the mapped file and its log, at a chip of four blocks of two pages.
use flog_fs.Base.{refl, true, false, some, none, [], ◌∷◌}
use flog_fs.Flash.{mapped_sector_ptr, spare_offset}
use flog_fs.Mmap.{
  Mmap, Os, flogfs_linux_open, flogfs_linux_close, flash_erase_block, flash_write_sector,
  flash_write_spare,
}
use flog_fs.Mmap.Logged.{IsLogged, flash_driver-IsLogged}
use flog_fs.Mmap.Undo.{Undoable, Stuck, Failing, flash_write_sector-Undoable, undo_incomplete}
use flog_fs.Mmap.Session.{Answered, flogfs_linux_open-flogfs_linux_close}
use flog_fs.Tests.Scenario.{params}
use flog_fs.Run.{◌>>◌}
use flog_fs.Run.Returns.{Returns}

abbrev copying : Mmap
copying = record {
  chip = record {
    mapped = λ _. 0xff;
    open_block = 1;
    open_page = 1;
    pages_per_block = 2;
    random = λ i. i;
    draws = 0;
  };
  mapped = true;
  fd = some 3;
  mapped_size = 20480;
  log = record { copy_on_write = true; entries = [] };
}

flash_driver-IsLogged_example : IsLogged copying
flash_driver-IsLogged_example = flash_driver-IsLogged copying

flash_write_sector-Undoable_example :
    Returns (λ _ s'. Undoable copying s') (flash_write_sector (7 ∷ 8 ∷ []) 5 3 copying)
flash_write_sector-Undoable_example =
    flash_write_sector-Undoable (7 ∷ 8 ∷ []) 5 3 copying refl (λ x p q. refl)

undo_incomplete_example :
    Returns
      (λ _ s'.
        Stuck (mapped_sector_ptr copying.chip 0 (spare_offset 5)) (2 ∷ 0 ∷ 5 ∷ 0 ∷ []) copying s')
      (flash_write_spare (2 ∷ 0 ∷ 5 ∷ 0 ∷ []) 5 copying)
    × Returns (λ _ s'. Failing copying s') (flash_erase_block 2 copying)
undo_incomplete_example = undo_incomplete (2 ∷ 0 ∷ 5 ∷ 0 ∷ []) 5 2 copying refl (λ x p q. refl)

abbrev closed : Mmap
closed = record copying { mapped = false; fd = none }

-- A system that fails to map the file, and one that does it.
abbrev failing : Os
failing = record {
  open_file = λ _. some 3;
  lseek = λ fd size. true;
  write = λ fd. true;
  mmap = λ size fd. none;
}

abbrev working : Os
working = record failing { mmap = λ size fd. some (λ _. 0) }

flogfs_linux_open-flogfs_linux_close_example : Returns (Answered working) (
    (flogfs_linux_open failing true params
        >> flogfs_linux_close
        >> flogfs_linux_open working false params)
      closed)
flogfs_linux_open-flogfs_linux_close_example =
    flogfs_linux_open-flogfs_linux_close failing working true false params params closed
      (record { no_fd = refl; unmapped = refl })
