-- ===== src/SdFlash/Closed.antt =====
-- The block of the card that is being read, over the operations of
-- backends/arduino-sd/flogfs_arduino_sd.cpp.
use flog_fs.Base.{ℕ, ◌≡◌, false, List}
use flog_fs.Sd.{Board, Port}
use flog_fs.Sd.Closed.{IsClosed}
use flog_fs.Sd.Left.{Keeps-sd_raw_erase, Keeps-sd_raw_read_data, Keeps-sd_raw_write_data}
use flog_fs.SdFlash.{
  SdFlash, on_port, flash_erase_block, flash_read_sector, flash_read_spare, flash_write_sector,
  flash_write_spare,
}
use flog_fs.Run.{Run, Cmd, modify, lift}
use flog_fs.Run.Keeps.{Holds, holds, stopped, spent, Keeps, Keeps-modify, keeps_rules}

-- The same for the state of the driver.
pub record IsIdle {D : Type 0} (s : SdFlash D) : Type 0 where
  pub closed : s.port.sd.in_block ≡ false

module _ {D : Type 0} (board : Board D) where
  Keeps-on_port :
      {A : Type 0} (m : Cmd (Port D) A) → Keeps IsClosed m → Keeps (IsIdle {D = D}) (on_port m)
  Keeps-on_port m keeps = record {
    at = λ s h. lifted s (keeps.at s.port (record { closed = h.closed }));
  }
    where
      lifted :
          {A : Type 0} {r : Run (Port D) A} (s : SdFlash D)
          → Holds IsClosed r
          → Holds IsIdle (lift (λ (t : SdFlash D) p. record t { port = p }) r s)
      lifted s (holds h) = holds (record { closed = h.closed })
      lifted s stopped = stopped
      lifted s spent = spent

  Keeps-erased :
      (block : ℕ) → Keeps (IsIdle {D = D}) (modify (λ s. record s { last_block_erased = block }))
  Keeps-erased block = Keeps-modify _ (λ s h. record { closed = h.closed })

  ruleset driver_rules = (
    keeps_rules, Keeps-on_port, Keeps-erased, Keeps-sd_raw_erase, Keeps-sd_raw_read_data,
    Keeps-sd_raw_write_data,
  )

  Keeps-flash_erase_block : (block : ℕ) → Keeps IsIdle (flash_erase_block board block)
  unfolding flash_erase_block
  Keeps-flash_erase_block block = search driver_rules depth 20

  Keeps-flash_read_sector :
      (sector offset n : ℕ) → Keeps IsIdle (flash_read_sector board sector offset n)
  unfolding flash_read_sector
  Keeps-flash_read_sector sector offset n = search driver_rules depth 20

  Keeps-flash_read_spare : (sector : ℕ) → Keeps IsIdle (flash_read_spare board sector)
  unfolding flash_read_spare
  Keeps-flash_read_spare sector = search driver_rules depth 20

  Keeps-flash_write_sector :
      (src : List ℕ) (sector offset : ℕ) → Keeps IsIdle (flash_write_sector board src sector offset)
  unfolding flash_write_sector
  Keeps-flash_write_sector src sector offset = search driver_rules depth 20

  Keeps-flash_write_spare :
      (src : List ℕ) (sector : ℕ) → Keeps IsIdle (flash_write_spare board src sector)
  unfolding flash_write_spare
  Keeps-flash_write_spare src sector = search driver_rules depth 20

  -- If no block of the card is being read, then none is after erasing a block of the file system, reading
  -- a sector or a spare area or writing them, whether the operation succeeds or fails on any command.
  pub flash_driver_closes :
      (s : SdFlash D) (block sector offset n : ℕ) (src : List ℕ)
      → IsIdle s
      → Holds IsIdle (flash_erase_block board block s)
        × Holds IsIdle (flash_read_sector board sector offset n s)
        × Holds IsIdle (flash_read_spare board sector s)
        × Holds IsIdle (flash_write_sector board src sector offset s)
        × Holds IsIdle (flash_write_spare board src sector s)
  flash_driver_closes s block sector offset n src idle = (
    (Keeps-flash_erase_block block).at s idle,
    (Keeps-flash_read_sector sector offset n).at s idle,
    (Keeps-flash_read_spare sector).at s idle,
    (Keeps-flash_write_sector src sector offset).at s idle,
    (Keeps-flash_write_spare src sector).at s idle,
  )
