-- ===== src/SdFlash/Returning.antt =====
-- Whether the operations of backends/arduino-sd/flogfs_arduino_sd.cpp return, over those of
-- sd_raw.cpp.
use flog_fs.Base.{ℕ, Bool, List}
use flog_fs.Sd.{Board, Port}
use flog_fs.Sd.Clock.{IsClock, Patient}
use flog_fs.Sd.Completes.{
  Completes-sd_raw_erase, Completes-sd_raw_read_data, Completes-sd_raw_write_data,
}
use flog_fs.Sd.Timed.{Patient-IsServed}
use flog_fs.Sd.Card.{sd_raw_erase}
use flog_fs.Sd.Data.{sd_raw_read_data, sd_raw_write_data}
use flog_fs.SdFlash.{
  SdFlash, on_port, flash_erase_block, flash_read_sector, flash_read_spare, flash_write_sector,
  flash_write_spare,
}
use flog_fs.Run.{Cmd, modify}
use flog_fs.Run.Returns
use flog_fs.Run.Returns.{Returns, returns}
use flog_fs.Run.Completes.{Completes, completes_rules}

abbrev IsReady : {D : Type 0} → SdFlash D → Type 0
IsReady s = Patient s.port

module _ {D : Type 0} {board : Board D} {time : D → ℕ} (clock : IsClock board time) where
  Completes-modify :
      (f : SdFlash D → SdFlash D)
      → ((s : SdFlash D) → IsReady s → IsReady (f s))
      → Completes IsReady (modify f)
  Completes-modify f keep = record { at = λ s h. returns (keep s h) }

  Completes-on_port :
      {A : Type 0} (m : Cmd (Port D) A) → Completes Patient m → Completes IsReady (on_port m)
  Completes-on_port m done = record {
    at = λ s h.
        Returns.lifted (λ t p. record t { port = p }) s (done.at s.port h) (λ a p ready. ready);
  }

  erase : (first last : ℕ) → Completes Patient (sd_raw_erase board first last)
  erase = Completes-sd_raw_erase (Patient-IsServed board clock)

  read : (block offset size : ℕ) → Completes Patient (sd_raw_read_data board block offset size)
  read = Completes-sd_raw_read_data (Patient-IsServed board clock)

  write :
      (block offset : ℕ) (src : List ℕ) (preserve : Bool)
      → Completes Patient (sd_raw_write_data board block offset src preserve)
  write = Completes-sd_raw_write_data (Patient-IsServed board clock)

  ruleset port_rules = (completes_rules, Completes-modify, Completes-on_port, erase, read, write)

  Completes-flash_erase_block : (block : ℕ) → Completes IsReady (flash_erase_block board block)
  unfolding flash_erase_block
  Completes-flash_erase_block block = search port_rules depth 20

  Completes-flash_read_sector :
      (sector offset n : ℕ) → Completes IsReady (flash_read_sector board sector offset n)
  unfolding flash_read_sector
  Completes-flash_read_sector sector offset n = search port_rules depth 20

  Completes-flash_read_spare : (sector : ℕ) → Completes IsReady (flash_read_spare board sector)
  unfolding flash_read_spare
  Completes-flash_read_spare sector = search port_rules depth 20

  Completes-flash_write_sector :
      (src : List ℕ) (sector offset : ℕ)
      → Completes IsReady (flash_write_sector board src sector offset)
  unfolding flash_write_sector
  Completes-flash_write_sector src sector offset = search port_rules depth 20

  Completes-flash_write_spare :
      (src : List ℕ) (sector : ℕ) → Completes IsReady (flash_write_spare board src sector)
  unfolding flash_write_spare
  Completes-flash_write_spare src sector = search port_rules depth 20

module _ {D : Type 0} {board : Board D} {time : D → ℕ} (clock : IsClock board time) where
  -- Let the board have a clock that counts milliseconds in 32 bits and goes on by at least a
  -- microsecond and at most a second while a byte is exchanged. Then erasing a block, reading a sector
  -- or a spare area and writing them return, whatever bytes the card sends: more than 10,000,000 rounds
  -- of the loops that poll the card are enough, and the bound is still above that afterwards.
  pub flash_driver_answers :
      (s : SdFlash D) (block sector offset n : ℕ) (src : List ℕ)
      → Patient s.port
      → Returns (λ _ t. Patient t.port) (flash_erase_block board block s)
        × Returns (λ _ t. Patient t.port) (flash_read_sector board sector offset n s)
        × Returns (λ _ t. Patient t.port) (flash_read_spare board sector s)
        × Returns (λ _ t. Patient t.port) (flash_write_sector board src sector offset s)
        × Returns (λ _ t. Patient t.port) (flash_write_spare board src sector s)
  flash_driver_answers s block sector offset n src patient = (
    (Completes-flash_erase_block clock block).at s patient,
    (Completes-flash_read_sector clock sector offset n).at s patient,
    (Completes-flash_read_spare clock sector).at s patient,
    (Completes-flash_write_sector clock src sector offset).at s patient,
    (Completes-flash_write_spare clock src sector).at s patient,
  )
