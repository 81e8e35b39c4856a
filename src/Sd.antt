-- ===== src/Sd.antt =====
-- SD cards over SPI, backends/arduino-sd/sd_raw.cpp with sd_raw.h and sd_raw_internal.h: the bus, the
-- commands, and the loops that poll the card. The Arduino library (SPI, pins, the clock) is the
-- parameter `Board`, over the state `D` of the board and the card. The registers are in Sd.Card, the
-- data in Sd.Data.
mod Constants
pub use Constants.*
pub mod Card
pub mod Data
pub mod Clock
pub mod Completes
pub mod Timed
pub mod Closed
pub mod Left
use Prim.Native.Nat.{bit_and, bit_or}
use flog_fs.Base.{
  ℕ, zero, suc, ◌+◌, ◌-◌, ◌/◌, ◌%◌, ◌^◌, Bool, true, false, ◌==◌, ltb, leb, if◌then◌else◌, not,
  add16, sub32,
}
use flog_fs.Run.{Cmd, pure, ok, out_of_fuel, ◌>>=◌, ◌>>◌, fetch, modify}

pub record Board (D : Type 0) : Type 0 where
  -- SPI.transfer: a byte out, and one in
  pub transfer : ℕ → D → ℕ × D
  -- SPI.begin, SPI.setClockDivider
  pub begin : D → D
  pub set_clock_divider : ℕ → D → D
  pub begin_transaction : D → D
  pub end_transaction : D → D
  -- pinMode of an output, and digitalWrite
  pub pin_output : ℕ → D → D
  pub digital_write : ℕ → Bool → D → D
  pub millis : D → ℕ × D
  pub random : ℕ → D → ℕ × D

-- sd_raw_t
pub record SdRaw : Type 0 where
  pub cs : ℕ
  pub status : ℕ
  pub card_type : ℕ
  pub offset : ℕ
  pub in_block : Bool
  pub block : ℕ

-- `polls` is no field of the program: a bound on the rounds of a loop that polls the card.
pub record Port (D : Type 0) : Type 0 where
  pub sd : SdRaw
  pub device : D
  pub polls : ℕ

unfoldable pub set_sd : {D : Type 0} → (SdRaw → SdRaw) → Cmd (Port D) (Unit {0})
set_sd f = modify (λ p. record p { sd = f p.sd })

abbrev pub set_status : {D : Type 0} → ℕ → Cmd (Port D) (Unit {0})
set_status v = set_sd (λ (sd : SdRaw). record sd { status = v % 2 ^ 8 })

-- A call of the board's library without a result, and with one.
unfoldable pub on_board : {D : Type 0} → (D → D) → Cmd (Port D) (Unit {0})
on_board f = modify (λ p. record p { device = f p.device })

unfoldable pub from_board : {D A : Type 0} → (D → A × D) → Cmd (Port D) A
from_board f p = let (a, d) = f p.device in ok a (record p { device = d })

module _ {D : Type 0} (board : Board D) where
  unfoldable pub sd_raw_cs_high : Cmd (Port D) (Unit {0})
  unfolding on_board
  sd_raw_cs_high = do
    p ← fetch
    on_board (board.digital_write p.sd.cs true)
    on_board board.end_transaction

  unfoldable pub sd_raw_cs_low : Cmd (Port D) (Unit {0})
  unfolding on_board
  sd_raw_cs_low = do
    on_board board.begin_transaction
    p ← fetch
    on_board (board.digital_write p.sd.cs false)

  unfoldable pub sd_raw_spi_read : Cmd (Port D) ℕ
  unfolding from_board
  sd_raw_spi_read = do byte ← from_board (board.transfer 0xff); pure (byte % 2 ^ 8)

  unfoldable pub sd_raw_spi_write : ℕ → Cmd (Port D) (Unit {0})
  unfolding from_board
  sd_raw_spi_write value = do from_board (board.transfer (value % 2 ^ 8)); pure tt

  unfoldable pub flush_loop : (rounds t0 timeout : ℕ) → Cmd (Port D) Bool
  unfolding sd_raw_spi_read from_board
  flush_loop zero t0 timeout = λ _. out_of_fuel
  flush_loop (suc k) t0 timeout = do
    byte ← sd_raw_spi_read
    if byte == 0xff then pure true else do
      now ← from_board board.millis
      if ltb (sub32 now t0) timeout then flush_loop k t0 timeout else pure false

  unfoldable pub sd_raw_flush : ℕ → Cmd (Port D) Bool
  unfolding flush_loop from_board
  sd_raw_flush timeout = do t0 ← from_board board.millis; p ← fetch; flush_loop p.polls t0 timeout

  -- the rest of the block and its two CRC bytes; the last test increments the offset too
  unfoldable pub read_end_loop : ℕ → Cmd (Port D) (Unit {0})
  unfolding set_sd sd_raw_spi_read
  read_end_loop zero = λ _. out_of_fuel
  read_end_loop (suc k) = do
    p ← fetch
    set_sd (λ sd. record sd { offset = add16 sd.offset 1 })
    if ltb p.sd.offset (sd_raw_block_size + 2)
        then (do sd_raw_spi_read; read_end_loop k)
        else pure tt

  unfoldable pub sd_raw_read_end : Cmd (Port D) (Unit {0})
  unfolding set_sd read_end_loop sd_raw_cs_high
  sd_raw_read_end = do
    p ← fetch
    if not p.sd.in_block then pure tt else do
      read_end_loop (sd_raw_block_size + 3)
      sd_raw_cs_high
      set_sd (λ sd. record sd { in_block = false })

  -- the polls of the response: at most `k` more after this one
  unfoldable pub response_loop : ℕ → Cmd (Port D) (Unit {0})
  unfolding set_sd sd_raw_spi_read
  response_loop zero = do status ← sd_raw_spi_read; set_status status
  response_loop (suc k) = do
    status ← sd_raw_spi_read
    set_status status
    if bit_and status 0x80 == 0 then pure tt else response_loop k

  abbrev pub command_crc : ℕ → ℕ
  command_crc command = if command == 0x08 then 0x87 else if command == 0x00 then 0x95 else 0xff

  unfoldable pub sd_raw_command : (command arg : ℕ) → Cmd (Port D) ℕ
  unfolding sd_raw_read_end sd_raw_cs_low sd_raw_flush sd_raw_spi_write response_loop
  sd_raw_command command arg = do
    sd_raw_read_end
    sd_raw_cs_low
    sd_raw_flush 300
    sd_raw_spi_write (bit_or command 0x40)
    sd_raw_spi_write (arg / 2 ^ 24)
    sd_raw_spi_write (arg / 2 ^ 16)
    sd_raw_spi_write (arg / 2 ^ 8)
    sd_raw_spi_write arg
    sd_raw_spi_write (command_crc command)
    response_loop 0xff
    p ← fetch
    pure p.sd.status

  unfoldable pub sd_raw_acommand : (command arg : ℕ) → Cmd (Port D) ℕ
  unfolding sd_raw_command
  sd_raw_acommand command arg = do sd_raw_command 0x37 0; sd_raw_command command arg

  unfoldable pub sd_raw_error : ℕ → Cmd (Port D) Bool
  unfolding set_sd sd_raw_cs_high
  sd_raw_error error = do sd_raw_cs_high; set_status error; pure false

  unfoldable pub wait_loop : (rounds t0 : ℕ) → Cmd (Port D) Bool
  unfolding set_sd sd_raw_spi_read sd_raw_error from_board
  wait_loop zero t0 = λ _. out_of_fuel
  wait_loop (suc k) t0 = do
    status ← sd_raw_spi_read
    set_status status
    if not (status == 0xff) then pure true else do
      now ← from_board board.millis
      if ltb sd_raw_read_timeout (sub32 now t0)
          then sd_raw_error sd_card_error_read_timeout
          else wait_loop k t0

  unfoldable pub sd_wait_start_block : Cmd (Port D) Bool
  unfolding wait_loop sd_raw_error from_board
  sd_wait_start_block = do
    t0 ← from_board board.millis
    p ← fetch
    came ← wait_loop p.polls t0
    if not came then pure false else do
      p ← fetch
      if p.sd.status == data_start_block then pure true else sd_raw_error sd_card_error_read
