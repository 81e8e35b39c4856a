-- ===== src/Sd/Completes.antt =====
-- The commands of backends/arduino-sd/sd_raw.cpp over those loops that count or that wait for the
-- card, which are the fields of `IsServed`.
use Prim.Native.Nat.{bit_and}
use flog_fs.Base.{
  ℕ, zero, suc, ◌+◌, ◌≤◌, Bool, false, not, Bool-cases, inl, inr, List, [], ◌∷◌, ltb, ltb-false→le,
  ◌==◌, arith,
}
use flog_fs.Sd.{
  Board, SdRaw, Port, set_sd, set_status, on_board, from_board, sd_raw_cs_high, sd_raw_cs_low,
  sd_raw_spi_read, sd_raw_spi_write, sd_raw_flush, read_end_loop, sd_raw_read_end, response_loop,
  sd_raw_command, sd_raw_error, sd_wait_start_block, sd_raw_block_size,
}
use flog_fs.Sd.Card.{
  read_bytes, sd_raw_read_register, sd_raw_read_csd, sd_raw_erase_single_block_enabled,
  erase_commands, sd_raw_erase, sd_raw_erase_timeout,
}
use flog_fs.Sd.Data.{
  ReadResult, read_failed, bytes_read, moved_on, open_block, skip_to, read_within, overlaid,
  block_memory, sd_raw_read_data, sd_raw_read_block, write_bytes, write_token_data, programmed,
  sd_raw_write_block, write_over, sd_raw_write_data, sd_raw_write_timeout,
}
use flog_fs.Run.Completes.{
  Completes, Completes-bind, Completes-then, Completes-if, Completes-pure, completes_rules,
}

pub record IsServed {D : Type 0} (board : Board D) (P : Port D → Type 0) : Type 0 where
  pub set_sd_is : (f : SdRaw → SdRaw) → Completes P (set_sd f)
  pub on_board_is : (f : D → D) → Completes P (on_board f)
  pub from_board_is : (f : D → ℕ × D) → Completes P (from_board f)
  pub read_end_loop_is : Completes P (read_end_loop board (sd_raw_block_size + 3))
  pub skip_to_is : (offset : ℕ) → offset ≤ sd_raw_block_size → Completes P (skip_to board offset)
  pub flush_is : (timeout : ℕ) → timeout ≤ 10_000 → Completes P (sd_raw_flush board timeout)
  pub wait_is : Completes P (sd_wait_start_block board)

module _ {D : Type 0} {board : Board D} {P : Port D → Type 0} (served : IsServed board P) where
  Completes-set_sd : (f : SdRaw → SdRaw) → Completes P (set_sd f)
  Completes-set_sd f = served.set_sd_is f

  Completes-on_board : (f : D → D) → Completes P (on_board f)
  Completes-on_board f = served.on_board_is f

  Completes-from_board : (f : D → ℕ × D) → Completes P (from_board f)
  Completes-from_board f = served.from_board_is f

  Completes-read_end_loop : Completes P (read_end_loop board (sd_raw_block_size + 3))
  Completes-read_end_loop = served.read_end_loop_is

  Completes-sd_wait_start_block : Completes P (sd_wait_start_block board)
  Completes-sd_wait_start_block = served.wait_is

  ruleset sd_rules = (
    completes_rules, Completes-set_sd, Completes-on_board, Completes-from_board,
    Completes-read_end_loop, Completes-sd_wait_start_block,
  )

  Completes-sd_raw_spi_read : Completes P (sd_raw_spi_read board)
  unfolding sd_raw_spi_read
  Completes-sd_raw_spi_read = search sd_rules depth 20

  Completes-sd_raw_spi_write : (byte : ℕ) → Completes P (sd_raw_spi_write board byte)
  unfolding sd_raw_spi_write
  Completes-sd_raw_spi_write byte = search sd_rules depth 20

  Completes-sd_raw_cs_low : Completes P (sd_raw_cs_low board)
  unfolding sd_raw_cs_low
  Completes-sd_raw_cs_low = search sd_rules depth 20

  Completes-sd_raw_cs_high : Completes P (sd_raw_cs_high board)
  unfolding sd_raw_cs_high
  Completes-sd_raw_cs_high = search sd_rules depth 20

  ruleset byte_rules = (
    sd_rules, Completes-sd_raw_spi_read, Completes-sd_raw_spi_write, Completes-sd_raw_cs_low,
    Completes-sd_raw_cs_high,
  )

  Completes-sd_raw_error : (error : ℕ) → Completes P (sd_raw_error board error)
  unfolding sd_raw_error
  Completes-sd_raw_error error = search byte_rules depth 20

  Completes-sd_raw_read_end : Completes P (sd_raw_read_end board)
  unfolding sd_raw_read_end
  Completes-sd_raw_read_end = search byte_rules depth 20

  Completes-read_bytes : (n : ℕ) → Completes P (read_bytes board n)
  unfolding read_bytes
  Completes-read_bytes zero = search sd_rules depth 20
  Completes-read_bytes (suc n) =
      Completes-bind (sd_raw_spi_read board) _ Completes-sd_raw_spi_read (λ byte.
        Completes-bind (read_bytes board n) _ (Completes-read_bytes n)
          (λ rest. Completes-pure (byte ∷ rest)))

  Completes-write_bytes : (bs : List ℕ) → Completes P (write_bytes board bs)
  unfolding write_bytes
  Completes-write_bytes [] = search sd_rules depth 20
  Completes-write_bytes (b ∷ bs) =
      Completes-then (sd_raw_spi_write board b) _ (Completes-sd_raw_spi_write b)
        (Completes-write_bytes bs)

  Completes-response_loop : (k : ℕ) → Completes P (response_loop board k)
  unfolding response_loop
  Completes-response_loop zero = search byte_rules depth 20
  Completes-response_loop (suc k) =
      Completes-bind (sd_raw_spi_read board) _ Completes-sd_raw_spi_read (λ status.
        Completes-then (set_status status) _ (served.set_sd_is _) (
          Completes-if (bit_and status 0x80 == 0) _ _ (Completes-pure tt)
            (Completes-response_loop k)))

  Completes-flush_300 : Completes P (sd_raw_flush board 300)
  Completes-flush_300 = served.flush_is 300 (omega arith)

  Completes-sd_raw_command : (command arg : ℕ) → Completes P (sd_raw_command board command arg)
  unfolding sd_raw_command
  Completes-sd_raw_command command arg =
      search (byte_rules, Completes-sd_raw_read_end, Completes-response_loop, Completes-flush_300)
        depth 40

  ruleset command_rules = (
    byte_rules, Completes-sd_raw_read_end, Completes-read_bytes, Completes-write_bytes,
    Completes-sd_raw_error, Completes-sd_raw_command,
  )

  Completes-sd_raw_read_register : (command : ℕ) → Completes P (sd_raw_read_register board command)
  unfolding sd_raw_read_register
  Completes-sd_raw_read_register command = search command_rules depth 40

  Completes-sd_raw_erase_single_block_enabled :
      Completes P (sd_raw_erase_single_block_enabled board)
  unfolding sd_raw_erase_single_block_enabled sd_raw_read_csd
  Completes-sd_raw_erase_single_block_enabled =
      search (command_rules, Completes-sd_raw_read_register) depth 40

  Completes-erase_commands : (first last : ℕ) → Completes P (erase_commands board first last)
  unfolding erase_commands
  Completes-erase_commands first last = search command_rules depth 40

  Completes-flush_erase : Completes P (sd_raw_flush board sd_raw_erase_timeout)
  Completes-flush_erase = served.flush_is _ (omega arith)

  pub Completes-sd_raw_erase : (first last : ℕ) → Completes P (sd_raw_erase board first last)
  unfolding sd_raw_erase
  Completes-sd_raw_erase first last =
      search
        (
          command_rules, Completes-sd_raw_erase_single_block_enabled, Completes-erase_commands,
          Completes-flush_erase,
        )
        depth 40

  Completes-open_block : (block offset : ℕ) → Completes P (open_block board block offset)
  unfolding open_block
  Completes-open_block block offset = search command_rules depth 40

  Completes-read_within :
      (block offset size : ℕ)
      → offset ≤ sd_raw_block_size
      → Completes P (read_within board block offset size)
  unfolding read_within
  Completes-read_within block offset size fits =
      Completes-bind (open_block board block offset) _ (Completes-open_block block offset)
        (λ opened. Completes-if (not opened) _ _ (Completes-pure read_failed) (
          Completes-then (skip_to board offset) _ (served.skip_to_is offset fits) (
            Completes-bind (read_bytes board size) _ (Completes-read_bytes size) (λ bytes.
              Completes-then (set_sd (moved_on size)) _ (Completes-set_sd (moved_on size)) (
                Completes-then (sd_raw_read_end board) _ Completes-sd_raw_read_end
                  (Completes-pure (bytes_read bytes)))))))

  pub Completes-sd_raw_read_data :
      (block offset size : ℕ) → Completes P (sd_raw_read_data board block offset size)
  unfolding sd_raw_read_data
  Completes-sd_raw_read_data block offset size =
      elim (Bool-cases (ltb sd_raw_block_size (size + offset))) [
        | inl outside ↦ rw outside (search command_rules depth 40)
        | inr inside ↦ rw inside (
            Completes-if (size == 0) _ _ (Completes-pure _)
              (Completes-read_within block offset size (omega (arith, ltb-false→le _ _ inside))))
      ]

  Completes-write_token_data :
      (token : ℕ) (source : List ℕ) → Completes P (write_token_data board token source)
  unfolding write_token_data
  Completes-write_token_data token source = search command_rules depth 40

  Completes-programmed : Completes P (programmed board)
  unfolding programmed
  Completes-programmed = search command_rules depth 40

  Completes-flush_write : Completes P (sd_raw_flush board sd_raw_write_timeout)
  Completes-flush_write = served.flush_is _ (omega arith)

  Completes-sd_raw_write_block :
      (block : ℕ) (source : List ℕ) → Completes P (sd_raw_write_block board block source)
  unfolding sd_raw_write_block
  Completes-sd_raw_write_block block source =
      search
        (command_rules, Completes-write_token_data, Completes-programmed, Completes-flush_write)
        depth 40

  Completes-write_over :
      (old : ReadResult) (block offset : ℕ) (source : List ℕ)
      → Completes P (write_over board old block offset source)
  unfolding write_over
  Completes-write_over read_failed block offset source = Completes-pure false
  Completes-write_over (bytes_read old) block offset source =
      Completes-sd_raw_write_block block (overlaid (block_memory old) offset source)

  pub Completes-sd_raw_write_data :
      (block offset : ℕ) (source : List ℕ) (preserve_partial_write : Bool)
      → Completes P (sd_raw_write_data board block offset source preserve_partial_write)
  unfolding sd_raw_write_data sd_raw_read_block
  Completes-sd_raw_write_data block offset source preserve_partial_write =
      search
        (
          command_rules, Completes-sd_raw_read_data, Completes-write_over,
          Completes-sd_raw_write_block,
        )
        depth 40
