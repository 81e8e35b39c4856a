-- ===== src/Sd/Data.antt =====
-- Reading and writing the blocks of the card, backends/arduino-sd/sd_raw.cpp in the build without
-- SD_RAW_CRC_SUPPORT and SD_PROTECT_BLOCK_ZERO.
use Prim.Native.Nat.{bit_and}
use flog_fs.Base.{
  ℕ, zero, suc, ◌+◌, Bool, true, false, ◌||◌, List, [], ◌∷◌, ◌==◌, ltb, if◌then◌else◌, not, length,
  add16,
}
use flog_fs.Bytes.{Mem, load_bytes, store_bytes}
use flog_fs.Structs.{erase_char}
use flog_fs.Sd.{
  Board, SdRaw, Port, set_sd, set_status, sd_raw_cs_high, sd_raw_spi_read, sd_raw_spi_write,
  sd_raw_flush, sd_raw_read_end, sd_raw_command, sd_raw_error, sd_wait_start_block,
  sd_raw_block_size, data_start_block, sd_card_error_cmd17, sd_card_error_cmd24,
  sd_card_error_write, sd_card_error_write_programming, sd_card_error_write_timeout,
  sd_card_error_general,
}
use flog_fs.Sd.Card.{card_address, read_bytes}
use flog_fs.Run.{Cmd, pure, out_of_fuel, ◌>>=◌, ◌>>◌, fetch}

abbrev pub sd_raw_write_timeout : ℕ
sd_raw_write_timeout = 600

abbrev pub data_res_mask : ℕ
data_res_mask = 0x1f

abbrev pub data_res_accepted : ℕ
data_res_accepted = 0x05

abbrev pub moved_on : ℕ → SdRaw → SdRaw
moved_on n sd = record sd { offset = add16 sd.offset n }

-- What a read hands over; the bytes are those stored before a failure, none.
pub data ReadResult : Type 0 where
  read_failed : ReadResult
  bytes_read : List ℕ → ReadResult

-- The block with the bytes of `source` stored in it at the offset.
abbrev pub overlaid : Mem → ℕ → List ℕ → List ℕ
overlaid temporary offset source =
    load_bytes (store_bytes temporary offset source) 0 sd_raw_block_size

-- the bytes of a block as memory
unfoldable pub block_memory : List ℕ → Mem
unfolding store_bytes
block_memory bytes = store_bytes (λ _. 0) 0 bytes

module _ {D : Type 0} (board : Board D) where
  -- a block that is not being read already is asked for
  unfoldable pub open_block : (block offset : ℕ) → Cmd (Port D) Bool
  unfolding set_sd sd_raw_command sd_wait_start_block sd_raw_error
  open_block block offset = do
    p ← fetch
    if not (not p.sd.in_block || (not (block == p.sd.block) || ltb offset p.sd.offset))
        then pure true
        else do
          set_sd (λ sd. record sd { block = block })
          status ← sd_raw_command board 0x11 (card_address p.sd block)
          if not (status == 0) then sd_raw_error board sd_card_error_cmd17 else do
            started ← sd_wait_start_block board
            if not started
                then sd_raw_error board sd_card_error_general
                else do set_sd (λ sd. record sd { offset = 0; in_block = true }); pure true

  -- the bytes before the offset
  unfoldable pub skip_loop : (rounds offset : ℕ) → Cmd (Port D) (Unit {0})
  unfolding set_sd sd_raw_spi_read
  skip_loop zero offset = λ _. out_of_fuel
  skip_loop (suc k) offset = do
    p ← fetch
    if not (ltb p.sd.offset offset)
        then pure tt
        else do sd_raw_spi_read board; set_sd (moved_on 1); skip_loop k offset

  unfoldable pub skip_to : ℕ → Cmd (Port D) (Unit {0})
  unfolding skip_loop
  skip_to offset = skip_loop (offset + 1) offset

  -- Bytes that lie in a block. It is always read to its end, since `partialBlockRead` is false.
  unfoldable pub read_within : (block offset size : ℕ) → Cmd (Port D) ReadResult
  unfolding set_sd open_block skip_to read_bytes sd_raw_read_end
  read_within block offset size = do
    opened ← open_block block offset
    if not opened then pure read_failed else do
      skip_to offset
      bytes ← read_bytes board size
      set_sd (moved_on size)
      sd_raw_read_end board
      pure (bytes_read bytes)

  unfoldable pub sd_raw_read_data : (block offset size : ℕ) → Cmd (Port D) ReadResult
  unfolding read_within sd_raw_error
  sd_raw_read_data block offset size =
      if size == 0
      then pure (bytes_read [])
      else if ltb sd_raw_block_size (size + offset)
      then (do sd_raw_error board sd_card_error_general; pure read_failed)
      else read_within block offset size

  unfoldable pub sd_raw_read_block : ℕ → Cmd (Port D) ReadResult
  unfolding sd_raw_read_data
  sd_raw_read_block block = sd_raw_read_data block 0 sd_raw_block_size

  unfoldable pub write_bytes : List ℕ → Cmd (Port D) (Unit {0})
  unfolding sd_raw_spi_write
  write_bytes [] = pure tt
  write_bytes (b ∷ bs) = do sd_raw_spi_write board b; write_bytes bs

  -- sd_raw_write_data with a token: the bytes of a block to the card
  unfoldable pub write_token_data : (token : ℕ) → List ℕ → Cmd (Port D) Bool
  unfolding set_sd write_bytes sd_raw_spi_read sd_raw_error sd_raw_spi_write
  write_token_data token source = do
    sd_raw_spi_write board token
    write_bytes source
    sd_raw_spi_write board 0xff
    sd_raw_spi_write board 0xff
    status ← sd_raw_spi_read board
    set_status status
    if bit_and status data_res_mask == data_res_accepted
        then pure true
        else sd_raw_error board sd_card_error_write

  -- whether CMD13 answers with two bytes of zero; `||` reads the second only after the first
  unfoldable pub programmed : Cmd (Port D) Bool
  unfolding sd_raw_command sd_raw_spi_read
  programmed = do
    status ← sd_raw_command board 0x0d 0
    if not (status == 0) then pure false else do second ← sd_raw_spi_read board; pure (second == 0)

  unfoldable pub sd_raw_write_block : ℕ → List ℕ → Cmd (Port D) Bool
  unfolding sd_raw_command write_token_data sd_raw_flush programmed sd_raw_error sd_raw_cs_high
  sd_raw_write_block block source = do
    p ← fetch
    status ← sd_raw_command board 0x18 (card_address p.sd block)
    if not (status == 0) then sd_raw_error board sd_card_error_cmd24 else do
      sent ← write_token_data data_start_block source
      if not sent then sd_raw_error board sd_card_error_general else do
        flushed ← sd_raw_flush board sd_raw_write_timeout
        if not flushed then sd_raw_error board sd_card_error_write_timeout else do
          done ← programmed
          if not done
              then sd_raw_error board sd_card_error_write_programming
              else do sd_raw_cs_high board; pure true

  unfoldable pub write_over : ReadResult → (block offset : ℕ) → List ℕ → Cmd (Port D) Bool
  unfolding sd_raw_write_block block_memory load_bytes store_bytes
  write_over read_failed block offset source = pure false
  write_over (bytes_read old) block offset source =
      sd_raw_write_block block (overlaid (block_memory old) offset source)

  -- Part of a block is written by writing the whole block: with what it holds around the new bytes,
  -- or with erased bytes. The bytes of `source` are `size` many.
  unfoldable pub sd_raw_write_data :
      (block offset : ℕ) → List ℕ → (preserve_partial_write : Bool) → Cmd (Port D) Bool
  unfolding sd_raw_read_block sd_raw_write_block write_over
  sd_raw_write_data block offset source preserve_partial_write =
      if length source == sd_raw_block_size
      then sd_raw_write_block block source
      else if preserve_partial_write
      then (do old ← sd_raw_read_block block; write_over old block offset source)
      else sd_raw_write_block block (overlaid (λ _. erase_char) offset source)
