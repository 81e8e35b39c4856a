-- ===== src/SdFlash.antt =====
-- The flash driver over an SD card, backends/arduino-sd/flogfs_arduino_sd.cpp: a page takes five blocks
-- of the card, four of data and one for the spare areas.
pub mod Returning
pub mod Blocks
pub mod Partial
pub mod Closed
use flog_fs.Base.{
  ℕ, ◌+◌, ◌*◌, ◌/◌, ◌%◌, ◌^◌, Bool, true, false, List, [], ◌==◌, if◌then◌else◌, not, add16,
}
use flog_fs.Structs.{FlogResult, success, failure, flog_result, block_idx_invalid, spare_size}
use flog_fs.Flash.{fs_sectors_per_page, internal_sectors_per_page}
use flog_fs.Fs.{Params}
use flog_fs.Sd.{Board, Port, from_board}
use flog_fs.Sd.Card.{sd_raw_initialize, sd_raw_card_size, sd_raw_erase}
use flog_fs.Sd.Data.{ReadResult, read_failed, bytes_read, sd_raw_read_data, sd_raw_write_data}
use flog_fs.Run.{Run, ok, Cmd, pure, ◌>>=◌, ◌>>◌, fetch, modify, lift}

-- The static variables of the driver.
pub record SdFlash (D : Type 0) : Type 0 where
  pub port : Port D
  pub open_block : ℕ
  pub last_block_erased : ℕ
  pub open_page : ℕ
  pub pages_per_block : ℕ

abbrev pub on_port : {D A : Type 0} → Cmd (Port D) A → Cmd (SdFlash D) A
on_port m s = lift (λ (t : SdFlash _) p. record t { port = p }) (m s.port) s

-- uint32_t arithmetic
unfoldable pub get_sd_block : (pages block page sector : ℕ) → ℕ
get_sd_block pages block page sector =
    (block * pages * internal_sectors_per_page + page * internal_sectors_per_page + sector) % 2 ^ 32

abbrev pub get_sd_block_in_open_page : {D : Type 0} → SdFlash D → ℕ → ℕ
get_sd_block_in_open_page s sector = get_sd_block s.pages_per_block s.open_block s.open_page sector

-- What a read leaves at the destination, which a failure does not write.
abbrev pub read_result : ReadResult → FlogResult × List ℕ
read_result read_failed = (failure, [])
read_result (bytes_read bs) = (success, bs)

unfoldable pub flash_open_page : {D : Type 0} → (block page : ℕ) → Cmd (SdFlash D) FlogResult
flash_open_page block page = do
  modify (λ s. record s {
    open_block = block;
    open_page = page;
    last_block_erased = if s.last_block_erased == block then block else block_idx_invalid;
  })
  pure success

unfoldable pub flash_block_is_bad : {D : Type 0} → Cmd (SdFlash D) FlogResult
flash_block_is_bad = pure failure

unfoldable pub flash_commit : {D : Type 0} → Cmd (SdFlash D) (Unit {0})
flash_commit = pure tt

module _ {D : Type 0} (board : Board D) where
  -- The number of blocks that the card has room for is the result too, where there is one.
  unfoldable pub flogfs_arduino_sd_open : (cs : ℕ) → Params → Cmd (SdFlash D) (FlogResult × Params)
  unfolding sd_raw_initialize sd_raw_card_size
  flogfs_arduino_sd_open cs params = do
    modify (λ s. record s { pages_per_block = params.pages_per_block })
    up ← on_port (sd_raw_initialize board cs)
    if not up then pure (failure, params) else do
      number_of_sd_blocks ← on_port (sd_raw_card_size board)
      s ← fetch
      let number_of_fs_blocks =
          number_of_sd_blocks / (internal_sectors_per_page * s.pages_per_block)
      pure (success, record params { number_of_blocks = number_of_fs_blocks })

  unfoldable pub flash_erase_block : ℕ → Cmd (SdFlash D) FlogResult
  unfolding get_sd_block sd_raw_erase
  flash_erase_block block = do
    s ← fetch
    let first_sd_block = get_sd_block s.pages_per_block block 0 0
    let last_sd_block = get_sd_block s.pages_per_block (add16 block 1) 0 0
    modify (λ s. record s { last_block_erased = block })
    erased ← on_port (sd_raw_erase board first_sd_block last_sd_block)
    pure (flog_result erased)

  unfoldable pub flash_read_sector : (sector offset n : ℕ) → Cmd (SdFlash D) (FlogResult × List ℕ)
  unfolding get_sd_block sd_raw_read_data
  flash_read_sector sector offset n = do
    s ← fetch
    let at = get_sd_block_in_open_page s (sector % fs_sectors_per_page)
    read ← on_port (sd_raw_read_data board at offset n)
    pure (read_result read)

  unfoldable pub flash_read_spare : ℕ → Cmd (SdFlash D) (FlogResult × List ℕ)
  unfolding get_sd_block sd_raw_read_data
  flash_read_spare sector = do
    s ← fetch
    let at = get_sd_block_in_open_page s fs_sectors_per_page
    read ← on_port (sd_raw_read_data board at (sector % fs_sectors_per_page * 0x10) spare_size)
    pure (read_result read)

  -- What else a block holds is kept, unless its block of the file system was the last one erased.
  unfoldable pub flash_write_sector : List ℕ → (sector offset : ℕ) → Cmd (SdFlash D) (Unit {0})
  unfolding get_sd_block sd_raw_write_data
  flash_write_sector src sector offset = do
    s ← fetch
    let preserve_partial_write = not (s.last_block_erased == s.open_block)
    let at = get_sd_block_in_open_page s (sector % fs_sectors_per_page)
    on_port (sd_raw_write_data board at offset src preserve_partial_write)
    pure tt

  unfoldable pub flash_write_spare : List ℕ → ℕ → Cmd (SdFlash D) (Unit {0})
  unfolding get_sd_block sd_raw_write_data
  flash_write_spare src sector = do
    s ← fetch
    let at = get_sd_block_in_open_page s fs_sectors_per_page
    on_port (sd_raw_write_data board at (sector % fs_sectors_per_page * 0x10) src true)
    pure tt

  unfoldable pub flash_random : ℕ → Cmd (SdFlash D) ℕ
  unfolding from_board
  flash_random max = on_port (from_board (board.random max))
