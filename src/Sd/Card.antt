-- ===== src/Sd/Card.antt =====
-- Setting the card up, its registers, its size, and erasing, backends/arduino-sd/sd_raw.cpp in the
-- build without SD_RAW_WRITE_BLOCK_ERASE. The bit-fields of csd_t are read lowest bits first.
use Prim.Native.Nat.{bit_and}
use flog_fs.Base.{
  ℕ, zero, suc, ◌+◌, ◌-◌, ◌*◌, ◌/◌, ◌%◌, ◌^◌, Bool, true, false, Option, none, some, List, [], ◌∷◌,
  ◌==◌, ltb, if◌then◌else◌, not, get_or, sub32,
}
use flog_fs.Sd.{
  Board, SdRaw, Port, set_sd, set_status, on_board, from_board, sd_raw_cs_high, sd_raw_cs_low,
  sd_raw_spi_read, sd_raw_flush, sd_raw_command, sd_raw_acommand, sd_raw_error, sd_wait_start_block,
  sd_card_error_cmd0, sd_card_error_cmd8, sd_card_error_cmd58, sd_card_error_acmd41,
  sd_card_error_bad_csd, sd_card_error_erase, sd_card_error_erase_single_block,
  sd_card_error_erase_timeout, sd_card_error_read_reg, sd_card_error_general, sd_card_type_sd1,
  sd_card_type_sd2, sd_card_type_sdhc,
}
use flog_fs.Run.{Cmd, pure, out_of_fuel, ◌>>=◌, ◌>>◌, fetch}

abbrev pub sd_raw_init_timeout : ℕ
sd_raw_init_timeout = 2 * 1000

abbrev pub sd_raw_erase_timeout : ℕ
sd_raw_erase_timeout = 10 * 1000

abbrev pub r1_ready_state : ℕ
r1_ready_state = 0x00

abbrev pub r1_idle_state : ℕ
r1_idle_state = 0x01

abbrev pub r1_illegal_command : ℕ
r1_illegal_command = 0x04

-- the fields of csd_t that the code reads
abbrev pub csd_ver : List ℕ → ℕ
csd_ver csd = get_or csd 0 0 / 2 ^ 6

abbrev pub csd_erase_blk_en : List ℕ → ℕ
csd_erase_blk_en csd = get_or csd 10 0 / 2 ^ 6 % 2

abbrev pub csd_v1_size : List ℕ → ℕ
csd_v1_size csd =
    let read_bl_len = get_or csd 5 0 % 2 ^ 4 in
    let c_size =
      (get_or csd 6 0 % 2 ^ 2) * 2 ^ 10 + get_or csd 7 0 * 2 ^ 2 + get_or csd 8 0 / 2 ^ 6 in
    let c_size_mult = (get_or csd 9 0 % 2 ^ 2) * 2 + get_or csd 10 0 / 2 ^ 7 in
    (c_size + 1) * 2 ^ (c_size_mult + read_bl_len - 7) % 2 ^ 32

abbrev pub csd_v2_size : List ℕ → ℕ
csd_v2_size csd =
    let c_size = get_or csd 7 0 / 2 ^ 2 * 2 ^ 16 + get_or csd 8 0 * 2 ^ 8 + get_or csd 9 0 in
    (c_size + 1) * 1024 % 2 ^ 32

-- The address of a block: cards but those of high capacity count bytes.
abbrev pub card_address : SdRaw → ℕ → ℕ
card_address sd block = if sd.card_type == sd_card_type_sdhc then block else block * 2 ^ 9 % 2 ^ 32

module _ {D : Type 0} (board : Board D) where
  -- `n` bytes from the card
  unfoldable pub read_bytes : ℕ → Cmd (Port D) (List ℕ)
  unfolding sd_raw_spi_read
  read_bytes zero = pure []
  read_bytes (suc n) = do byte ← sd_raw_spi_read board; rest ← read_bytes n; pure (byte ∷ rest)

  -- ten bytes, for the card to start up
  unfoldable pub start_up : ℕ → Cmd (Port D) (Unit {0})
  unfolding from_board
  start_up zero = pure tt
  start_up (suc k) = do from_board (board.transfer 0xff); start_up k

  unfoldable pub sd_raw_spi_configure : Cmd (Port D) (Unit {0})
  unfolding on_board start_up
  sd_raw_spi_configure = do
    on_board board.begin
    on_board (board.set_clock_divider 255)
    start_up 10
    on_board (board.set_clock_divider 0)

  -- Commands until the card answers with a state; `error` is the status after a time-out.
  unfoldable pub command_loop : Cmd (Port D) ℕ → (state error rounds t0 : ℕ) → Cmd (Port D) Bool
  unfolding set_sd sd_raw_error from_board
  command_loop command state error zero t0 = λ _. out_of_fuel
  command_loop command state error (suc k) t0 = do
    status ← command
    set_status status
    if status == state then pure true else do
      now ← from_board board.millis
      if ltb sd_raw_init_timeout (sub32 now t0)
          then sd_raw_error board error
          else command_loop command state error k t0

  -- the version of the card
  unfoldable pub check_version : Cmd (Port D) Bool
  unfolding set_sd sd_raw_command read_bytes sd_raw_error
  check_version = do
    status ← sd_raw_command board 0x08 0x1aa
    if not (bit_and status r1_illegal_command == 0)
        then (do set_sd (λ sd. record sd { card_type = sd_card_type_sd1 }); pure true)
        else do
          bytes ← read_bytes 4
          set_status (get_or bytes 3 0)
          if not (get_or bytes 3 0 == 0xaa)
              then sd_raw_error board sd_card_error_cmd8
              else do set_sd (λ sd. record sd { card_type = sd_card_type_sd2 }); pure true

  -- whether the card has high capacity
  unfoldable pub check_capacity : Cmd (Port D) Bool
  unfolding set_sd sd_raw_command sd_raw_spi_read read_bytes sd_raw_error
  check_capacity = do
    p ← fetch
    if not (p.sd.card_type == sd_card_type_sd2) then pure true else do
      status ← sd_raw_command board 0x3a 0
      if not (status == 0) then sd_raw_error board sd_card_error_cmd58 else do
        ocr ← sd_raw_spi_read board
        if bit_and ocr 0xc0 == 0xc0
            then set_sd (λ sd. record sd { card_type = sd_card_type_sdhc })
            else pure tt
        read_bytes 3
        pure true

  unfoldable pub sd_raw_initialize : ℕ → Cmd (Port D) Bool
  unfolding set_sd on_board sd_raw_cs_high sd_raw_cs_low sd_raw_spi_configure sd_raw_command
      sd_raw_acommand command_loop check_version check_capacity from_board
  sd_raw_initialize pin = do
    set_sd (λ sd. record sd { cs = pin })
    on_board (board.pin_output pin)
    sd_raw_cs_high board
    sd_raw_spi_configure
    sd_raw_cs_low board
    t0 ← from_board board.millis
    p ← fetch
    idle ← command_loop (sd_raw_command board 0x00 0) r1_idle_state sd_card_error_cmd0 p.polls t0
    if not idle then pure false else do
      known ← check_version
      if not known then pure false else do
        q ← fetch
        let arg = if q.sd.card_type == sd_card_type_sd2 then 0x4000_0000 else 0
        ready ←
            command_loop (sd_raw_acommand board 0x29 arg) r1_ready_state sd_card_error_acmd41
              p.polls t0
        if not ready then pure false else do
          found ← check_capacity
          if not found then pure false else do sd_raw_cs_high board; pure true

  -- `none` where the register could not be read
  unfoldable pub sd_raw_read_register : ℕ → Cmd (Port D) (Option (List ℕ))
  unfolding sd_raw_command sd_wait_start_block read_bytes sd_raw_error sd_raw_cs_high
  sd_raw_read_register command = do
    status ← sd_raw_command board command 0
    if not (status == 0) then (do sd_raw_error board sd_card_error_read_reg; pure none) else do
      started ← sd_wait_start_block board
      if not started
          then (do sd_raw_error board sd_card_error_general; pure none)
          else do bytes ← read_bytes 16; read_bytes 2; sd_raw_cs_high board; pure (some bytes)

  unfoldable pub sd_raw_read_csd : Cmd (Port D) (Option (List ℕ))
  unfolding sd_raw_read_register
  sd_raw_read_csd = sd_raw_read_register 0x09

  -- the number of blocks by the register
  unfoldable pub size_of : Option (List ℕ) → Cmd (Port D) ℕ
  unfolding sd_raw_error
  size_of none = pure 0
  size_of (some csd) =
      if csd_ver csd == 0
      then pure (csd_v1_size csd)
      else if csd_ver csd == 1
      then pure (csd_v2_size csd)
      else do sd_raw_error board sd_card_error_bad_csd; pure 0

  unfoldable pub sd_raw_card_size : Cmd (Port D) ℕ
  unfolding sd_raw_read_csd size_of
  sd_raw_card_size = do csd ← sd_raw_read_csd; size_of csd

  abbrev pub is_enabled : Option (List ℕ) → Bool
  is_enabled none = false
  is_enabled (some csd) = csd_erase_blk_en csd == 1

  unfoldable pub sd_raw_erase_single_block_enabled : Cmd (Port D) Bool
  unfolding sd_raw_read_csd
  sd_raw_erase_single_block_enabled = do csd ← sd_raw_read_csd; pure (is_enabled csd)

  -- the three commands; `||` stops at the first that fails
  unfoldable pub erase_commands : (first last : ℕ) → Cmd (Port D) Bool
  unfolding sd_raw_command
  erase_commands first last = do
    status ← sd_raw_command board 0x20 first
    if not (status == 0) then pure false else do
      status ← sd_raw_command board 0x21 last
      if not (status == 0)
          then pure false
          else do status ← sd_raw_command board 0x26 0; pure (status == 0)

  unfoldable pub sd_raw_erase : (first last : ℕ) → Cmd (Port D) Bool
  unfolding sd_raw_erase_single_block_enabled erase_commands sd_raw_flush sd_raw_error
      sd_raw_cs_high
  sd_raw_erase first last = do
    enabled ← sd_raw_erase_single_block_enabled
    if not enabled then sd_raw_error board sd_card_error_erase_single_block else do
      p ← fetch
      erased ← erase_commands (card_address p.sd first) (card_address p.sd last)
      if not erased then sd_raw_error board sd_card_error_erase else do
        flushed ← sd_raw_flush board sd_raw_erase_timeout
        if not flushed
            then sd_raw_error board sd_card_error_erase_timeout
            else do sd_raw_cs_high board; pure true
