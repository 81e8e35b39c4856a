-- ===== src/Sd/Constants.antt =====
-- Sizes, errors and card types, backends/arduino-sd/sd_raw.h and sd_raw_internal.h.
use flog_fs.Base.{ℕ}

abbrev pub sd_raw_block_size : ℕ
sd_raw_block_size = 512

abbrev pub sd_card_error_cmd0 : ℕ
sd_card_error_cmd0 = 0x1

abbrev pub sd_card_error_cmd8 : ℕ
sd_card_error_cmd8 = 0x2

abbrev pub sd_card_error_cmd17 : ℕ
sd_card_error_cmd17 = 0x3

abbrev pub sd_card_error_cmd24 : ℕ
sd_card_error_cmd24 = 0x4

abbrev pub sd_card_error_cmd58 : ℕ
sd_card_error_cmd58 = 0x06

abbrev pub sd_card_error_acmd41 : ℕ
sd_card_error_acmd41 = 0x08

abbrev pub sd_card_error_bad_csd : ℕ
sd_card_error_bad_csd = 0x09

abbrev pub sd_card_error_erase : ℕ
sd_card_error_erase = 0x0a

abbrev pub sd_card_error_erase_single_block : ℕ
sd_card_error_erase_single_block = 0x0b

abbrev pub sd_card_error_erase_timeout : ℕ
sd_card_error_erase_timeout = 0x0c

abbrev pub sd_card_error_read : ℕ
sd_card_error_read = 0x0d

abbrev pub sd_card_error_read_reg : ℕ
sd_card_error_read_reg = 0x0e

abbrev pub sd_card_error_read_timeout : ℕ
sd_card_error_read_timeout = 0x0f

abbrev pub sd_card_error_write : ℕ
sd_card_error_write = 0x11

abbrev pub sd_card_error_write_programming : ℕ
sd_card_error_write_programming = 0x14

abbrev pub sd_card_error_write_timeout : ℕ
sd_card_error_write_timeout = 0x15

abbrev pub sd_card_error_general : ℕ
sd_card_error_general = 0x17

abbrev pub sd_card_type_sd1 : ℕ
sd_card_type_sd1 = 1

abbrev pub sd_card_type_sd2 : ℕ
sd_card_type_sd2 = 2

abbrev pub sd_card_type_sdhc : ℕ
sd_card_type_sdhc = 3

abbrev pub sd_raw_read_timeout : ℕ
sd_raw_read_timeout = 300

abbrev pub data_start_block : ℕ
data_start_block = 0xfe
