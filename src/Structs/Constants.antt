-- ===== src/Structs/Constants.antt =====
-- Constants and enumerations of src/flogfs_private.h and src/flogfs.h, as the build without
-- FLOGFS_ERASE_ZERO has them.
use flog_fs.Base.{ℕ, Bool, true, false}

pub data FlogResult : Type 0 where
  failure success : FlogResult

-- A result used as a condition.
abbrev pub succeeded : FlogResult → Bool
succeeded failure = false
succeeded success = true

-- FLOG_RESULT
abbrev pub flog_result : Bool → FlogResult
flog_result true = success
flog_result false = failure

pub data FlogState : Type 0 where
  reset mounted : FlogState

abbrev pub is_mounted : FlogState → Bool
is_mounted reset = false
is_mounted mounted = true

abbrev pub max_fname_len : ℕ
max_fname_len = 32

abbrev pub erase_char : ℕ
erase_char = 0xff

-- flog_block_type_t
abbrev pub block_type_error : ℕ
block_type_error = 0

abbrev pub block_type_unallocated : ℕ
block_type_unallocated = 0xff

abbrev pub block_type_inode : ℕ
block_type_inode = 1

abbrev pub block_type_file : ℕ
block_type_file = 2

-- The values of erased fields; each is also the invalid value of its type.
abbrev pub block_idx_invalid : ℕ
block_idx_invalid = 0xffff

abbrev pub block_age_invalid : ℕ
block_age_invalid = 0xffff_ffff

abbrev pub file_id_erased : ℕ
file_id_erased = 0xffff_ffff

abbrev pub timestamp_erased : ℕ
timestamp_erased = 0xffff_ffff

abbrev pub sector_nbytes_erased : ℕ
sector_nbytes_erased = 0xffff

abbrev pub sector_type_id_erased : ℕ
sector_type_id_erased = 0xff

abbrev pub fs_first_block : ℕ
fs_first_block = 0

-- flog_sector_special_idx_t
abbrev pub statistics_sector : ℕ
statistics_sector = 0

abbrev pub init_sector : ℕ
init_sector = 1

abbrev pub tail_sector : ℕ
tail_sector = 3

abbrev pub inode_first_entry_sector : ℕ
inode_first_entry_sector = 4

-- flog_block_statistics_key, "Bears" with its terminator, as the integer of its six bytes
abbrev pub block_statistics_key : ℕ
block_statistics_key = 0x0073_7261_6542
