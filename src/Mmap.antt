-- ===== src/Mmap.antt =====
-- The state of backends/linux-mmap/flogfs_linux_mmap.cpp around the mapped memory: the file that is
-- mapped, and the log of backends/linux-mmap/debug_log.h, which can keep what a write goes over.
-- The calls of the operating system are a parameter, `Os`. `malloc` does not fail here.
pub mod Logged
pub mod Undo
pub mod Session
use flog_fs.Base.{
  ℕ, ◌-◌, ◌*◌, ◌%◌, ◌^◌, Bool, true, false, Option, none, some, List, [], ◌∷◌, ◌++◌, not, length,
  if◌then◌else◌,
}
use flog_fs.Bytes.{Mem, load_bytes, store_bytes}
use flog_fs.Structs.{FlogResult, success, failure, flog_result, block_idx_invalid}
use flog_fs.Flash
use flog_fs.Flash.{
  Chip, fs_sector_size, fs_sectors_per_page, sectors_per_block, mapped_sector_ptr, spare_offset,
}
use flog_fs.Fs.{Params}
use flog_fs.Run.{Cmd, pure, panic, ◌>>=◌, ◌>>◌, fetch, modify, assert, lift}

pub data OperationType : Type 0 where
  opened : OperationType
  erase_block : OperationType
  write_sector : OperationType
  write_spare : OperationType
  format_begin : OperationType
  format_end : OperationType
  prime_begin : OperationType
  prime_end : OperationType

pub record LogEntry : Type 0 where
  pub operation : OperationType
  pub block : ℕ
  pub page : ℕ
  pub sector : ℕ
  pub ptr : Option ℕ
  pub offset : ℕ
  pub size : ℕ
  pub copy : Option (List ℕ)

-- the constructor's defaults
abbrev pub log_entry : OperationType → LogEntry
log_entry operation = record {
  operation = operation;
  block = block_idx_invalid;
  page = 2 ^ 16 - 1;
  sector = 2 ^ 16 - 1;
  ptr = none;
  offset = 0;
  size = 0;
  copy = none;
}

unfoldable pub backup : LogEntry → Cmd Mem LogEntry
unfolding load_bytes
backup e m = elim e.copy [
  | some bytes ↦ panic
  | none ↦ elim e.ptr [
    | none ↦ pure e m
    | some ptr ↦ pure (record e { copy = some (load_bytes m ptr e.size) }) m
  ]
]

unfoldable pub undo : LogEntry → Cmd Mem (Unit {0})
unfolding store_bytes
undo e m = elim e.copy [
  | none ↦ panic
  | some bytes ↦ elim e.ptr [ none ↦ pure tt m | some ptr ↦ pure tt (store_bytes m ptr bytes) ]
]

pub record Log : Type 0 where
  pub copy_on_write : Bool
  pub entries : List LogEntry

-- `mapped` says whether the pointer is set; the memory is that of the chip. No descriptor is -1.
pub record Mmap : Type 0 where
  pub chip : Chip
  pub mapped : Bool
  pub fd : Option ℕ
  pub mapped_size : ℕ
  pub log : Log

abbrev pub on_chip : {A : Type 0} → Cmd Chip A → Cmd Mmap A
on_chip m s = lift (λ (t : Mmap) c. record t { chip = c }) (m s.chip) s

abbrev pub on_memory : {A : Type 0} → Cmd Mem A → Cmd Mmap A
on_memory m s =
    lift (λ (t : Mmap) bytes. record t { chip = record t.chip { mapped = bytes } })
      (m s.chip.mapped) s

abbrev pub add_entry : LogEntry → Mmap → Mmap
add_entry e s = record s { log = record s.log { entries = s.log.entries ++ (e ∷ []) } }

unfoldable pub append : LogEntry → Cmd Mmap (Unit {0})
unfolding backup
append entry = do
  s ← fetch
  e ← if s.log.copy_on_write then on_memory (backup entry) else pure entry
  modify (add_entry e)

unfoldable pub log_size : Log → ℕ
log_size log = length log.entries % 2 ^ 32

unfoldable pub clear : Cmd Mmap (Unit {0})
clear = modify (λ s. record s { log = record s.log { entries = [] } })

unfoldable pub copy_on_write : Bool → Cmd Mmap (Unit {0})
copy_on_write enabled = modify (λ s. record s { log = record s.log { copy_on_write = enabled } })

-- `open` (with O_TRUNC or not), lseek to a size, write of a byte, and mmap, each with what it answers.
pub record Os : Type 0 where
  pub open_file : Bool → Option ℕ
  pub lseek : (fd size : ℕ) → Bool
  pub write : ℕ → Bool
  pub mmap : (size fd : ℕ) → Option Mem

-- Once the file is open.
pub map_file : Os → Params → ℕ → Cmd Mmap FlogResult
unfolding append clear
map_file os params fd = do
  let size =
      fs_sector_size * (sectors_per_block params.pages_per_block * params.number_of_blocks) % 2 ^ 32
  modify (λ s. record s {
    chip = record s.chip { pages_per_block = params.pages_per_block };
    mapped_size = size;
  })
  if not (os.lseek fd size)
      then pure failure
      else if not (os.write fd)
      then pure failure
      else elim (os.mmap size fd) [
        | none ↦ pure failure
        | some bytes ↦ do
          modify (λ s. record s { mapped = true; chip = record s.chip { mapped = bytes } })
          clear
          append (log_entry opened)
          pure success
      ]

unfoldable pub flogfs_linux_open : Os → Bool → Params → Cmd Mmap FlogResult
unfolding map_file
flogfs_linux_open os truncate params = do
  s ← fetch
  assert (elim s.fd [ none ↦ true | some fd ↦ false ])
  assert (not s.mapped)
  let fd = os.open_file truncate
  modify (λ s. record s { fd = fd })
  elim fd [ none ↦ pure failure | some fd ↦ map_file os params fd ]

unfoldable pub flogfs_linux_close : Cmd Mmap FlogResult
flogfs_linux_close = do modify (λ s. record s { mapped = false; fd = none }); pure success

unfoldable pub flash_initialize : Mmap → FlogResult
flash_initialize s = flog_result s.mapped

unfoldable pub flash_erase_block : ℕ → Cmd Mmap FlogResult
unfolding append
flash_erase_block block = do
  append (record (log_entry erase_block) { block = block })
  on_chip (Flash.flash_erase_block block)

-- the entry of a write to the open page
abbrev pub write_entry : OperationType → Chip → (sector ptr offset size : ℕ) → LogEntry
write_entry operation c sector ptr offset size = record {
  operation = operation;
  block = c.open_block;
  page = c.open_page;
  sector = sector;
  ptr = some ptr;
  offset = offset;
  size = size;
  copy = none;
}

unfoldable pub flash_write_sector : List ℕ → (sector offset : ℕ) → Cmd Mmap (Unit {0})
unfolding append mapped_sector_ptr
flash_write_sector src sector offset = do
  s ← fetch
  let dst = mapped_sector_ptr s.chip (sector % fs_sectors_per_page) offset
  append (write_entry write_sector s.chip sector dst offset (length src))
  on_chip (Flash.flash_write_sector src sector offset)

-- The entry has no size.
unfoldable pub flash_write_spare : List ℕ → ℕ → Cmd Mmap (Unit {0})
unfolding append mapped_sector_ptr
flash_write_spare src sector = do
  s ← fetch
  let dst = mapped_sector_ptr s.chip 0 (spare_offset sector)
  append (write_entry write_spare s.chip sector dst 0 0)
  on_chip (Flash.flash_write_spare src sector)

-- flog_high_level_event_t
pub data HighLevelEvent : Type 0 where
  prime_begins : HighLevelEvent
  prime_ends : HighLevelEvent
  format_begins : HighLevelEvent
  format_ends : HighLevelEvent

unfoldable pub flash_high_level : HighLevelEvent → Cmd Mmap (Unit {0})
unfolding append
flash_high_level prime_begins = append (log_entry prime_begin)
flash_high_level prime_ends = append (log_entry prime_end)
flash_high_level format_begins = append (log_entry format_begin)
flash_high_level format_ends = append (log_entry format_end)
