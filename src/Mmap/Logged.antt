-- ===== src/Mmap/Logged.antt =====
-- The log of the mapped backend beside the driver, backends/linux-mmap/flogfs_linux_mmap.cpp.
use flog_fs.Base.{
  ℕ, ◌%◌, ◌≡◌, refl, sym, subst, ap, Bool, true, false, Option, none, some, List, length,
  if◌then◌else◌,
}
use flog_fs.Bytes.{load_bytes}
use flog_fs.Flash
use flog_fs.Flash.{Chip, fs_sectors_per_page, mapped_sector_ptr, spare_offset}
use flog_fs.Mmap.{
  LogEntry, Mmap, log_entry, write_entry, write_sector, write_spare, erase_block, prime_begin,
  prime_end, format_begin, format_end, backup, append, add_entry, on_chip, on_memory,
  flash_erase_block, flash_write_sector, flash_write_spare, HighLevelEvent, prime_begins,
  prime_ends, format_begins, format_ends, flash_high_level,
}
use flog_fs.Run.{pure, ◌>>=◌, ◌>>◌, modify, Run, ok, panic, out_of_fuel, Cmd, lift}

-- A run, seen from the chip.
pub forget : {A : Type 0} → Run Mmap A → Run Chip A
forget (ok a s) = ok a s.chip
forget panic = panic
forget out_of_fuel = out_of_fuel

forget-on_chip :
    {A : Type 0} (s : Mmap) (r : Run Chip A)
    → forget (lift (λ (t : Mmap) c. record t { chip = c }) r s) ≡ r
unfolding forget
forget-on_chip s (ok a c) = refl
forget-on_chip s panic = refl
forget-on_chip s out_of_fuel = refl

-- The entry as the log keeps it, with or without copies.
abbrev pub recorded : Bool → LogEntry → Mmap → LogEntry
unfolding load_bytes
recorded false e s = e
recorded true e s = elim e.ptr [
  | none ↦ e
  | some ptr ↦ record e { copy = some (load_bytes s.chip.mapped ptr e.size) }
]

record_entry :
    (b : Bool) (e : LogEntry) (ptr : Option ℕ) (s : Mmap)
    → let fresh : LogEntry = record e { ptr = ptr; copy = none } in
      ((if b then on_memory (backup fresh) else pure fresh) >>= λ e. modify (add_entry e)) s
      ≡ ok tt (add_entry (recorded b fresh s) s)
unfolding backup
record_entry true e none s = refl
record_entry true e (some ptr) s = refl
record_entry false e ptr s = refl

-- A new entry is always logged, and nothing else changes.
pub append_lem :
    (e : LogEntry) (s : Mmap)
    → e.copy ≡ none
    → append e s ≡ ok tt (add_entry (recorded s.log.copy_on_write e s) s)
unfolding append
append_lem e s no_copy =
    subst
      (λ (copy : Option (List ℕ)).
        let e' : LogEntry = record e { copy = copy } in
        append e' s ≡ ok tt (add_entry (recorded s.log.copy_on_write e' s) s))
      (sym no_copy) (record_entry s.log.copy_on_write e e.ptr s)

-- What follows an entry in the log acts on the chip as if there were none.
logged :
    {A : Type 0} (e : LogEntry) (s : Mmap) (m : Cmd Chip A)
    → e.copy ≡ none
    → forget ((append e >> on_chip m) s) ≡ m s.chip
logged e s m no_copy =
    rw (append_lem e s no_copy)
      (forget-on_chip (add_entry (recorded s.log.copy_on_write e s) s) (m s.chip))

module _ (s : Mmap) where
  flash_write_sector-logged :
      (src : List ℕ) (sector offset : ℕ)
      → forget (flash_write_sector src sector offset s)
        ≡ Flash.flash_write_sector src sector offset s.chip
  unfolding flash_write_sector mapped_sector_ptr
  flash_write_sector-logged src sector offset =
      logged
        (write_entry write_sector s.chip sector
          (mapped_sector_ptr s.chip (sector % fs_sectors_per_page) offset) offset (length src))
        s (Flash.flash_write_sector src sector offset) refl

  flash_write_spare-logged :
      (src : List ℕ) (sector : ℕ)
      → forget (flash_write_spare src sector s) ≡ Flash.flash_write_spare src sector s.chip
  unfolding flash_write_spare mapped_sector_ptr
  flash_write_spare-logged src sector =
      logged
        (write_entry write_spare s.chip sector (mapped_sector_ptr s.chip 0 (spare_offset sector)) 0
          0)
        s (Flash.flash_write_spare src sector) refl

  flash_erase_block-logged :
      (block : ℕ) → forget (flash_erase_block block s) ≡ Flash.flash_erase_block block s.chip
  unfolding flash_erase_block
  flash_erase_block-logged block =
      logged (record (log_entry erase_block) { block = block }) s (Flash.flash_erase_block block)
        refl

  flash_high_level-logged :
      (event : HighLevelEvent) → forget (flash_high_level event s) ≡ ok tt s.chip
  unfolding flash_high_level forget
  flash_high_level-logged prime_begins = ap forget (append_lem (log_entry prime_begin) s refl)
  flash_high_level-logged prime_ends = ap forget (append_lem (log_entry prime_end) s refl)
  flash_high_level-logged format_begins = ap forget (append_lem (log_entry format_begin) s refl)
  flash_high_level-logged format_ends = ap forget (append_lem (log_entry format_end) s refl)

-- What the operations that are logged do to the chip.
pub record IsLogged (s : Mmap) : Type 0 where
  pub sector :
      (src : List ℕ) (sector offset : ℕ)
      → forget (flash_write_sector src sector offset s)
        ≡ Flash.flash_write_sector src sector offset s.chip
  pub spare :
      (src : List ℕ) (sector : ℕ)
      → forget (flash_write_spare src sector s) ≡ Flash.flash_write_spare src sector s.chip
  pub erase :
      (block : ℕ) → forget (flash_erase_block block s) ≡ Flash.flash_erase_block block s.chip
  pub event : (event : HighLevelEvent) → forget (flash_high_level event s) ≡ ok tt s.chip

-- Seen from the chip, a logged erase, write to a sector and write to a spare area are those of the
-- driver, assertions included, and a high-level event is nothing, whatever the log holds and keeps.
pub flash_driver-IsLogged : (s : Mmap) → IsLogged s
flash_driver-IsLogged s = record {
  sector = flash_write_sector-logged s;
  spare = flash_write_spare-logged s;
  erase = flash_erase_block-logged s;
  event = flash_high_level-logged s;
}
