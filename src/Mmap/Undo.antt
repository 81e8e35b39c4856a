-- ===== src/Mmap/Undo.antt =====
-- Undoing what the log of backends/linux-mmap/debug_log.h has recorded with copies.
use native.Mathlib.Decide.{dec_lt}
use flog_fs.Base.{
  ℕ, ◌+◌, ◌%◌, ◌<◌, ◌≤◌, ◌≡◌, ◌∙◌, refl, sym, ap, fun_ext, true, List, [], ◌∷◌, ◌++◌, length, arith,
  inl, inr, subst, Bool, none,
}
use flog_fs.Bytes.{Mem, load_bytes, store_bytes}
use flog_fs.Bytes.RoundTrip.{
  store_bytes-before, store_bytes-after, store_bytes-load_bytes, length-load_bytes,
}
use flog_fs.Structs.{erase_char}
use flog_fs.Flash
use flog_fs.Flash.{Chip, fs_sectors_per_page, mapped_sector_ptr, spare_offset}
use flog_fs.Flash.Wrote.{Wrote, verified_memcpy-Wrote}
use flog_fs.Mmap.{
  LogEntry, Mmap, log_entry, write_entry, write_sector, write_spare, erase_block, undo, append,
  on_chip, add_entry, flash_erase_block, flash_write_sector, flash_write_spare,
}
use flog_fs.Mmap.Logged.{append_lem, recorded}
use flog_fs.Run.{ok, panic, Cmd, ◌>>◌}
use flog_fs.Run.Returns
use flog_fs.Run.Returns.{Returns, returns}

-- The bytes that a write goes to are erased.
abbrev pub IsBlank : Chip → ℕ → ℕ → Type 0
IsBlank c at n = (x : ℕ) → at ≤ x → x < at + n → c.mapped x ≡ erase_char

-- The entry that an operation has added to the log.
pub record Entered (s s' : Mmap) (entry : LogEntry) : Type 0 where
  pub added : s'.log.entries ≡ s.log.entries ++ (entry ∷ [])

-- Undoing the last entry gives the memory back as it was.
pub record Undoable (s s' : Mmap) : Type 0 where
  pub entry : LogEntry
  pub entered : Entered s s' entry
  pub restored : undo entry s'.chip.mapped ≡ ok tt s.chip.mapped

-- Undoing the last entry does nothing, and what was written stays.
pub record Stuck (at : ℕ) (src : List ℕ) (s s' : Mmap) : Type 0 where
  pub entry : LogEntry
  pub entered : Entered s s' entry
  pub nothing : undo entry s'.chip.mapped ≡ ok tt s'.chip.mapped
  pub still : load_bytes s'.chip.mapped at (length src) ≡ src

-- Undoing the last entry fails an assertion.
pub record Failing (s s' : Mmap) : Type 0 where
  pub entry : LogEntry
  pub entered : Entered s s' entry
  pub fails : (m : Mem) → undo entry m ≡ panic

-- The bytes that were kept, stored over what was written there, are the memory of before.
store_bytes-Wrote :
    (c c' : Chip) (at : ℕ) (src : List ℕ)
    → Wrote c at src c'
    → store_bytes c'.mapped at (load_bytes c.mapped at (length src)) ≡ c.mapped
store_bytes-Wrote c c' at src w =
    let old = load_bytes c.mapped at (length src) in
    let size : length old ≡ length src = length-load_bytes c.mapped at (length src) in
    fun_ext λ x. elim (dec_lt x at) [
      | yes below ↦ store_bytes-before c'.mapped at old x below ∙ w.outside x (inl below)
      | no above ↦ elim (dec_lt x (at + length src)) [
        | yes inside ↦
            store_bytes-load_bytes c'.mapped c.mapped at (length src) x (omega arith) inside
        | no beyond ↦
            store_bytes-after c'.mapped at old x (omega arith) ∙ w.outside x (inr (omega arith))
      ]
    ]

-- An operation that is logged with copies, as the operation on the chip behind the entry.
logged-Returns :
    {A : Type 0} {P : A → Chip → Type 0} {Q : A → Mmap → Type 0} (e : LogEntry) (s : Mmap)
    (m : Cmd Chip A)
    → e.copy ≡ none
    → s.log.copy_on_write ≡ true
    → Returns P (m s.chip)
    → ((a : A) (c : Chip) → P a c → Q a (record (add_entry (recorded true e s) s) { chip = c }))
    → Returns Q ((append e >> on_chip m) s)
logged-Returns {Q = Q} e s m no_copy copies done next = rw (append_lem e s no_copy) (
    subst (λ (b : Bool). Returns Q (on_chip m (add_entry (recorded b e s) s))) (sym copies)
      (Returns.lifted (λ (t : Mmap) c. record t { chip = c }) (add_entry (recorded true e s) s) done
        next))

-- With copies on, undoing the entry of a write to erased bytes of a sector gives the memory back as
-- it was before.
pub flash_write_sector-Undoable :
    (src : List ℕ) (sector offset : ℕ) (s : Mmap)
    → s.log.copy_on_write ≡ true
    → IsBlank s.chip (mapped_sector_ptr s.chip (sector % fs_sectors_per_page) offset) (length src)
    → Returns (λ _ s'. Undoable s s') (flash_write_sector src sector offset s)
unfolding flash_write_sector Flash.flash_write_sector undo
flash_write_sector-Undoable src sector offset s copies blank =
    let at = mapped_sector_ptr s.chip (sector % fs_sectors_per_page) offset in
    logged-Returns (write_entry write_sector s.chip sector at offset (length src)) s
      (Flash.flash_write_sector src sector offset) refl copies
      (verified_memcpy-Wrote at src s.chip blank)
      (λ _ c w. record {
        entry = _;
        entered = record { added = refl };
        restored = ap (ok tt) (store_bytes-Wrote s.chip c at src w);
      })

flash_write_spare-Stuck :
    (src : List ℕ) (sector : ℕ) (s : Mmap)
    → s.log.copy_on_write ≡ true
    → IsBlank s.chip (mapped_sector_ptr s.chip 0 (spare_offset sector)) (length src)
    → Returns
        (λ _ s'. Stuck (mapped_sector_ptr s.chip 0 (spare_offset sector)) src s s')
        (flash_write_spare src sector s)
unfolding flash_write_spare Flash.flash_write_spare undo load_bytes store_bytes
flash_write_spare-Stuck src sector s copies blank =
    let at = mapped_sector_ptr s.chip 0 (spare_offset sector) in
    logged-Returns (write_entry write_spare s.chip sector at 0 0) s
      (Flash.flash_write_spare src sector) refl copies (verified_memcpy-Wrote at src s.chip blank)
      (λ _ c w. record {
        entry = _;
        entered = record { added = refl };
        nothing = refl;
        still = w.inside;
      })

flash_erase_block-Failing :
    (block : ℕ) (s : Mmap)
    → s.log.copy_on_write ≡ true
    → Returns (λ _ s'. Failing s s') (flash_erase_block block s)
unfolding flash_erase_block Flash.flash_erase_block undo
flash_erase_block-Failing block s copies =
    logged-Returns {P = λ _ _. Unit {0}} (record (log_entry erase_block) { block = block }) s
      (Flash.flash_erase_block block) refl copies (returns tt)
      (λ _ c _. record { entry = _; entered = record { added = refl }; fails = λ m. refl })

-- Even with copies on, undoing the entry of a write to the erased bytes of a spare area does nothing,
-- and what was written stays, and undoing the entry of an erased block fails an assertion.
pub undo_incomplete :
    (src : List ℕ) (sector block : ℕ) (s : Mmap)
    → s.log.copy_on_write ≡ true
    → IsBlank s.chip (mapped_sector_ptr s.chip 0 (spare_offset sector)) (length src)
    → Returns
        (λ _ s'. Stuck (mapped_sector_ptr s.chip 0 (spare_offset sector)) src s s')
        (flash_write_spare src sector s)
      × Returns (λ _ s'. Failing s s') (flash_erase_block block s)
undo_incomplete src sector block s copies blank =
    (flash_write_spare-Stuck src sector s copies blank, flash_erase_block-Failing block s copies)
