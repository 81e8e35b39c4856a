-- ===== src/Write/Untouched.antt =====
-- Writing to the flash keeps what depends on the dirty block and the files open for writing only.
use flog_fs.Base.{ℕ, List}
use flog_fs.Structs.{SectorSpare}
use flog_fs.Fs.{WriteFile, DirtyBlock}
use flog_fs.Fs.Untouched.{On, on_chip-On, flog_open_sector-On}
use flog_fs.Write.{write_file_sector, get_file}
use flog_fs.Run.Keeps.{holds, Keeps, keeps_rules}

module _ (P : DirtyBlock → (ℕ → WriteFile) → Type 0) where
  pub get_file-On : (file : ℕ) → Keeps (On P) (get_file file)
  get_file-On file = record { at = λ s h. holds h }

  pub write_file_sector-On :
      (f : WriteFile) (bytes : List ℕ) (spare : SectorSpare)
      → Keeps (On P) (write_file_sector f bytes spare)
  unfolding write_file_sector
  write_file_sector-On f bytes spare =
      search (keeps_rules, on_chip-On, flog_open_sector-On) depth 20
