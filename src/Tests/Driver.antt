-- ===== src/Tests/Driver.antt =====
-- The theorems on the flash driver, at a chip of four blocks of two pages.
use flog_fs.Base.{ℕ, ◌+◌, ◌*◌, ◌<◌, ◌≡◌, ◌≤◌, ◌≢◌, ◌↔◌, refl, inl, arith, List, [], ◌∷◌}
use flog_fs.Bytes.{store_bytes, fill}
use flog_fs.Structs.{success, erase_char}
use flog_fs.Flash.{
  Chip, get_offset, mapped_sector_ptr, spare_offset, flash_write_sector, flash_write_spare,
  flash_erase_block, verified_memcpy,
}
use flog_fs.Flash.Address.{IsPlace, get_offset-injective}
use flog_fs.Flash.Access.{
  IsOpen, sector_at, spare_at, verified_memcpy_iff, sector_at-flash_write_sector,
}
use flog_fs.Flash.Erase.{flash_erase_block-others, flash_erase_block-sectors}
use flog_fs.Run.{ok, panic}

abbrev blank_chip : Chip
blank_chip = record {
  mapped = λ _. 0xff;
  open_block = 1;
  open_page = 1;
  pages_per_block = 2;
  random = λ i. i;
  draws = 0;
}

abbrev payload : List ℕ
payload = 7 ∷ 8 ∷ []

abbrev marks : List ℕ
marks = 2 ∷ 0 ∷ 5 ∷ 0 ∷ []

abbrev written : Chip
unfolding store_bytes mapped_sector_ptr
written = record blank_chip {
  mapped = store_bytes blank_chip.mapped (mapped_sector_ptr blank_chip 1 3) payload;
}

abbrev marked : Chip
unfolding store_bytes mapped_sector_ptr
marked = record blank_chip {
  mapped = store_bytes blank_chip.mapped (mapped_sector_ptr blank_chip 0 (spare_offset 5)) marks;
}

abbrev wiped : Chip
unfolding fill get_offset
wiped = record written { mapped = fill written.mapped (get_offset 2 1 0 0 0) erase_char 5120 }

written_lem : flash_write_sector payload 5 3 blank_chip ≡ ok tt written
unfolding flash_write_sector
written_lem = refl

marked_lem : flash_write_spare marks 5 blank_chip ≡ ok tt marked
unfolding flash_write_spare
marked_lem = refl

wiped_lem : flash_erase_block 1 written ≡ ok success wiped
unfolding flash_erase_block written
wiped_lem = refl

opened : IsOpen 4 blank_chip
opened = record { geometry = omega arith; block_in = omega arith; page_in = omega arith }

place : IsPlace 2 4 1 1 515
place = record { block_in = omega arith; page_in = omega arith; byte_in = omega arith }

same_address : get_offset 2 1 1 1 3 ≡ get_offset 2 1 1 0 515
unfolding get_offset
same_address = refl

get_offset-injective_example : (◌≡◌ {A = ℕ} 1 1) × (◌≡◌ {A = ℕ} 1 1) × (1 * 512 + 3 ≡ 0 * 512 + 515)
get_offset-injective_example =
    get_offset-injective 2 4 1 1 1 3 1 1 0 515 (omega arith) place place same_address

verified_memcpy_iff_example :
    (verified_memcpy 10 payload blank_chip ≢ panic)
    ↔ ((x : ℕ) → 10 ≤ x → x < 12 → 0xff ≡ erase_char)
verified_memcpy_iff_example = verified_memcpy_iff 10 payload blank_chip

sector_at-flash_write_sector_example :
    sector_at written 1 1 5 5 10 ≡ sector_at blank_chip 1 1 5 5 10
sector_at-flash_write_sector_example =
    sector_at-flash_write_sector opened payload 5 3 written 1 1 5 5 10 (omega arith) written_lem
      (omega arith) (omega arith) (omega arith) (λ _ _ _. inl (omega arith))

flash_erase_block-others_example :
    (sector_at wiped 2 1 5 3 2 ≡ sector_at written 2 1 5 3 2)
    × (spare_at wiped 2 1 5 ≡ spare_at written 2 1 5)
unfolding written
flash_erase_block-others_example =
    flash_erase_block-others 4 written wiped 1 opened.geometry (omega arith) wiped_lem 2 1 5 3 2
      (omega arith) (omega arith) (omega arith) (omega arith)

flash_erase_block-sectors_example : wiped.mapped (get_offset 2 1 1 1 3 + 1) ≡ erase_char
unfolding written wiped
flash_erase_block-sectors_example =
    flash_erase_block-sectors 4 written wiped 1 opened.geometry (omega arith) wiped_lem 1 5 3 1
      (omega arith) (omega arith)
