-- ===== src/Flash/Erase.antt =====
-- Erasing a block, seen through sectors and spare areas.
use flog_fs.Base.{ℕ, ◌+◌, ◌*◌, ◌%◌, ◌≤◌, ◌<◌, ◌≡◌, ◌≢◌, refl, ap, ◌∙◌, arith}
use flog_fs.Bytes.{fill}
use flog_fs.Structs.{success, erase_char, spare_size}
use flog_fs.Flash.{
  Chip, get_offset, sectors_per_block, fs_sector_size, fs_sectors_per_page, spare_offset,
  flash_erase_block,
}
use flog_fs.Flash.Address.{IsGeometry, page_size, flat}
use flog_fs.Flash.Frame.{load_bytes-fill_ne, fill_self}
use flog_fs.Run.{ok}
use flog_fs.Flash.Access.{
  sector_at, spare_at, sector_range, spare_range, get_offset-address, get_offset-spare,
}

flash_erase_block-ok :
    (blocks : ℕ) (c c' : Chip) (block : ℕ)
    → IsGeometry c.pages_per_block blocks
    → block < blocks
    → flash_erase_block block c ≡ ok success c'
    → c' ≡ record c {
      mapped =
          fill c.mapped
            (flat c.pages_per_block block 0 0)
            erase_char
            (c.pages_per_block * page_size);
    }
unfolding flash_erase_block
flash_erase_block-ok blocks c c' block geometry h e =
    let pages = c.pages_per_block in
    let row : block * pages + pages ≤ blocks * pages = grind arith in
    let start : get_offset pages block 0 0 0 ≡ flat pages block 0 0 = omega arith in
    let size : sectors_per_block pages * fs_sector_size ≡ pages * page_size = omega arith in
    let whole = λ (a n : ℕ). record c { mapped = fill c.mapped a erase_char n } in
    injective e
    ∙ ap (λ a. whole a (sectors_per_block pages * fs_sector_size)) start
    ∙ ap (whole (flat pages block 0 0)) size
  where
    injective : {x y : Chip} → ok success x ≡ ok success y → y ≡ x
    injective p = cc

module _ (blocks : ℕ) (c c' : Chip) (block : ℕ) (geometry : IsGeometry c.pages_per_block blocks)
    (h : block < blocks) (e : flash_erase_block block c ≡ ok success c') where
  -- Erasing a block keeps the data and the spare areas of every other block, whatever page is open.
  pub flash_erase_block-others :
      (b p s o n : ℕ)
      → b < blocks
      → p < c.pages_per_block
      → o + n ≤ fs_sector_size
      → b ≢ block
      → (sector_at c' b p s o n ≡ sector_at c b p s o n) × (spare_at c' b p s ≡ spare_at c b p s)
  flash_erase_block-others b p s o n hb hp inside other =
      let pages = c.pages_per_block in
      let k = s % fs_sectors_per_page in
      let x = spare_offset s in
      rw (flash_erase_block-ok blocks c c' block geometry h e) (
        rw (get_offset-address geometry b p k o hb hp (omega arith)) (
            load_bytes-fill_ne pages block erase_char c.mapped (sector_range b p s o n)
              (record { page_in = hp; bytes_in = omega arith }) other),
        rw (get_offset-spare geometry b p x hb hp (omega arith)) (
            load_bytes-fill_ne pages block erase_char c.mapped (spare_range b p s)
              (record { page_in = hp; bytes_in = omega arith }) other),
      )

  -- After a block has been erased, every byte of its sectors is erased.
  pub flash_erase_block-sectors :
      (p s o i : ℕ)
      → p < c.pages_per_block
      → o + i < fs_sector_size
      → c'.mapped (get_offset c'.pages_per_block block p (s % fs_sectors_per_page) o + i)
        ≡ erase_char
  flash_erase_block-sectors p s o i hp inside =
      rw
        (
          flash_erase_block-ok blocks c c' block geometry h e,
          get_offset-address geometry block p (s % fs_sectors_per_page) o h hp (omega arith),
        )
        (fill_self c.pages_per_block block erase_char c.mapped (sector_range block p s o (i + 1))
          (record { page_in = hp; bytes_in = omega arith }) refl _ (omega arith) (omega arith))

  -- After a block has been erased, every byte of its spare areas is erased.
  pub flash_erase_block-spares :
      (p s i : ℕ)
      → p < c.pages_per_block
      → i < spare_size
      → c'.mapped (get_offset c'.pages_per_block block p 0 (spare_offset s) + i) ≡ erase_char
  flash_erase_block-spares p s i hp inside =
      rw
        (
          flash_erase_block-ok blocks c c' block geometry h e,
          get_offset-spare geometry block p (spare_offset s) h hp (omega arith),
        )
        (fill_self c.pages_per_block block erase_char c.mapped (spare_range block p s)
          (record { page_in = hp; bytes_in = omega arith }) refl _ (omega arith) (omega arith))
