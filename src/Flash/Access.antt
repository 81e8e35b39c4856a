-- ===== src/Flash/Access.antt =====
-- The writes of the flash driver, seen through sectors and spare areas.
use native.Mathlib.Decide.{ℕ_discrete}
use flog_fs.Base.{
  ℕ, ◌+◌, ◌*◌, ◌%◌, ◌≤◌, ◌<◌, ◌≡◌, ◌≢◌, ◌⊎◌, ◌↔◌, refl, sym, ap, List, length, arith,
}
use flog_fs.Bytes.{load_bytes, store_bytes}
use flog_fs.Bytes.RoundTrip.{load_bytes-store_bytes, all_equal_iff}
use flog_fs.Structs.{erase_char, spare_size}
use flog_fs.Flash.{
  Chip, get_offset, mapped_sector_ptr, fs_sector_size, fs_sectors_per_page, spare_offset,
  verified_memcpy, flash_read_sector, flash_read_spare, flash_write_sector, flash_write_spare,
}
use flog_fs.Flash.Address.{IsGeometry, page_size, flat}
use flog_fs.Flash.Frame.{Range, range, InPage, Apart, load_bytes-frame}
use flog_fs.Run.{ok, panic}

-- Bytes of a sector, and a spare area, of any page.
abbrev pub sector_at : Chip → (block page sector offset n : ℕ) → List ℕ
sector_at c block page sector offset n =
    load_bytes c.mapped
      (get_offset c.pages_per_block block page (sector % fs_sectors_per_page) offset) n

abbrev pub spare_at : Chip → (block page sector : ℕ) → List ℕ
spare_at c block page sector =
    load_bytes c.mapped (get_offset c.pages_per_block block page 0 (spare_offset sector)) spare_size

-- A chip of `blocks` blocks with one of its pages open.
pub record IsOpen (blocks : ℕ) (c : Chip) : Type 0 where
  pub geometry : IsGeometry c.pages_per_block blocks
  pub block_in : c.open_block < blocks
  pub page_in : c.open_page < c.pages_per_block

-- The two kinds of ranges that the driver accesses.
abbrev pub sector_range : (block page sector offset n : ℕ) → Range
sector_range b p s o n = range b p ((s % fs_sectors_per_page) * fs_sector_size + o) n

abbrev pub spare_range : (block page sector : ℕ) → Range
spare_range b p s = range b p (spare_offset s) spare_size

module _ {pages blocks : ℕ} (geometry : IsGeometry pages blocks) where
  pub get_offset-address :
      (b p s o : ℕ)
      → b < blocks
      → p < pages
      → s * fs_sector_size + o ≤ page_size
      → get_offset pages b p s o ≡ flat pages b p (s * fs_sector_size + o)
  unfolding get_offset
  get_offset-address b p s o hb hp hx =
      let row : b * pages + p < blocks * pages = grind arith in omega arith

  pub get_offset-spare :
      (b p x : ℕ)
      → b < blocks
      → p < pages
      → x ≤ page_size
      → get_offset pages b p 0 x ≡ flat pages b p x
  get_offset-spare b p x hb hp hx = omega (arith, get_offset-address b p 0 x hb hp (omega arith))

verified_memcpy-ok :
    (dst : ℕ) (src : List ℕ) (c c' : Chip)
    → verified_memcpy dst src c ≡ ok tt c'
    → c' ≡ record c { mapped = store_bytes c.mapped dst src }
unfolding verified_memcpy
verified_memcpy-ok dst src c c' h = ground arith

-- A write succeeds exactly if every byte that it goes to is erased, and else the assertion fails.
pub verified_memcpy_iff :
    (dst : ℕ) (src : List ℕ) (c : Chip)
    → (verified_memcpy dst src c ≢ panic)
      ↔ ((x : ℕ) → dst ≤ x → x < dst + length src → c.mapped x ≡ erase_char)
unfolding verified_memcpy
verified_memcpy_iff dst src c = (
  λ h. (all_equal_iff erase_char c.mapped dst (length src)).0 (ground arith),
  λ h. let e = (all_equal_iff erase_char c.mapped dst (length src)).1 h in ground arith,
)

module _ {blocks : ℕ} {c : Chip} (open_page : IsOpen blocks c) where
  -- A store into a range of the open page keeps every range that is apart from it.
  store-frame :
      (bs : List ℕ) (k o : ℕ) (q : Range) (s' o' : ℕ)
      → k * fs_sector_size + o + length bs ≤ page_size
      → InPage c.pages_per_block q
      → q.block < blocks
      → q.start ≡ s' * fs_sector_size + o'
      → Apart (range c.open_block c.open_page (k * fs_sector_size + o) (length bs)) q
      → load_bytes
          (store_bytes c.mapped (mapped_sector_ptr c k o) bs)
          (get_offset c.pages_per_block q.block q.page s' o')
          q.size
        ≡ load_bytes c.mapped (get_offset c.pages_per_block q.block q.page s' o') q.size
  unfolding mapped_sector_ptr
  store-frame bs k o q s' o' fits hq hb e apart =
      rw
        (
          get_offset-address open_page.geometry c.open_block c.open_page k o open_page.block_in
              open_page.page_in (omega arith),
          get_offset-address open_page.geometry q.block q.page s' o' hb hq.page_in (omega arith),
          ← e,
        )
        (load_bytes-frame c.pages_per_block
          (range c.open_block c.open_page (k * fs_sector_size + o) (length bs)) q c.mapped bs
          (record { page_in = open_page.page_in; bytes_in = fits }) hq apart refl)

  -- A write to a sector, if it succeeds, can be read back.
  pub flash_read_sector-flash_write_sector :
      (bs : List ℕ) (s o : ℕ) (c' : Chip)
      → flash_write_sector bs s o c ≡ ok tt c'
      → flash_read_sector s o (length bs) c' ≡ ok bs c'
  unfolding flash_write_sector flash_read_sector
  flash_read_sector-flash_write_sector bs s o c' h =
      let k = s % fs_sectors_per_page in
      let d : Chip = record c { mapped = store_bytes c.mapped (mapped_sector_ptr c k o) bs } in
      rw (verified_memcpy-ok (mapped_sector_ptr c k o) bs c c' h)
        (ap (λ l. ok l d) (load_bytes-store_bytes c.mapped (mapped_sector_ptr c k o) bs))

  -- A write to a sector, if it succeeds, keeps the bytes of every page's sectors that it does not
  -- write.
  pub sector_at-flash_write_sector :
      (bs : List ℕ) (s o : ℕ) (c' : Chip) (b p s' o' n : ℕ)
      → o + length bs ≤ fs_sector_size
      → flash_write_sector bs s o c ≡ ok tt c'
      → b < blocks
      → p < c.pages_per_block
      → o' + n ≤ fs_sector_size
      → (b ≡ c.open_block
          → p ≡ c.open_page
          → s' % fs_sectors_per_page ≡ s % fs_sectors_per_page
          → (o + length bs ≤ o') ⊎ (o' + n ≤ o))
      → sector_at c' b p s' o' n ≡ sector_at c b p s' o' n
  unfolding flash_write_sector
  sector_at-flash_write_sector bs s o c' b p s' o' n fits h hb hp inside apart =
      let k = s % fs_sectors_per_page in
      rw (verified_memcpy-ok (mapped_sector_ptr c k o) bs c c' h) (
        store-frame bs k o (sector_range b p s' o' n) (s' % fs_sectors_per_page) o' (omega arith)
          (record { page_in = hp; bytes_in = omega arith }) hb refl
          (λ e₁ e₂. elim (ℕ_discrete (s' % fs_sectors_per_page) k) [
            | yes same ↦ let far = apart (sym e₁) (sym e₂) same in omega arith
            | no other ↦ omega arith
          ]))

  -- A write to a sector, if it succeeds, keeps every spare area.
  pub spare_at-flash_write_sector :
      (bs : List ℕ) (s o : ℕ) (c' : Chip) (b p s' : ℕ)
      → o + length bs ≤ fs_sector_size
      → flash_write_sector bs s o c ≡ ok tt c'
      → b < blocks
      → p < c.pages_per_block
      → spare_at c' b p s' ≡ spare_at c b p s'
  unfolding flash_write_sector
  spare_at-flash_write_sector bs s o c' b p s' fits h hb hp =
      let k = s % fs_sectors_per_page in
      rw (verified_memcpy-ok (mapped_sector_ptr c k o) bs c c' h) (
        store-frame bs k o (spare_range b p s') 0 (spare_offset s') (omega arith)
          (record { page_in = hp; bytes_in = omega arith }) hb (omega arith) (λ _ _. omega arith))

  -- A write to a spare area, if it succeeds, can be read back.
  pub flash_read_spare-flash_write_spare :
      (bs : List ℕ) (s : ℕ) (c' : Chip)
      → length bs ≡ spare_size
      → flash_write_spare bs s c ≡ ok tt c'
      → flash_read_spare s c' ≡ ok bs c'
  unfolding flash_write_spare flash_read_spare
  flash_read_spare-flash_write_spare bs s c' four h =
      let at = mapped_sector_ptr c 0 (spare_offset s) in
      let d : Chip = record c { mapped = store_bytes c.mapped at bs } in
      rw (verified_memcpy-ok (mapped_sector_ptr c 0 (spare_offset s)) bs c c' h) (
        ap (λ l. ok l d)
          (rw four at
            (load_bytes-store_bytes c.mapped (mapped_sector_ptr c 0 (spare_offset s)) bs)))

  -- A write to a spare area, if it succeeds, keeps every other spare area.
  pub spare_at-flash_write_spare :
      (bs : List ℕ) (s : ℕ) (c' : Chip) (b p s' : ℕ)
      → length bs ≡ spare_size
      → flash_write_spare bs s c ≡ ok tt c'
      → b < blocks
      → p < c.pages_per_block
      → ¬ (
          (b ≡ c.open_block)
          × (p ≡ c.open_page)
          × (s' % fs_sectors_per_page ≡ s % fs_sectors_per_page))
      → spare_at c' b p s' ≡ spare_at c b p s'
  unfolding flash_write_spare
  spare_at-flash_write_spare bs s c' b p s' four h hb hp apart =
      rw (verified_memcpy-ok (mapped_sector_ptr c 0 (spare_offset s)) bs c c' h) (
        store-frame bs 0 (spare_offset s) (spare_range b p s') 0 (spare_offset s') (omega arith)
          (record { page_in = hp; bytes_in = omega arith }) hb (omega arith)
          (λ e₁ e₂.
            let far = λ (e : s' % fs_sectors_per_page ≡ s % fs_sectors_per_page).
              apart (sym e₁, sym e₂, e) in
            omega arith))

  -- A write to a spare area, if it succeeds, keeps the data of every sector.
  pub sector_at-flash_write_spare :
      (bs : List ℕ) (s : ℕ) (c' : Chip) (b p s' o' n : ℕ)
      → length bs ≡ spare_size
      → flash_write_spare bs s c ≡ ok tt c'
      → b < blocks
      → p < c.pages_per_block
      → o' + n ≤ fs_sector_size
      → sector_at c' b p s' o' n ≡ sector_at c b p s' o' n
  unfolding flash_write_spare
  sector_at-flash_write_spare bs s c' b p s' o' n four h hb hp inside =
      rw (verified_memcpy-ok (mapped_sector_ptr c 0 (spare_offset s)) bs c c' h) (
        store-frame bs 0 (spare_offset s) (sector_range b p s' o' n) (s' % fs_sectors_per_page) o'
          (omega arith) (record { page_in = hp; bytes_in = omega arith }) hb refl
          (λ _ _. omega arith))
