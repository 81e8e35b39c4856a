-- ===== src/Write/Elsewhere.antt =====
-- Which bytes of the flash a commit of src/flogfs.c changes.
use flog_fs.Base.{ℕ, ◌+◌, ◌≤◌, ◌∙◌, ◌/◌, ◌%◌, ◌<◌, ◌≡◌, sym, ap, arith, List}
use flog_fs.Bytes.{load_bytes}
use flog_fs.Bytes.RoundTrip.{load_bytes-cong}
use flog_fs.Structs.{SectorSpare, read_spare}
use flog_fs.Flash.{fs_sector_size, fs_sectors_per_page, spare_offset}
use flog_fs.Flash.Address.{IsGeometry}
use flog_fs.Flash.Frame.{Range, InPage, Apart, address, address-outside}
use flog_fs.Flash.Access.{get_offset-address, get_offset-spare, sector_range, spare_range}
use flog_fs.Fs.{Fs, WriteFile}
use flog_fs.Read.Following.{IsWritten}
use flog_fs.Write.Sector.{Stored, IsErased}

module _ (blocks : ℕ) (f : WriteFile) (new : List ℕ) (spare : SectorSpare) (from s : Fs)
    (geometry : IsGeometry from.chip.pages_per_block blocks) (block_in : f.block < blocks)
    (page_in : f.sector / fs_sectors_per_page < from.chip.pages_per_block)
    (stored : Stored f new spare from s) where
  abbrev own_page : ℕ
  own_page = f.sector / fs_sectors_per_page

  abbrev own_sector : Range
  own_sector = sector_range f.block own_page f.sector 0 fs_sector_size

  abbrev own_spare : Range
  own_spare = spare_range f.block own_page f.sector

  -- The bytes of a range that is apart from the sector and its spare area stay.
  byte-stays :
      (q : Range)
      → InPage from.chip.pages_per_block q
      → Apart own_sector q
      → Apart own_spare q
      → (x : ℕ) → address from.chip.pages_per_block q ≤ x
      → x < address from.chip.pages_per_block q + q.size
      → s.chip.mapped x ≡ from.chip.mapped x
  byte-stays q hq from_sector from_spare x lo hi =
      let pages = from.chip.pages_per_block in
      let away =
        address-outside pages own_sector q (record { page_in = page_in; bytes_in = omega arith }) hq
          from_sector x lo hi in
      let apart =
        address-outside pages own_spare q (record { page_in = page_in; bytes_in = omega arith }) hq
          from_spare x lo hi in
      stored.others x (omega (arith, away)) (omega (arith, apart))

  load_bytes-stays :
      (q : Range)
      → InPage from.chip.pages_per_block q
      → Apart own_sector q
      → Apart own_spare q
      → load_bytes s.chip.mapped (address from.chip.pages_per_block q) q.size
        ≡ load_bytes from.chip.mapped (address from.chip.pages_per_block q) q.size
  load_bytes-stays q hq from_sector from_spare =
      load_bytes-cong _ _ (address from.chip.pages_per_block q) q.size
        (byte-stays q hq from_sector from_spare)

  pub Stored-IsWritten : IsWritten from.chip s.chip blocks f.block f.sector
  Stored-IsWritten = record {
    pages = stored.pages;
    spares = λ b t hb hp other.
        let at =
          get_offset-spare geometry b (t / fs_sectors_per_page) (spare_offset t) hb hp
            (omega arith) in
        ap read_spare (
          rw (stored.pages, at)
            (load_bytes-stays (spare_range b (t / fs_sectors_per_page) t)
              (record { page_in = hp; bytes_in = omega arith }) (λ e₁ e₂. omega arith)
              (λ e₁ e₂. let far = λ (e : t ≡ f.sector). other (sym e₁, e) in omega arith)));
    bytes = λ b t o n hb hp other inside.
        let at =
          get_offset-address geometry b (t / fs_sectors_per_page) (t % fs_sectors_per_page) o hb hp
            (omega arith) in
        rw (stored.pages, at)
          (load_bytes-stays (sector_range b (t / fs_sectors_per_page) t o n)
            (record { page_in = hp; bytes_in = omega arith })
            (λ e₁ e₂. let far = λ (e : t ≡ f.sector). other (sym e₁, e) in omega arith)
            (λ e₁ e₂. omega arith));
  }

  -- Another sector that is erased stays so.
  pub IsErased-stays :
      (b t : ℕ)
      → b < blocks
      → t / fs_sectors_per_page < from.chip.pages_per_block
      → ¬ ((b ≡ f.block) × (t ≡ f.sector))
      → IsErased from.chip b t
      → IsErased s.chip b t
  IsErased-stays b t hb hp other erased =
      let page = t / fs_sectors_per_page in
      let row = t % fs_sectors_per_page in
      let at = get_offset-address geometry b page row 0 hb hp (omega arith) in
      let marks_at = get_offset-spare geometry b page (spare_offset t) hb hp (omega arith) in
      record {
        contents = λ x lo hi.
            let lo' = rw stored.pages at lo in
            let hi' = rw stored.pages at hi in
            byte-stays (sector_range b page t 0 fs_sector_size)
              (record { page_in = hp; bytes_in = omega arith })
              (λ e₁ e₂. let far = λ (e : t ≡ f.sector). other (sym e₁, e) in omega arith)
              (λ e₁ e₂. omega arith) x (omega (arith, at, lo')) (omega (arith, at, hi'))
            ∙ erased.contents x lo' hi';
        spare = λ x lo hi.
            let lo' = rw stored.pages at lo in
            let hi' = rw stored.pages at hi in
            byte-stays (spare_range b page t) (record { page_in = hp; bytes_in = omega arith })
              (λ e₁ e₂. omega arith)
              (λ e₁ e₂. let far = λ (e : t ≡ f.sector). other (sym e₁, e) in omega arith) x
              (omega (arith, marks_at, lo')) (omega (arith, marks_at, hi'))
            ∙ erased.spare x lo' hi';
      }
