-- ===== src/Write/Sector.antt =====
-- Committing a sector: what is on the flash after the three writes of a commit.
use flog_fs.Base.{
  ℕ, ◌+◌, ◌*◌, ◌/◌, ◌%◌, ◌<◌, ◌≤◌, ◌≡◌, ◌∙◌, inr, sym, ◌⊎◌, ap, subst, arith, List, ◌++◌, ◌==◌,
  length,
}
use flog_fs.Bytes.{Mem, load_bytes}
use flog_fs.Bytes.RoundTrip.{length-load_bytes}
use flog_fs.Structs.{erase_char, spare_size, SectorSpare, spare_bytes}
use flog_fs.Flash.{
  Chip, fs_sector_size, fs_sectors_per_page, mapped_sector_ptr, spare_offset, flash_write_sector,
  flash_write_spare, flash_commit, get_offset,
}
use flog_fs.Flash.Address.{IsGeometry, flat}
use flog_fs.Flash.Access.{get_offset-address, get_offset-spare, sector_at, spare_at}
use flog_fs.Flash.Wrote.{Wrote, verified_memcpy-Wrote}
use flog_fs.Prealloc.{Prealloc}
use flog_fs.Prealloc.Queue.{IsPrealloc}
use flog_fs.Fs.{Fs, WriteFile, on_chip, flog_open_sector}
use flog_fs.Fs.Cache.{IsCoherent}
use flog_fs.Fs.Returns.{flog_open_page_lem}
use flog_fs.Write.{write_file_sector}
use flog_fs.Write.Wrote.{three_writes, FsWrote, on_chip-FsWrote, if-FsWrote, FsWrote-IsCoherent}
use flog_fs.Run.Returns
use flog_fs.Run.Returns.{Returns, returns}

-- The sector of a file, with its spare area, is erased.
pub record IsErased (c : Chip) (block sector : ℕ) : Type 0 where
  pub contents :
      (x : ℕ)
      → get_offset c.pages_per_block block
          (sector / fs_sectors_per_page)
          (sector % fs_sectors_per_page)
          0
        ≤ x
      → x
        < get_offset c.pages_per_block block
            (sector / fs_sectors_per_page)
            (sector % fs_sectors_per_page)
            0
          + fs_sector_size
      → c.mapped x ≡ erase_char
  pub spare :
      (x : ℕ)
      → get_offset c.pages_per_block block (sector / fs_sectors_per_page) 0 (spare_offset sector)
        ≤ x
      → x
        < get_offset c.pages_per_block block (sector / fs_sectors_per_page) 0 (spare_offset sector)
          + spare_size
      → c.mapped x ≡ erase_char

-- What a commit leaves: the sector with the bytes that were buffered and the new ones behind them,
-- its spare area, and else the flash and the open files as before.
pub record Stored (f : WriteFile) (bytes : List ℕ) (spare : SectorSpare) (from s : Fs)
    : Type 0 where
  pub contents :
      sector_at s.chip f.block (f.sector / fs_sectors_per_page) f.sector 0 (f.offset + length bytes)
      ≡ load_bytes f.sector_buffer 0 f.offset ++ bytes
  pub marks : spare_at s.chip f.block (f.sector / fs_sectors_per_page) f.sector ≡ spare_bytes spare
  pub others :
      let page = f.sector / fs_sectors_per_page in
      let data_at =
        flat from.chip.pages_per_block f.block page
          (f.sector % fs_sectors_per_page * fs_sector_size) in
      let marks_at = flat from.chip.pages_per_block f.block page (spare_offset f.sector) in
      (x : ℕ)
      → (x < data_at) ⊎ (data_at + fs_sector_size ≤ x)
      → (x < marks_at) ⊎ (marks_at + spare_size ≤ x)
      → s.chip.mapped x ≡ from.chip.mapped x
  pub pages : s.chip.pages_per_block ≡ from.chip.pages_per_block
  pub coherent : IsCoherent s
  pub lists :
      (free : List ℕ) × (avs : List ℕ) × (pending : List ℕ) × IsPrealloc s.prealloc free avs pending
  pub readers : s.read_files ≡ from.read_files
  pub configured : s.params ≡ from.params
  pub stack : s.stack ≡ from.stack

module _ (blocks : ℕ) (f : WriteFile) (bytes : List ℕ) (spare : SectorSpare) (s : Fs)
    (fs avs ps : List ℕ) (geometry : IsGeometry s.chip.pages_per_block blocks)
    (block_in : f.block < blocks)
    (page_in : f.sector / fs_sectors_per_page < s.chip.pages_per_block)
    (fits : f.offset + length bytes ≤ fs_sector_size) where
  abbrev page : ℕ
  page = f.sector / fs_sectors_per_page

  abbrev row : ℕ
  row = f.sector % fs_sectors_per_page

  abbrev base : ℕ
  base = flat s.chip.pages_per_block f.block page (row * fs_sector_size)

  abbrev marks_at : ℕ
  marks_at = flat s.chip.pages_per_block f.block page (spare_offset f.sector)

  pointer :
      (u : Fs) (o : ℕ)
      → u.chip.open_block ≡ f.block
      → u.chip.open_page ≡ page
      → u.chip.pages_per_block ≡ s.chip.pages_per_block
      → o ≤ fs_sector_size
      → mapped_sector_ptr u.chip row o ≡ base + o
  unfolding mapped_sector_ptr
  pointer u o eb ep en le =
      rw (eb, ep, en)
        (let e = get_offset-address geometry f.block page row o block_in page_in (omega arith) in
          omega arith)

  spare_pointer :
      (u : Fs)
      → u.chip.open_block ≡ f.block
      → u.chip.open_page ≡ page
      → u.chip.pages_per_block ≡ s.chip.pages_per_block
      → mapped_sector_ptr u.chip 0 (spare_offset f.sector) ≡ marks_at
  unfolding mapped_sector_ptr
  spare_pointer u eb ep en =
      rw (eb, ep, en)
        (get_offset-spare geometry f.block page (spare_offset f.sector) block_in page_in
          (omega arith))

  sector-FsWrote :
      (u : Fs) (o : ℕ) (src : List ℕ)
      → u.chip.open_block ≡ f.block
      → u.chip.open_page ≡ page
      → u.chip.pages_per_block ≡ s.chip.pages_per_block
      → o ≤ fs_sector_size
      → ((x : ℕ) → base + o ≤ x → x < base + o + length src → u.chip.mapped x ≡ erase_char)
      → Returns (λ _ v. FsWrote u (base + o) src v) (on_chip (flash_write_sector src f.sector o) u)
  unfolding flash_write_sector
  sector-FsWrote u o src eb ep en le erased =
      on_chip-FsWrote u (base + o) src (flash_write_sector src f.sector o)
        (rw (pointer u o eb ep en le) (verified_memcpy-Wrote (base + o) src u.chip erased))

  spare-FsWrote :
      (u : Fs)
      → u.chip.open_block ≡ f.block
      → u.chip.open_page ≡ page
      → u.chip.pages_per_block ≡ s.chip.pages_per_block
      → ((x : ℕ)
          → marks_at ≤ x
          → x < marks_at + length (spare_bytes spare)
          → u.chip.mapped x ≡ erase_char)
      → Returns
          (λ _ v. FsWrote u marks_at (spare_bytes spare) v)
          (on_chip (flash_write_spare (spare_bytes spare) f.sector) u)
  unfolding flash_write_spare
  spare-FsWrote u eb ep en erased =
      on_chip-FsWrote u marks_at (spare_bytes spare)
        (flash_write_spare (spare_bytes spare) f.sector)
        (rw (spare_pointer u eb ep en)
          (verified_memcpy-Wrote marks_at (spare_bytes spare) u.chip erased))

  module _ (erased : IsErased s.chip f.block f.sector) where
    erased_data : (x : ℕ) → base ≤ x → x < base + fs_sector_size → s.chip.mapped x ≡ erase_char
    erased_data x p q =
        let e = get_offset-address geometry f.block page row 0 block_in page_in (omega arith) in
        erased.contents x (omega arith) (omega arith)

    erased_marks : (x : ℕ) → marks_at ≤ x → x < marks_at + spare_size → s.chip.mapped x ≡ erase_char
    erased_marks x p q =
        let e =
          get_offset-spare geometry f.block page (spare_offset f.sector) block_in page_in
            (omega arith) in
        erased.spare x (omega arith) (omega arith)

  -- What the three writes leave, seen through the sector and its spare area.
  committed :
      (t u v w : Chip)
      → w.pages_per_block ≡ s.chip.pages_per_block
      → Wrote t (base + 0) (load_bytes f.sector_buffer 0 f.offset) u
      → Wrote u (base + f.offset) bytes v
      → Wrote v marks_at (spare_bytes spare) w
      → (sector_at w f.block page f.sector 0 (f.offset + length bytes)
          ≡ load_bytes f.sector_buffer 0 f.offset ++ bytes)
        × (spare_at w f.block page f.sector ≡ spare_bytes spare)
  unfolding spare_bytes
  committed t u v w en w₁ w₂ w₃ =
      let d₁ = load_bytes f.sector_buffer 0 f.offset in
      let size : length d₁ ≡ f.offset = length-load_bytes f.sector_buffer 0 f.offset in
      let behind : base + f.offset ≡ base + 0 + length d₁ = omega arith in
      let both =
        three_writes t u v w (base + 0) marks_at d₁ bytes (spare_bytes spare) (omega arith) w₁
          (subst (λ x. Wrote u x bytes v) behind w₂) w₃ in
      let whole : f.offset + length bytes ≡ length d₁ + length bytes = omega arith in
      let at : get_offset w.pages_per_block f.block page row 0 ≡ base + 0 =
        let e = get_offset-address geometry f.block page row 0 block_in page_in (omega arith) in
        rw en (omega arith) in
      let at_marks : get_offset w.pages_per_block f.block page 0 (spare_offset f.sector)
          ≡ marks_at =
        rw en (
          get_offset-spare geometry f.block page (spare_offset f.sector) block_in page_in
            (omega arith)) in
      (
        ap (λ x. load_bytes w.mapped x (f.offset + length bytes)) at
            ∙ (ap (load_bytes w.mapped (base + 0)) whole ∙ both.0),
        ap (λ x. load_bytes w.mapped x spare_size) at_marks ∙ both.1,
      )

  -- Writing a sector that is erased returns. Then the sector holds the bytes that were buffered and
  -- the new ones behind them, and its spare area holds the fields that were given.
  pub write_file_sector_lem :
      IsCoherent s
      → IsPrealloc s.prealloc fs avs ps
      → IsErased s.chip f.block f.sector
      → Returns (λ _ s'. Stored f bytes spare s s') (write_file_sector f bytes spare s)
  unfolding write_file_sector flog_open_sector flash_commit spare_bytes
  write_file_sector_lem coherent lists erased =
      let d₁ = load_bytes f.sector_buffer 0 f.offset in
      let size : length d₁ ≡ f.offset = length-load_bytes f.sector_buffer 0 f.offset in
      Returns.bind (flog_open_page_lem f.block page s fs avs ps lists coherent) λ r t o.
        let blank = λ (x : ℕ). ap (λ (m : Mem). m x) o.memory in
        Returns.bind {P = λ _ u. FsWrote t (base + 0) d₁ u}
          (if-FsWrote (f.offset == 0) t (base + 0) d₁ _ (λ e. ground arith)
            (sector-FsWrote t 0 d₁ o.at.block_open o.at.page_open o.pages (omega arith)
              (λ x p q. blank x ∙ erased_data erased x (omega arith) (omega arith))))
          λ _ u w₁.
            Returns.bind {P = λ _ v. FsWrote u (base + f.offset) bytes v}
              (if-FsWrote (length bytes == 0) u (base + f.offset) bytes _ (λ e. ground arith)
                (sector-FsWrote u f.offset bytes (w₁.chip.block ∙ o.at.block_open)
                  (w₁.chip.page ∙ o.at.page_open) (w₁.chip.pages ∙ o.pages) (omega arith)
                  (λ x p q.
                    w₁.chip.outside x (inr (omega arith))
                    ∙ (blank x ∙ erased_data erased x (omega arith) (omega arith)))))
              λ _ v w₂.
                Returns.bind {P = λ _ w. FsWrote v marks_at (spare_bytes spare) w}
                  (spare-FsWrote v (w₂.chip.block ∙ (w₁.chip.block ∙ o.at.block_open))
                    (w₂.chip.page ∙ (w₁.chip.page ∙ o.at.page_open))
                    (w₂.chip.pages ∙ (w₁.chip.pages ∙ o.pages))
                    (λ x p q.
                      w₂.chip.outside x (inr (omega arith))
                      ∙ (w₁.chip.outside x (inr (omega arith))
                          ∙ (blank x ∙ erased_marks erased x p q))))
                  λ _ w w₃. returns (
                    let both =
                      committed t.chip u.chip v.chip w.chip
                        (w₃.chip.pages ∙ (w₂.chip.pages ∙ (w₁.chip.pages ∙ o.pages))) w₁.chip
                        w₂.chip w₃.chip in
                    let same = w₃.prealloc ∙ (w₂.prealloc ∙ w₁.prealloc) in
                    record {
                      contents = both.0;
                      marks = both.1;
                      others = λ x away apart.
                          w₃.chip.outside x (omega arith)
                          ∙ (w₂.chip.outside x (omega arith)
                              ∙ (w₁.chip.outside x (omega arith) ∙ blank x));
                      pages = w₃.chip.pages ∙ (w₂.chip.pages ∙ (w₁.chip.pages ∙ o.pages));
                      coherent = FsWrote-IsCoherent v _ _ w w₃ (
                          FsWrote-IsCoherent u _ _ v w₂
                            (FsWrote-IsCoherent t _ _ u w₁ o.at.coherent));
                      lists = (
                        o.lists.0,
                        avs,
                        o.lists.1,
                        subst (λ (p : Prealloc). IsPrealloc p o.lists.0 avs o.lists.1) (sym same)
                            o.lists.2,
                      );
                      readers = w₃.readers ∙ (w₂.readers ∙ (w₁.readers ∙ o.readers));
                      configured = w₃.configured ∙ (w₂.configured ∙ (w₁.configured ∙ o.params));
                      stack = w₃.stack ∙ (w₂.stack ∙ (w₁.stack ∙ o.stack));
                    })
