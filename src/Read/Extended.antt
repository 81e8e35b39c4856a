-- ===== src/Read/Extended.antt =====
-- The walk of `flogfs_read` of src/flogfs.c before and after a sector has been written behind the last
-- one of the file.
use mathlib.Core.Path.{ap₂}
use flog_fs.Base.{
  ℕ, zero, suc, ◌/◌, ◌<◌, ◌≤◌, ◌≡◌, ◌≢◌, ◌∙◌, refl, sym, ap, false, none, some, Option-cases, inl,
  inr, List, [], ◌++◌, ◌==◌, append-nil, append_assoc, arith,
}
use flog_fs.Structs.{init_sector, tail_sector, SectorSpare, invalid_sector_spare}
use flog_fs.Flash.{Chip, fs_sector_size, fs_sectors_per_page}
use flog_fs.Fs.{Params}
use flog_fs.Write.{flog_increment_sector}
use flog_fs.Read.{data_offset}
use flog_fs.Read.Contents.{
  Position, bytes_of, spare_of, data_of, next_sector_position, following, behind, IsPlaced,
  IsReadable,
}
use flog_fs.Read.Following.{IsWritten, behind-none, behind-some, following-same}

-- The tail sector aside, no sector follows itself.
increment_ne : (params : Params) (s : ℕ) → s ≢ tail_sector → s ≢ flog_increment_sector params s
unfolding flog_increment_sector
increment_ne params s nt e = ground (arith, nt, e)

-- The last sector of the file is the one before the given one.
abbrev pub IsBefore : (c : Chip) (params : Params) (id gb gs : ℕ) → ℕ → (block sector : ℕ) → Type 0
IsBefore c params id gb gs zero block sector =
    (block ≡ gb) × (sector ≢ tail_sector) × (flog_increment_sector params sector ≡ gs)
IsBefore c params id gb gs (suc k) block sector = elim (following c params id block sector) [
  | none ↦ (block ≡ gb) × (sector ≢ tail_sector) × (flog_increment_sector params sector ≡ gs)
  | some p ↦ IsBefore c params id gb gs k p.block p.sector
]

module _ (c c' : Chip) (params : Params) (id blocks gb gs : ℕ)
    (written : IsWritten c c' blocks gb gs) (no_tail : gs ≢ tail_sector)
    (no_init : gs ≢ init_sector) (unwritten : following c params id gb gs ≡ none) where
  -- No sector of the file so far is the given one.
  pub IsBefore-other : (k b s : ℕ) → IsBefore c params id gb gs k b s → ¬ ((b ≡ gb) × (s ≡ gs))
  IsBefore-other zero b s h same = increment_ne params s h.1 (same.1 ∙ sym h.2)
  IsBefore-other (suc k) b s h same =
      let none_here : following c params id b s ≡ none =
        ap₂ (following c params id) same.0 same.1 ∙ unwritten in
      let last = rw (none_here, IsBefore) at h in increment_ne params s last.1 (same.1 ∙ sym last.2)

  module _ (spare : SectorSpare) (new : List ℕ) (valid : invalid_sector_spare spare ≡ false)
      (spare_is : spare_of c' gb gs ≡ spare) (data_is : bytes_of c' gb gs 0 spare.nbytes ≡ new)
      (gb_in : gb < blocks) (page_in : gs / fs_sectors_per_page < c.pages_per_block)
      (fits : spare.nbytes ≤ fs_sector_size)
      (still_unwritten : following c' params id gb gs ≡ none) where
    abbrev end : Position
    end = record { block = gb; sector = gs; nbytes = spare.nbytes }

    following-end :
        (b s : ℕ)
        → b ≡ gb
        → s ≢ tail_sector
        → flog_increment_sector params s ≡ gs
        → following c' params id b s ≡ some end
    unfolding following next_sector_position
    following-end b s eb nt es =
        let inside : (s == tail_sector) ≡ false = ground arith in
        rw inside (rw (eb, es, spare_is, valid) refl)

    behind-end : (k : ℕ) → behind c' params id k gb gs ≡ []
    unfolding behind
    behind-end zero = refl
    behind-end (suc k) = behind-none c' params id k gb gs still_unwritten

    data_offset-zero : data_offset gs ≡ 0
    data_offset-zero =
        let not_tail : (gs == tail_sector) ≡ false = ground arith in
        let not_init : (gs == init_sector) ≡ false = ground arith in rw (not_tail, not_init) refl

    end-IsPlaced : IsPlaced c' params id blocks end
    end-IsPlaced = record {
      block_in = gb_in;
      page_in = rw written.pages page_in;
      fits = omega (arith, fits, data_offset-zero);
    }

    data_of-end : data_of c' end ≡ new
    data_of-end = rw data_offset-zero data_is

    following-here :
        (b s : ℕ) (p : Position)
        → b < blocks
        → IsPlaced c params id blocks p
        → ¬ ((p.block ≡ gb) × (p.sector ≡ gs))
        → following c params id b s ≡ some p
        → following c' params id b s ≡ some p
    following-here b s p hb placed other e =
        following-same c c' params id blocks gb gs written no_tail no_init b s p hb
          (omega (arith, placed.page_in)) placed other e

    -- The new sector after the last one, as a stream.
    behind-last :
        (k b s : ℕ) → following c' params id b s ≡ some end → behind c' params id (suc k) b s ≡ new
    behind-last k b s e =
        behind-some c' params id k b s end e
        ∙ (ap (λ l. data_of c' end ++ l) (behind-end k) ∙ (append-nil _ ∙ data_of-end))

    -- The stream of the file is longer by the new bytes.
    pub behind-extended :
        (k b s : ℕ)
        → b < blocks
        → IsReadable c params id blocks k b s
        → IsBefore c params id gb gs k b s
        → behind c' params id (suc k) b s ≡ behind c params id k b s ++ new
    unfolding behind
    behind-extended zero b s hb h before =
        behind-last 0 b s (following-end b s before.0 before.1 before.2)
    behind-extended (suc k) b s hb h before = elim (Option-cases (following c params id b s)) [
      | inl e ↦
          let last = rw (e, IsBefore) at before in
          behind-last (suc k) b s (following-end b s last.0 last.1 last.2)
          ∙ ap (λ l. l ++ new) (sym (behind-none c params id k b s e))
      | inr (p, e) ↦
          let (placed, rest) = rw (e, IsReadable) at h in
          let later = rw (e, IsBefore) at before in
          let other = IsBefore-other k p.block p.sector later in
          behind-some c' params id (suc k) b s p (following-here b s p hb placed other e)
          ∙ (ap₂ ◌++◌
                (written.bytes p.block p.sector (data_offset p.sector) p.nbytes placed.block_in
                  placed.page_in other placed.fits)
                (behind-extended k p.block p.sector placed.block_in rest later)
              ∙ (sym (append_assoc (data_of c p) (behind c params id k p.block p.sector) new)
                  ∙ ap (λ l. l ++ new) (sym (behind-some c params id k b s p e))))
    ]

    IsReadable-last :
        (k b s : ℕ)
        → following c' params id b s ≡ some end
        → IsReadable c' params id blocks (suc k) b s
    IsReadable-last zero b s e = rw (e, IsReadable) (end-IsPlaced, still_unwritten)
    IsReadable-last (suc k) b s e =
        rw (e, IsReadable) (end-IsPlaced, rw (still_unwritten, IsReadable) tt)

    pub IsReadable-extended :
        (k b s : ℕ)
        → b < blocks
        → IsReadable c params id blocks k b s
        → IsBefore c params id gb gs k b s
        → IsReadable c' params id blocks (suc k) b s
    IsReadable-extended zero b s hb h before =
        IsReadable-last 0 b s (following-end b s before.0 before.1 before.2)
    IsReadable-extended (suc k) b s hb h before = elim (Option-cases (following c params id b s)) [
      | inl e ↦
          let last = rw (e, IsBefore) at before in
          IsReadable-last (suc k) b s (following-end b s last.0 last.1 last.2)
      | inr (p, e) ↦
          let (placed, rest) = rw (e, IsReadable) at h in
          let later = rw (e, IsBefore) at before in
          let other = IsBefore-other k p.block p.sector later in
          rw (following-here b s p hb placed other e, IsReadable)
            (
              record {
                block_in = placed.block_in;
                page_in = rw written.pages placed.page_in;
                fits = placed.fits;
              },
              IsReadable-extended k p.block p.sector placed.block_in rest later,
            )
    ]

    IsBefore-last :
        (k b s : ℕ)
        → following c' params id b s ≡ some end
        → IsBefore c' params id gb (flog_increment_sector params gs) (suc k) b s
    IsBefore-last zero b s e = rw (e, IsBefore) (refl, no_tail, refl)
    IsBefore-last (suc k) b s e =
        rw (e, IsBefore) (rw (still_unwritten, IsBefore) (refl, no_tail, refl))

    -- The next sector of the writer is then the one behind.
    pub IsBefore-extended :
        (k b s : ℕ)
        → b < blocks
        → IsReadable c params id blocks k b s
        → IsBefore c params id gb gs k b s
        → IsBefore c' params id gb (flog_increment_sector params gs) (suc k) b s
    IsBefore-extended zero b s hb h before =
        IsBefore-last 0 b s (following-end b s before.0 before.1 before.2)
    IsBefore-extended (suc k) b s hb h before = elim (Option-cases (following c params id b s)) [
      | inl e ↦
          let last = rw (e, IsBefore) at before in
          IsBefore-last (suc k) b s (following-end b s last.0 last.1 last.2)
      | inr (p, e) ↦
          let (placed, rest) = rw (e, IsReadable) at h in
          let later = rw (e, IsBefore) at before in
          let other = IsBefore-other k p.block p.sector later in
          rw (following-here b s p hb placed other e, IsBefore)
            (IsBefore-extended k p.block p.sector placed.block_in rest later)
    ]

-- Behind another sector of the block, a sector that is not written stays so.
pub following-stays :
    (c c' : Chip) (params : Params) (id blocks gb gs s : ℕ)
    → IsWritten c c' blocks gb gs
    → s ≢ tail_sector
    → gb < blocks
    → flog_increment_sector params s / fs_sectors_per_page < c.pages_per_block
    → flog_increment_sector params s ≢ gs
    → following c params id gb s ≡ none
    → following c' params id gb s ≡ none
unfolding following next_sector_position
following-stays c c' params id blocks gb gs s written no_tail gb_in room other unwritten =
    let inside : (s == tail_sector) ≡ false = ground arith in
    let next = flog_increment_sector params s in
    let spare = written.spares gb next gb_in room (λ same. other same.1) in
    rw inside (rw spare (rw inside at unwritten))

-- The sector behind the new one is as unwritten as before.
pub following-unwritten :
    (c c' : Chip) (params : Params) (id blocks gb gs : ℕ)
    → IsWritten c c' blocks gb gs
    → gs ≢ tail_sector
    → gb < blocks
    → flog_increment_sector params gs / fs_sectors_per_page < c.pages_per_block
    → following c params id gb gs ≡ none
    → following c' params id gb gs ≡ none
following-unwritten c c' params id blocks gb gs written no_tail gb_in room unwritten =
    following-stays c c' params id blocks gb gs gs written no_tail gb_in room
      (λ same. increment_ne params gs no_tail (sym same)) unwritten
