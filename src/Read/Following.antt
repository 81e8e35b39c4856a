-- ===== src/Read/Following.antt =====
-- Where the walk of `flogfs_read` of src/flogfs.c goes from a sector, before and after one sector of the
-- flash is written.
use mathlib.Core.Path.{ap₂}
use flog_fs.Base.{
  ℕ, suc, ◌+◌, ◌/◌, ◌<◌, ◌≤◌, ◌≡◌, ◌≢◌, refl, sym, ap, subst, Bool, true, false, Option, none, some,
  Bool-cases, inl, inr, [], ◌++◌, ◌==◌, if◌then◌else◌, arith,
}
use flog_fs.Structs.{init_sector, tail_sector, file_init_size, file_tail_size, read_file_tail}
use flog_fs.Flash.{Chip, fs_sector_size, fs_sectors_per_page}
use flog_fs.Fs.{Params}
use flog_fs.Write.{flog_increment_sector}
use flog_fs.Read.Contents.{
  Position, bytes_of, spare_of, data_of, next_block_position, next_sector_position, following,
  behind, IsPlaced,
}

-- Only one sector has been written, with its spare area.
pub record IsWritten (c c' : Chip) (blocks gb gs : ℕ) : Type 0 where
  pub pages : c'.pages_per_block ≡ c.pages_per_block
  pub spares :
      (b s : ℕ)
      → b < blocks
      → s / fs_sectors_per_page < c.pages_per_block
      → ¬ ((b ≡ gb) × (s ≡ gs))
      → spare_of c' b s ≡ spare_of c b s
  pub bytes :
      (b s o n : ℕ)
      → b < blocks
      → s / fs_sectors_per_page < c.pages_per_block
      → ¬ ((b ≡ gb) × (s ≡ gs))
      → o + n ≤ fs_sector_size
      → bytes_of c' b s o n ≡ bytes_of c b s o n

module _ (c : Chip) (params : Params) (id k b s : ℕ) where
  pub behind-none : following c params id b s ≡ none → behind c params id (suc k) b s ≡ []
  unfolding behind
  behind-none e = rw (e, behind) refl

  pub behind-some :
      (p : Position)
      → following c params id b s ≡ some p
      → behind c params id (suc k) b s ≡ data_of c p ++ behind c params id k p.block p.sector
  unfolding behind
  behind-some p e = rw (e, behind) refl

-- The position that is found, where one is.
chosen : (b : Bool) (q p : Position) → (if b then none else some q) ≡ some p → q ≡ p
chosen true q p e = absurd (ground (arith, e))
chosen false q p e = ap (λ (o : Option Position). elim o [ none ↦ q | some r ↦ r ]) e

-- The position that a step inside a block comes to.
next_sector_position-lem :
    (c : Chip) (params : Params) (id b s : ℕ) (p : Position)
    → next_sector_position c params id b s ≡ some p
    → (p.block ≡ b) × (p.sector ≡ flog_increment_sector params s)
unfolding next_sector_position
next_sector_position-lem c params id b s p e =
    let same = chosen _ (record { block = b; sector = _; nbytes = _ }) p e in
    (sym (ap (λ (q : Position). q.block) same), sym (ap (λ (q : Position). q.sector) same))

-- The block that a step out of a block comes to.
next_block_position-lem :
    (c : Chip) (params : Params) (id b : ℕ) (p : Position)
    → next_block_position c params id b ≡ some p
    → p.block ≡ (read_file_tail (bytes_of c b tail_sector 0 file_tail_size)).universal.next_block
unfolding next_block_position
next_block_position-lem c params id b p e =
    let same = chosen _ (record { block = _; sector = _; nbytes = _ }) p e in
    sym (ap (λ (q : Position). q.block) same)

module _ (c c' : Chip) (params : Params) (id blocks gb gs : ℕ)
    (written : IsWritten c c' blocks gb gs) (no_tail : gs ≢ tail_sector)
    (no_init : gs ≢ init_sector) where
  next_block_position-same :
      (b : ℕ) (p : Position)
      → b < blocks
      → 0 < c.pages_per_block
      → IsPlaced c params id blocks p
      → next_block_position c params id b ≡ some p
      → next_block_position c' params id b ≡ some p
  unfolding next_block_position
  next_block_position-same b p hb hp placed e =
      let next =
        (read_file_tail (bytes_of c b tail_sector 0 file_tail_size)).universal.next_block in
      let next_in : next < blocks =
        subst (λ (x : ℕ). x < blocks) (next_block_position-lem c params id b p e) placed.block_in in
      let tail =
        written.bytes b tail_sector 0 file_tail_size hb (omega arith) (λ same. no_tail (sym same.1))
          (omega arith) in
      let init =
        written.bytes next init_sector 0 file_init_size next_in (omega arith)
          (λ same. no_init (sym same.1)) (omega arith) in
      let spare =
        written.spares next init_sector next_in (omega arith) (λ same. no_init (sym same.1)) in
      rw tail (rw (init, spare) e)

  next_sector_position-same :
      (b s : ℕ) (p : Position)
      → IsPlaced c params id blocks p
      → ¬ ((p.block ≡ gb) × (p.sector ≡ gs))
      → next_sector_position c params id b s ≡ some p
      → next_sector_position c' params id b s ≡ some p
  unfolding next_sector_position
  next_sector_position-same b s p placed other e =
      let at = next_sector_position-lem c params id b s p e in
      let spare : spare_of c' b (flog_increment_sector params s)
          ≡ spare_of c b (flog_increment_sector params s) =
        subst (λ (q : ℕ × ℕ). spare_of c' q.0 q.1 ≡ spare_of c q.0 q.1)
          (ap₂ (λ (x y : ℕ). (x, y)) at.0 at.1)
          (written.spares p.block p.sector placed.block_in placed.page_in other) in
      rw spare e

  pub following-same :
      (b s : ℕ) (p : Position)
      → b < blocks
      → 0 < c.pages_per_block
      → IsPlaced c params id blocks p
      → ¬ ((p.block ≡ gb) × (p.sector ≡ gs))
      → following c params id b s ≡ some p
      → following c' params id b s ≡ some p
  unfolding following
  following-same b s p hb hp placed other e = elim (Bool-cases (s == tail_sector)) [
    | inl t ↦ rw t (next_block_position-same b p hb hp placed (rw t at e))
    | inr t ↦ rw t (next_sector_position-same b s p placed other (rw t at e))
  ]
