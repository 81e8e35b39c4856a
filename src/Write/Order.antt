-- ===== src/Write/Order.antt =====
-- The order in which the sectors of a block are written and read, `flog_increment_sector`.
use flog_fs.Base.{
  ℕ, zero, suc, ◌+◌, ◌-◌, ◌^◌, ◌≤◌, ◌<◌, ◌≡◌, ◌≢◌, ◌*◌, ◌==◌, ◌↔◌, inl, inr, Bool-cases, arith, ltb,
  if◌then◌else◌,
}
use flog_fs.Structs.{init_sector, tail_sector}
use flog_fs.Fs.{Params, sectors_in_block}
use flog_fs.Write.{flog_increment_sector}

-- A block has two pages at least, and its sectors fit a `flog_sector_idx_t`.
pub record IsBlock (p : Params) : Type 0 where
  pub two_pages : 8 ≤ sectors_in_block p
  pub small : sectors_in_block p ≤ 2 ^ 16

-- The sector that is reached from the first one in `k` steps.
unfoldable pub nth_sector : Params → ℕ → ℕ
nth_sector p zero = init_sector
nth_sector p (suc k) = flog_increment_sector p (nth_sector p k)

-- The same, written down: the rest of the first page but its last sector, the other pages, and
-- that last sector.
abbrev position : ℕ → ℕ → ℕ
position sectors k = if ltb k 2 then k + 1 else if ltb k (sectors - 2) then k + 2 else tail_sector

nth_sector-position :
    (p : Params) (k : ℕ)
    → IsBlock p
    → k ≤ sectors_in_block p - 2
    → nth_sector p k ≡ position (sectors_in_block p) k
unfolding nth_sector flog_increment_sector
nth_sector-position p zero h le = ground arith
nth_sector-position p (suc k) h le = ground (arith, nth_sector-position p k h (omega arith))

-- the step at which a sector comes
abbrev step_of : ℕ → ℕ → ℕ
step_of sectors s =
    if ltb s tail_sector then s - 1 else if ltb tail_sector s then s - 2 else sectors - 2

module _ (p : Params) (h : IsBlock p) where
  -- Every sector of a block but the statistics sector is reached from the first one.
  pub nth_sector-onto :
      (s : ℕ)
      → 0 < s
      → s < sectors_in_block p
      → (k : ℕ) × (k ≤ sectors_in_block p - 2) × (nth_sector p k ≡ s)
  nth_sector-onto s pos lt =
      let k = step_of (sectors_in_block p) s in
      let inside : k ≤ sectors_in_block p - 2 = ground arith in
      (k, inside, ground (arith, nth_sector-position p k h inside))

  -- No sector of a block is reached twice before the block is full.
  pub nth_sector-injective :
      (j k : ℕ)
      → j ≤ sectors_in_block p - 2
      → k ≤ sectors_in_block p - 2
      → nth_sector p j ≡ nth_sector p k
      → j ≡ k
  nth_sector-injective j k hj hk e =
      ground (arith, nth_sector-position p j h hj, nth_sector-position p k h hk)

  -- The sectors that are reached are those of the block but the statistics sector, and the tail
  -- sector is the last of them.
  pub nth_sector-inside :
      (k : ℕ)
      → k ≤ sectors_in_block p - 2
      → (0 < nth_sector p k)
        × (nth_sector p k < sectors_in_block p)
        × ((nth_sector p k ≡ tail_sector) ↔ (k ≡ sectors_in_block p - 2))
  nth_sector-inside k le = (
    ground (arith, nth_sector-position p k h le),
    ground (arith, nth_sector-position p k h le),
    (
      λ e. ground (arith, nth_sector-position p k h le),
      λ e. ground (arith, nth_sector-position p k h le),
    ),
  )

-- A sector is followed by the one with the next number, except that sector 3 comes last.
pub data Follows (params : Params) (sector next : ℕ) : Type 0 where
  over_three : sector ≡ 2 → next ≡ 4 → Follows params sector next
  to_three :
      sector + 1 ≡ params.pages_per_block * 4
      → sector < 2 ^ 16
      → next ≡ 3
      → Follows params sector next
  in_order :
      sector ≢ 2
      → sector + 1 < params.pages_per_block * 4
      → params.pages_per_block * 4 < 2 ^ 16
      → next ≡ sector + 1
      → Follows params sector next

pub Follows-flog_increment_sector :
    (params : Params) (sector next : ℕ)
    → Follows params sector next
    → flog_increment_sector params sector ≡ next
unfolding flog_increment_sector
Follows-flog_increment_sector params sector next (over_three two e) = ground (arith, two, e)
Follows-flog_increment_sector params sector next (to_three last small e) = ground (arith, last, e)
Follows-flog_increment_sector params sector next (in_order two more small e) =
    ground (arith, two, more, e)

-- Inside a block, it gives a sector that follows.
pub flog_increment_sector-Follows :
    (params : Params) (sector : ℕ)
    → sector ≢ 3
    → sector < params.pages_per_block * 4
    → params.pages_per_block * 4 < 2 ^ 16
    → Follows params sector (flog_increment_sector params sector)
unfolding flog_increment_sector
flog_increment_sector-Follows params sector inside lt small = elim (Bool-cases (sector == 2)) [
  | inl two ↦ over_three (ground (arith, two)) (ground (arith, two))
  | inr other ↦ elim (Bool-cases (sector + 1 == params.pages_per_block * 4)) [
    | inl last ↦ to_three (ground (arith, last)) (omega arith) (ground (arith, last, other))
    | inr more ↦
        in_order (ground (arith, other)) (ground (arith, more)) small (ground (arith, more, other))
  ]
]
