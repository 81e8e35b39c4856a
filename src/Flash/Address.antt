-- ===== src/Flash/Address.antt =====
-- The layout of the mapped file: which byte of it holds which byte of which page, and that no two
-- places share a byte.
use native.Mathlib.Decide.{dec_lt}
use flog_fs.Base.{ap, ℕ, ◌+◌, ◌*◌, ◌^◌, ◌<◌, ◌≡◌, refl, arith}
use flog_fs.Flash.{get_offset, fs_sector_size}

-- The size of a page in bytes, its spare areas included.
abbrev pub page_size : ℕ
page_size = 2560

-- A chip of `blocks` blocks, whose size is a `uint32_t`.
abbrev pub IsGeometry : (pages blocks : ℕ) → Type 0
IsGeometry pages blocks = blocks * (pages * page_size) < 2 ^ 32

-- A byte of a page, wherever in its five sectors.
pub record IsPlace (pages blocks block page byte : ℕ) : Type 0 where
  pub block_in : block < blocks
  pub page_in : page < pages
  pub byte_in : byte < page_size

-- the address without the wrap
abbrev pub flat : (pages block page byte : ℕ) → ℕ
flat pages block page byte = (block * pages + page) * page_size + byte

module _ {pages blocks block page byte : ℕ} (in_chip : IsPlace pages blocks block page byte) where
  -- The page is one of the chip's pages.
  page_number : block * pages + page < blocks * pages
  page_number = grind (arith, in_chip.block_in, in_chip.page_in)

  pub flat-lt : flat pages block page byte < blocks * (pages * page_size)
  flat-lt = omega (arith, page_number)

  -- No address wraps.
  pub get_offset-flat :
      (sector offset : ℕ)
      → IsGeometry pages blocks
      → sector * fs_sector_size + offset ≡ byte
      → get_offset pages block page sector offset ≡ flat pages block page byte
  unfolding get_offset
  get_offset-flat sector offset geometry e = omega (arith, flat-lt)

-- Different rows of a table have different numbers.
pub row_unique : (w r c r' c' : ℕ) → c < w → c' < w → r * w + c ≡ r' * w + c' → (r ≡ r') × (c ≡ c')
row_unique w r c r' c' h h' e = elim (dec_lt r r') [
  | yes p ↦ absurd (grind arith)
  | no p ↦ elim (dec_lt r' r) [
    | yes q ↦ absurd (grind arith)
    | no q ↦ let same : r ≡ r' = omega arith in (same, omega (arith, ap (λ (k : ℕ). k * w) same))
  ]
]

-- Two places of the chip have the same address only if they are the same place.
pub get_offset-injective :
    (pages blocks : ℕ) (b p s o b' p' s' o' : ℕ)
    → IsGeometry pages blocks
    → IsPlace pages blocks b p (s * fs_sector_size + o)
    → IsPlace pages blocks b' p' (s' * fs_sector_size + o')
    → get_offset pages b p s o ≡ get_offset pages b' p' s' o'
    → (b ≡ b') × (p ≡ p') × (s * fs_sector_size + o ≡ s' * fs_sector_size + o')
get_offset-injective pages blocks b p s o b' p' s' o' g h h' e =
    let e₁ = get_offset-flat h s o g refl in
    let e₂ = get_offset-flat h' s' o' g refl in
    let same =
      row_unique page_size (b * pages + p) (s * fs_sector_size + o) (b' * pages + p')
        (s' * fs_sector_size + o') h.byte_in h'.byte_in (omega arith) in
    let (same_block, same_page) = row_unique pages b p b' p' h.page_in h'.page_in same.0 in
    (same_block, same_page, same.1)
