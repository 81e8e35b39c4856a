-- ===== src/Flash/Frame.antt =====
-- Memory that is changed in one range of a page keeps what lies in any other range.
use native.Mathlib.Decide.{dec_lt}
use flog_fs.Base.{ℕ, ◌+◌, ◌-◌, ◌*◌, ◌≤◌, ◌<◌, ◌≡◌, ◌≢◌, ◌⊎◌, inl, inr, ap, List, length, arith}
use flog_fs.Bytes.{Mem, load_bytes, store_bytes, fill}
use flog_fs.Bytes.RoundTrip.{store_bytes-before, store_bytes-after, load_bytes-cong}
use flog_fs.Flash.Address.{page_size, flat, row_unique}

-- `n` bytes from byte `x` of a page on.
pub record Range : Type 0 where
  pub block : ℕ
  pub page : ℕ
  pub start : ℕ
  pub size : ℕ

abbrev pub range : ℕ → ℕ → ℕ → ℕ → Range
range b p x n = record { block = b; page = p; start = x; size = n }

pub record InPage (pages : ℕ) (r : Range) : Type 0 where
  pub page_in : r.page < pages
  pub bytes_in : r.start + r.size ≤ page_size

-- On one page, the ranges do not meet.
abbrev pub Apart : Range → Range → Type 0
Apart r q =
    r.block ≡ q.block
    → r.page ≡ q.page
    → (r.start + r.size ≤ q.start) ⊎ (q.start + q.size ≤ r.start)

abbrev pub address : ℕ → Range → ℕ
address pages r = flat pages r.block r.page r.start

-- The addresses of the ranges do not meet either.
addresses-Apart :
    (pages : ℕ) (r q : Range)
    → InPage pages r
    → InPage pages q
    → Apart r q
    → (i j : ℕ) → i < r.size
    → j < q.size
    → address pages r + i ≢ address pages q + j
addresses-Apart pages r q hr hq apart i j hi hj e =
    let rows =
      row_unique page_size (r.block * pages + r.page) (r.start + i) (q.block * pages + q.page)
        (q.start + j) (omega arith) (omega arith) (omega arith) in
    let places = row_unique pages r.block r.page q.block q.page hr.page_in hq.page_in rows.0 in
    let far = apart places.0 places.1 in let same = rows.1 in omega arith

-- A byte of a range is not in one that it does not meet.
pub address-outside :
    (pages : ℕ) (r q : Range)
    → InPage pages r
    → InPage pages q
    → Apart r q
    → (x : ℕ) → address pages q ≤ x
    → x < address pages q + q.size
    → (x < address pages r) ⊎ (address pages r + r.size ≤ x)
address-outside pages r q hr hq apart x lo hi = elim (dec_lt x (address pages r)) [
  | yes below ↦ inl below
  | no above ↦ elim (dec_lt x (address pages r + r.size)) [
    | yes inside ↦ absurd (
        addresses-Apart pages r q hr hq apart (x - address pages r) (x - address pages q)
          (omega arith) (omega arith) (omega arith))
    | no beyond ↦ inr (omega arith)
  ]
]

pub load_bytes-frame :
    (pages : ℕ) (r q : Range) (m : Mem) (bs : List ℕ)
    → InPage pages r
    → InPage pages q
    → Apart r q
    → length bs ≡ r.size
    → load_bytes (store_bytes m (address pages r) bs) (address pages q) q.size
      ≡ load_bytes m (address pages q) q.size
load_bytes-frame pages r q m bs hr hq apart e =
    load_bytes-cong _ m (address pages q) q.size λ x lo hi.
      elim (address-outside pages r q hr hq apart x lo hi) [
        | inl below ↦ store_bytes-before m (address pages r) bs x below
        | inr beyond ↦ store_bytes-after m (address pages r) bs x (omega arith)
      ]

-- A filled block is filled at every byte of its pages, and no other block changes.
module _ (pages block v : ℕ) (m : Mem) (r : Range) (h : InPage pages r) where
  pub load_bytes-fill_ne :
      r.block ≢ block
      → load_bytes (fill m (flat pages block 0 0) v (pages * page_size)) (address pages r) r.size
        ≡ load_bytes m (address pages r) r.size
  unfolding fill
  load_bytes-fill_ne other = load_bytes-cong _ m (address pages r) r.size λ x lo hi.
      elim (dec_lt r.block block) [
        | yes below ↦
            let step : r.block * pages + pages ≤ block * pages = grind arith in
            let page = h.page_in in
            let bytes = h.bytes_in in
            let early : x < flat pages block 0 0 = omega arith in ground arith
        | no not_below ↦
            let step : block * pages + pages ≤ r.block * pages = grind arith in
            let late : flat pages block 0 0 + pages * page_size ≤ x = omega arith in ground arith
      ]

  pub fill_self :
      r.block ≡ block
      → (x : ℕ) → address pages r ≤ x
      → x < address pages r + r.size
      → fill m (flat pages block 0 0) v (pages * page_size) x ≡ v
  unfolding fill
  fill_self same x lo hi =
      let rows : r.block * pages ≡ block * pages = ap (λ (k : ℕ). k * pages) same in
      let page = h.page_in in
      let bytes = h.bytes_in in
      let from : flat pages block 0 0 ≤ x = omega arith in
      let to : x < flat pages block 0 0 + pages * page_size = omega arith in ground arith
