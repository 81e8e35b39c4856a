-- ===== src/Prealloc/Without.antt =====
-- A list of pending nodes, and of their entries, without a block: what src/flogfs.c leaves of it in
-- `flog_prealloc_block_remove_pending`.
use flog_fs.Base.{
  ℕ, ◌+◌, ◌≡◌, refl, true, false, Bool-cases, inl, inr, List, [], ◌∷◌, arith, ◌==◌, if◌then◌else◌,
  length,
}
use flog_fs.Prealloc.Chain.{Nodes, has, Distinct, entries, has_entry}

-- The nodes that stay pending.
abbrev pub without : Nodes → ℕ → List ℕ → List ℕ
without m block [] = []
without m block (i ∷ xs) = if (m i).block == block then xs else i ∷ without m block xs

-- The list without the first entry of a block.
abbrev pub erase_entry : ℕ → List (ℕ × ℕ) → List (ℕ × ℕ)
erase_entry block [] = []
erase_entry block ((b, a) ∷ es) = if b == block then es else (b, a) ∷ erase_entry block es

pub entries-without :
    (m : Nodes) (block : ℕ) (xs : List ℕ)
    → entries m (without m block xs) ≡ erase_entry block (entries m xs)
entries-without m block [] = refl
entries-without m block (i ∷ xs) = ground (arith, entries-without m block xs)

pub has-without :
    (m : Nodes) (block j : ℕ) (xs : List ℕ) → has j xs ≡ false → has j (without m block xs) ≡ false
has-without m block j [] h = refl
has-without m block j (i ∷ xs) h = ground (arith, has-without m block j xs (ground arith))

pub Distinct-without :
    (m : Nodes) (block : ℕ) (xs : List ℕ) → Distinct xs → Distinct (without m block xs)
Distinct-without m block [] d = tt
Distinct-without m block (i ∷ xs) d = elim (Bool-cases ((m i).block == block)) [
  | inl e ↦ rw e d.1
  | inr e ↦ rw e (has-without m block i xs d.0, Distinct-without m block xs d.1)
]

pub length-without :
    (m : Nodes) (block : ℕ) (xs : List ℕ)
    → has_entry block (entries m xs) ≡ true
    → length (without m block xs) + 1 ≡ length xs
length-without m block [] h = ground arith
length-without m block (i ∷ xs) h = elim (Bool-cases ((m i).block == block)) [
  | inl e ↦ rw e (omega arith)
  | inr e ↦ let rest = length-without m block xs (ground arith) in rw e (omega (arith, rest))
]

pub without-absent :
    (m : Nodes) (block : ℕ) (xs : List ℕ)
    → has_entry block (entries m xs) ≡ false
    → without m block xs ≡ xs
without-absent m block [] h = refl
without-absent m block (x ∷ xs) h = ground (arith, without-absent m block xs (ground arith))
