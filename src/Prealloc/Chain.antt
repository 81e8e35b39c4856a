-- ===== src/Prealloc/Chain.antt =====
-- Linked lists of the preallocation nodes: which nodes a pointer leads through, and what the walks
-- along them do. The rounds of every walk are enough, since eight nodes make no longer list.
use flog_fs.Base.{
  ℕ, zero, suc, ◌<◌, ◌≡◌, refl, ap, Bool, true, false, ◌||◌, List, [], ◌∷◌, ◌++◌, none, some, arith,
  ◌==◌, length,
}
use flog_fs.Prealloc.{Ptr, BlockAlloc, Prealloc, has_block_walk}
use flog_fs.Run.{ok}

abbrev pub Nodes : Type 0
Nodes = ℕ → BlockAlloc

-- From `p` the pointers lead through the nodes `xs`, and end.
abbrev pub Chain : Nodes → Ptr → List ℕ → Type 0
Chain m p [] = p ≡ none
Chain m p (i ∷ xs) = (p ≡ some i) × Chain m (m i).next xs

abbrev pub has : ℕ → List ℕ → Bool
has i [] = false
has i (x ∷ xs) = (x == i) || has i xs

-- No node stands twice in the list.
abbrev pub Distinct : List ℕ → Type 0
Distinct [] = Unit {0}
Distinct (x ∷ xs) = (has x xs ≡ false) × Distinct xs

abbrev pub Disjoint : List ℕ → List ℕ → Type 0
Disjoint xs ys = (i : ℕ) → has i xs ≡ true → has i ys ≡ false

pub has-append : (i : ℕ) (xs ys : List ℕ) → has i (xs ++ ys) ≡ (has i xs || has i ys)
has-append i [] ys = refl
has-append i (x ∷ xs) ys = ground (arith, has-append i xs ys)

pub Distinct-snoc : (i : ℕ) (xs : List ℕ) → Distinct xs → has i xs ≡ false → Distinct (xs ++ i ∷ [])
Distinct-snoc i [] d h = (refl, tt)
Distinct-snoc i (x ∷ xs) d h =
    (ground (arith, has-append x xs (i ∷ [])), Distinct-snoc i xs d.1 (ground arith))

-- A list of nodes depends on the nodes in it only.
pub Chain-frame :
    (m m' : Nodes) (p : Ptr) (xs : List ℕ)
    → ((i : ℕ) → has i xs ≡ true → m' i ≡ m i)
    → Chain m p xs
    → Chain m' p xs
Chain-frame m m' p [] same c = c
Chain-frame m m' p (x ∷ xs) same c = (
  c.0,
  Chain-frame m m' (m' x).next xs (λ i h. same i (ground arith))
      (ground (arith, same x (ground arith))),
)

-- The blocks of the nodes of a list, with their ages.
abbrev pub entries : Nodes → List ℕ → List (ℕ × ℕ)
entries m [] = []
entries m (i ∷ xs) = ((m i).block, (m i).age) ∷ entries m xs

pub entries-frame :
    (m m' : Nodes) (xs : List ℕ)
    → ((i : ℕ) → has i xs ≡ true → ((m' i).block ≡ (m i).block) × ((m' i).age ≡ (m i).age))
    → entries m' xs ≡ entries m xs
entries-frame m m' [] same = refl
entries-frame m m' (x ∷ xs) same =
    ground (arith, same x (ground arith), entries-frame m m' xs (λ i h. same i (ground arith)))

pub entries-append :
    (m : Nodes) (xs ys : List ℕ) → entries m (xs ++ ys) ≡ entries m xs ++ entries m ys
entries-append m [] ys = refl
entries-append m (x ∷ xs) ys = ap (λ l. ((m x).block, (m x).age) ∷ l) (entries-append m xs ys)

abbrev pub has_entry : ℕ → List (ℕ × ℕ) → Bool
has_entry block [] = false
has_entry block ((b, _) ∷ es) = (b == block) || has_entry block es

-- `flog_prealloc_has_block` looks at the blocks of the list, and changes nothing.
pub has_block_walk_lem :
    (k : ℕ) (p : Prealloc) (q : Ptr) (xs : List ℕ) (block : ℕ)
    → Chain p.blocks q xs
    → length xs < k
    → has_block_walk k q block p ≡ ok (has_entry block (entries p.blocks xs)) p
unfolding has_block_walk
has_block_walk_lem zero p q xs block c lt = absurd (omega arith)
has_block_walk_lem (suc k) p q [] block c lt = ground arith
has_block_walk_lem (suc k) p q (x ∷ xs) block c lt =
    ground (arith, has_block_walk_lem k p (p.blocks x).next xs block c.1 (omega arith))
