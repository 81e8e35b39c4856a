-- ===== src/Prealloc/Pool.antt =====
-- The preallocation list as a pool of blocks: those that were handed out and have not been opened,
-- then those to hand out. No block is in it twice.
use flog_fs.Base.{
  ℕ, zero, suc, ◌<◌, ◌≡◌, refl, sym, ap, true, false, Bool, Bool-cases, subst, some, inl, inr, ◌||◌,
  List, [], ◌∷◌, ◌++◌, append_assoc, none, arith, ◌==◌,
}
use flog_fs.Prealloc.{
  Ptr, Prealloc, has_block, has_block_walk, walk_fuel, flog_prealloc_contains, flog_prealloc_push,
  flog_prealloc_pop, flog_prealloc_initialize, block_remove_pending,
}
use flog_fs.Prealloc.Chain.{entries, has_entry}
use flog_fs.Prealloc.Queue.{
  IsPrealloc, contains_lem, flog_prealloc_push_lem, flog_prealloc_pop_lem,
  flog_prealloc_initialize_lem,
}
use flog_fs.Prealloc.Without.{without, erase_entry}
use flog_fs.Prealloc.Pending.{block_remove_pending_lem}
use flog_fs.Run.{Run, ok, panic}
use flog_fs.Run.Returns.{Returns, returns}
use flog_fs.Run.Keeps.{Holds, holds, stopped, spent, Keeps, Holds-ok, keeps_rules}

abbrev pub Entries : Type 0
Entries = List (ℕ × ℕ)

-- Blocks of a device of `n` blocks, none of them 0 and none twice.
abbrev pub AreBlocks : ℕ → Entries → Type 0
AreBlocks n [] = Unit {0}
AreBlocks n ((b, a) ∷ es) = (0 < b) × (0 < n → b < n) × (has_entry b es ≡ false) × AreBlocks n es

has_entry-append :
    (b : ℕ) (es fs : Entries) → has_entry b (es ++ fs) ≡ (has_entry b es || has_entry b fs)
has_entry-append b [] fs = refl
has_entry-append b ((c, a) ∷ es) fs = ground (arith, has_entry-append b es fs)

AreBlocks-snoc :
    (n b a : ℕ) (es : Entries)
    → 0 < b
    → (0 < n → b < n)
    → has_entry b es ≡ false
    → AreBlocks n es
    → AreBlocks n (es ++ (b, a) ∷ [])
AreBlocks-snoc n b a [] pos inside new h = (pos, inside, refl, tt)
AreBlocks-snoc n b a ((c, d) ∷ es) pos inside new (h₀, h₁, h₂, h₃) = (
  h₀,
  h₁,
  ground (arith, has_entry-append c es ((b, a) ∷ [])),
  AreBlocks-snoc n b a es pos inside (ground arith) h₃,
)

has_entry-erase :
    (b c : ℕ) (es fs : Entries)
    → has_entry b (es ++ fs) ≡ false
    → has_entry b (erase_entry c es ++ fs) ≡ false
has_entry-erase b c [] fs h = h
has_entry-erase b c ((d, a) ∷ es) fs h = elim (Bool-cases (d == c)) [
  | inl e ↦ rw e (ground arith)
  | inr e ↦ rw e (ground (arith, has_entry-erase b c es fs (ground arith)))
]

AreBlocks-erase :
    (n c : ℕ) (es fs : Entries) → AreBlocks n (es ++ fs) → AreBlocks n (erase_entry c es ++ fs)
AreBlocks-erase n c [] fs h = h
AreBlocks-erase n c ((d, a) ∷ es) fs (h₀, h₁, h₂, h₃) = elim (Bool-cases (d == c)) [
  | inl e ↦ rw e h₃
  | inr e ↦ rw e (h₀, h₁, has_entry-erase d c es fs h₂, AreBlocks-erase n c es fs h₃)
]

-- The three lists share out the eight nodes, the pool has no block twice, and `Q` holds of the blocks
-- that have been handed out.
pub record IsPool (n : ℕ) (Q : Entries → Type 0) (p : Prealloc) : Type 0 where
  pub free : List ℕ
  pub available : List ℕ
  pub pending : List ℕ
  pub lists : IsPrealloc p free available pending
  pub blocks : AreBlocks n (entries p.blocks pending ++ entries p.blocks available)
  pub handed_out : Q (entries p.blocks pending)

-- Postconditions of a run that returns are kept.
pub Returns-Holds :
    {S A : Type 0} {P : A → S → Type 0} {Q : S → Type 0} {r : Run S A}
    → Returns P r
    → ((a : A) (s : S) → P a s → Q s)
    → Holds Q r
Returns-Holds (returns p) weaken = holds (weaken _ _ p)

-- The two ways in which a push fails an assertion.
pub push_contained :
    (p : Prealloc) (block age : ℕ)
    → flog_prealloc_contains block p ≡ ok true p
    → flog_prealloc_push block age p ≡ panic
unfolding flog_prealloc_push
push_contained p block age e = rw e refl

pub push_full :
    (p : Prealloc) (block age : ℕ)
    → flog_prealloc_contains block p ≡ ok false p
    → p.free ≡ none
    → flog_prealloc_push block age p ≡ panic
unfolding flog_prealloc_push
push_full p block age e full = rw (e, full) refl

module _ (n : ℕ) (Q : Entries → Type 0) where
  pub block_remove_pending-IsPool :
      (block : ℕ)
      → ((es : Entries) → Q es → Q (erase_entry block es))
      → Keeps (IsPool n Q) (block_remove_pending block)
  block_remove_pending-IsPool block erased = record {
    at = λ p v.
        Returns-Holds (block_remove_pending_lem p v.free v.available v.pending block v.lists)
          λ _ p' (free, lists, same, gone). record {
            free = free;
            available = v.available;
            pending = without p.blocks block v.pending;
            lists = lists;
            blocks =
                rw (same, gone)
                  (AreBlocks-erase n block (entries p.blocks v.pending)
                    (entries p.blocks v.available) v.blocks);
            handed_out = rw gone (erased (entries p.blocks v.pending) v.handed_out);
          };
  }

  push-new :
      (p : Prealloc) (fs avs ps : List ℕ) (block age : ℕ)
      → IsPrealloc p fs avs ps
      → AreBlocks n (entries p.blocks ps ++ entries p.blocks avs)
      → Q (entries p.blocks ps)
      → 0 < block
      → (0 < n → block < n)
      → has_entry block (entries p.blocks ps ++ entries p.blocks avs) ≡ false
      → flog_prealloc_contains block p ≡ ok false p
      → Holds (IsPool n Q) (flog_prealloc_push block age p)
  push-new p [] avs ps block age v b q pos inside new e =
      rw (push_full p block age e v.free) stopped
  push-new p (i ∷ fs) avs ps block age v b q pos inside new e =
      Returns-Holds (flog_prealloc_push_lem p i fs avs ps block age v e)
        λ _ p' (lists, grown, same, _). record {
          free = fs;
          available = avs ++ i ∷ [];
          pending = ps;
          lists = lists;
          blocks =
              rw (grown, same, ← append_assoc (entries p.blocks ps) (entries p.blocks avs) _)
                (AreBlocks-snoc n block age _ pos inside new b);
          handed_out = rw same q;
        }

  -- A block of the device is pushed, unless it is in the pool.
  pub flog_prealloc_push-IsPool :
      (block age : ℕ)
      → 0 < block
      → (0 < n → block < n)
      → Keeps (IsPool n Q) (flog_prealloc_push block age)
  flog_prealloc_push-IsPool block age pos inside = record {
    at = λ p v.
        let es = entries p.blocks v.pending in
        let fs = entries p.blocks v.available in
        let c = contains_lem p v.free v.available v.pending block v.lists in
        elim (Bool-cases (
          has_entry block (entries p.blocks v.free)
          || (has_entry block es || has_entry block fs))) [
            | inl found ↦ rw (push_contained p block age (rw found at c)) stopped
            | inr new ↦
                push-new p v.free v.available v.pending block age v.lists v.blocks v.handed_out pos
                  inside (ground (arith, has_entry-append block es fs)) (rw new at c)
          ];
  }

  pop-at :
      (p : Prealloc) (fs avs ps : List ℕ)
      → IsPrealloc p fs avs ps
      → AreBlocks n (entries p.blocks ps ++ entries p.blocks avs)
      → Q (entries p.blocks ps)
      → ((es : Entries) (b a : ℕ) → Q es → Q (es ++ (b, a) ∷ []))
      → Holds (IsPool n Q) (flog_prealloc_pop p)
  unfolding flog_prealloc_pop
  pop-at p fs [] ps v b q snoc = rw v.available stopped
  pop-at p fs (i ∷ avs) ps v b q snoc =
      Returns-Holds (flog_prealloc_pop_lem p i fs avs ps v) λ taken p' (lists, rest, grown).
        record {
          free = fs;
          available = avs;
          pending = ps ++ i ∷ [];
          lists = lists;
          blocks =
              let split : entries p.blocks ps ++ entries p.blocks (i ∷ avs)
                  ≡ entries p.blocks ps ++ (taken.block, taken.age) ∷ entries p'.blocks avs =
                ap (λ es. entries p.blocks ps ++ es) (sym rest) in
              rw
                (
                  grown,
                  append_assoc (entries p.blocks ps) ((taken.block, taken.age) ∷ [])
                      (entries p'.blocks avs),
                )
                (rw split at b);
          handed_out = rw grown (snoc (entries p.blocks ps) taken.block taken.age q);
        }

  -- Handing a block out keeps it in the pool.
  pub flog_prealloc_pop-IsPool :
      ((es : Entries) (b a : ℕ) → Q es → Q (es ++ (b, a) ∷ []))
      → Keeps (IsPool n Q) flog_prealloc_pop
  flog_prealloc_pop-IsPool snoc = record {
    at = λ p v. pop-at p v.free v.available v.pending v.lists v.blocks v.handed_out snoc;
  }

  -- The lists are set up without a block, whatever they were.
  pub flog_prealloc_initialize-IsPool :
      Q [] → (p : Prealloc) → Holds (IsPool n Q) (flog_prealloc_initialize p)
  flog_prealloc_initialize-IsPool q p =
      Returns-Holds (flog_prealloc_initialize_lem p) λ _ p' (fs, lists, _). record {
        free = fs;
        available = [];
        pending = [];
        lists = lists;
        blocks = tt;
        handed_out = q;
      }

-- Looking for a block changes nothing.
module _ (p₀ : Prealloc) where
  has_block_walk-same :
      (k : ℕ) (q : Ptr) (block : ℕ) → Keeps (λ p. p ≡ p₀) (has_block_walk k q block)
  unfolding has_block_walk
  has_block_walk-same zero q block = record { at = λ p h. spent }
  has_block_walk-same (suc k) none block = record { at = λ p h. holds h }
  has_block_walk-same (suc k) (some i) block = record {
    at = λ p h. elim (Bool-cases ((p.blocks i).block == block)) [
      | inl e ↦ rw e (holds h)
      | inr e ↦ rw e ((has_block_walk-same k (p.blocks i).next block).at p h)
    ];
  }

  has_block-same : (q : Ptr) (block : ℕ) → Keeps (λ p. p ≡ p₀) (has_block q block)
  unfolding has_block
  has_block-same q block = has_block_walk-same walk_fuel q block

  contains-same : (block : ℕ) → Keeps (λ p. p ≡ p₀) (flog_prealloc_contains block)
  unfolding flog_prealloc_contains
  contains-same block = search (keeps_rules, has_block-same) depth 20

pub flog_prealloc_contains-same :
    (block : ℕ) (p p' : Prealloc) (found : Bool)
    → flog_prealloc_contains block p ≡ ok found p'
    → p' ≡ p
flog_prealloc_contains-same block p p' found e =
    Holds-ok (subst (Holds (λ q. q ≡ p)) e ((contains-same p block).at p refl))
