-- ===== src/Alloc/Held.antt =====
-- A block that has been handed out is not handed out again until a page of it is opened.
use flog_fs.Base.{
  ℕ, zero, suc, ◌%◌, ◌^◌, ◌≡◌, refl, sym, ap, true, false, Bool-cases, ◌⊎◌, inl, inr, List, [], ◌∷◌,
  ◌++◌, append_assoc, ◌==◌, arith, none,
}
use flog_fs.Structs.{FlogState, block_idx_invalid}
use flog_fs.Prealloc.{
  Prealloc, BlockAlloc, flog_prealloc_contains, flog_prealloc_pop, flog_prealloc_is_empty,
}
use flog_fs.Prealloc.Chain.{has, has_entry, entries}
use flog_fs.Prealloc.Queue.{IsPrealloc, contains_lem, flog_prealloc_pop_lem}
use flog_fs.Prealloc.Without.{erase_entry}
use flog_fs.Prealloc.Pool.{Entries, AreBlocks, IsPool}
use flog_fs.Fs.{Fs, on_prealloc}
use flog_fs.Alloc.{flog_prealloc_prime, refill_if_empty, allocate_loop, flog_allocate_block}
use flog_fs.Alloc.Pool.{Pooled, flog_prealloc_prime-Pooled}
use flog_fs.Run.{ok}
use flog_fs.Run.Keeps.{Keeps, keeps_rules}
use flog_fs.Run.Yields
use flog_fs.Run.Yields.{Yields, yields, none_stopped, Yields-ok}

-- The block is among those handed out.
abbrev pub HandedOut : ℕ → Entries → Type 0
HandedOut b es = has_entry b es ≡ true

abbrev pub Any : Entries → Type 0
Any es = Unit {0}

-- No state excuses the lists.
abbrev pub Never : FlogState → Type 0
Never st = ⊥

has_entry-erase_other :
    (b c : ℕ) (es : Entries) → (c == b) ≡ false → HandedOut b es → HandedOut b (erase_entry c es)
has_entry-erase_other b c [] other h = h
has_entry-erase_other b c ((d, a) ∷ es) other h = ground (arith, has_entry-erase_other b c es other)

has_entry-snoc : (b c a : ℕ) (es : Entries) → HandedOut b es → HandedOut b (es ++ (c, a) ∷ [])
has_entry-snoc b c a [] h = cc
has_entry-snoc b c a ((d, e) ∷ es) h = ground (arith, has_entry-snoc b c a es)

has_entry-last : (b a : ℕ) (es : Entries) → HandedOut b (es ++ (b, a) ∷ [])
has_entry-last b a [] = ground arith
has_entry-last b a ((d, e) ∷ es) = ground (arith, has_entry-last b a es)

-- The blocks are all among those handed out.
abbrev pub Hold : List ℕ → Entries → Type 0
Hold [] es = Unit {0}
Hold (b ∷ bs) es = HandedOut b es × Hold bs es

Hold-erase :
    (c : ℕ) (bs : List ℕ) (es : Entries)
    → has c bs ≡ false
    → Hold bs es
    → Hold bs (erase_entry c es)
Hold-erase c [] es out h = tt
Hold-erase c (b ∷ bs) es out h =
    (has_entry-erase_other b c es (ground arith) h.0, Hold-erase c bs es (ground arith) h.1)

Hold-snoc : (c a : ℕ) (bs : List ℕ) (es : Entries) → Hold bs es → Hold bs (es ++ (c, a) ∷ [])
Hold-snoc c a [] es h = tt
Hold-snoc c a (b ∷ bs) es h = (has_entry-snoc b c a es h.0, Hold-snoc c a bs es h.1)

-- What is not handed out is none of them.
not-Hold :
    (c : ℕ) (bs : List ℕ) (es : Entries) → has_entry c es ≡ false → Hold bs es → has c bs ≡ false
not-Hold c [] es out h = refl
not-Hold c (b ∷ bs) es out h =
    let rest = not-Hold c bs es out h.1 in
    elim (Bool-cases (b == c)) [
      | inr other ↦ ground arith
      | inl same ↦ let has : has_entry b es ≡ true = h.0 in ground arith
    ]

-- What is at the front of the second part is not in the first.
AreBlocks-apart :
    (n c a : ℕ) (es fs : Entries) → AreBlocks n (es ++ (c, a) ∷ fs) → has_entry c es ≡ false
AreBlocks-apart n c a [] fs h = refl
AreBlocks-apart n c a ((d, e) ∷ es) fs (h₀, h₁, h₂, h₃) =
    ground (arith, AreBlocks-apart n c a es fs h₃, here es d h₂)
  where
    here : (xs : Entries) (x : ℕ) → has_entry x (xs ++ (c, a) ∷ fs) ≡ false → (c == x) ≡ false
    here [] x g = ground arith
    here ((y, z) ∷ xs) x g = here xs x (ground arith)

module _ (n : ℕ) (bs : List ℕ) where
  -- A block that is in no list has not been handed out.
  contains-other :
      (p : Prealloc) (block : ℕ)
      → IsPool n (Hold bs) p
      → flog_prealloc_contains block p ≡ ok false p
      → has block bs ≡ false
  contains-other p block v e =
      let c = contains_lem p v.free v.available v.pending block v.lists in
      not-Hold block bs (entries p.blocks v.pending) (ground (arith, c)) v.handed_out

  opened :
      (s : Fs) (block : ℕ)
      → Pooled n (Hold bs) Never s
      → flog_prealloc_contains block s.prealloc ≡ ok false s.prealloc
      → (es : Entries) → Hold bs es
      → Hold bs (erase_entry block es)
  opened s block h e es held = elim h.pool [
    | inl r ↦ absurd r
    | inr v ↦ Hold-erase block bs es (contains-other s.prealloc block v e) held
  ]

  prime-Held : Keeps (Pooled n (Hold bs) Never) flog_prealloc_prime
  prime-Held = flog_prealloc_prime-Pooled n (Hold bs) Never opened

  -- priming again where the last block was taken
  refill-Held : Keeps (Pooled n (Hold bs) Never) refill_if_empty
  unfolding refill_if_empty
  refill-Held = search (keeps_rules, prime-Held) depth 20

  -- A block that is popped has not been handed out, and is handed out now.
  abbrev Popped : BlockAlloc → Prealloc → Type 0
  Popped taken p = (has taken.block bs ≡ false) × IsPool n (Hold (taken.block ∷ bs)) p

  pop-at :
      (p : Prealloc) (fs avs ps : List ℕ)
      → IsPrealloc p fs avs ps
      → AreBlocks n (entries p.blocks ps ++ entries p.blocks avs)
      → Hold bs (entries p.blocks ps)
      → Yields Popped (flog_prealloc_pop p)
  unfolding flog_prealloc_pop
  pop-at p fs [] ps v b q = rw v.available none_stopped
  pop-at p fs (i ∷ avs) ps v b q =
      Yields.from_total (flog_prealloc_pop_lem p i fs avs ps v) λ taken p' (lists, rest, grown).
        let c = taken.block in
        let a = taken.age in
        let split : entries p.blocks ps ++ entries p.blocks (i ∷ avs)
            ≡ entries p.blocks ps ++ (c, a) ∷ entries p'.blocks avs =
          ap (λ es. entries p.blocks ps ++ es) (sym rest) in
        let b' = rw split at b in
        (
          not-Hold c bs (entries p.blocks ps)
              (AreBlocks-apart n c a (entries p.blocks ps) (entries p'.blocks avs) b') q,
          record {
            free = fs;
            available = avs;
            pending = ps ++ i ∷ [];
            lists = lists;
            blocks =
                rw (grown, append_assoc (entries p.blocks ps) ((c, a) ∷ []) (entries p'.blocks avs))
                  b';
            handed_out = rw grown (
              has_entry-last c a (entries p.blocks ps),
              Hold-snoc c a bs (entries p.blocks ps) q,
            );
          },
        )

-- No block, or one that had not been handed out, and now is.
abbrev pub Allocated : ℕ → List ℕ → BlockAlloc → Fs → Type 0
Allocated n bs taken s =
    ((taken.block == block_idx_invalid) ≡ true)
    ⊎ ((has taken.block bs ≡ false) × Pooled n (Hold (taken.block ∷ bs)) Never s)

module _ (n : ℕ) (bs : List ℕ) where
  pop-Popped :
      (s : Fs)
      → Pooled n (Hold bs) Never s
      → Yields
          (λ taken t. (has taken.block bs ≡ false) × Pooled n (Hold (taken.block ∷ bs)) Never t)
          (on_prealloc flog_prealloc_pop s)
  pop-Popped s h = elim h.pool [
    | inl r ↦ absurd r
    | inr v ↦
        Yields.lifted (λ (t : Fs) p. record t { prealloc = p }) s
          (pop-at n bs s.prealloc v.free v.available v.pending v.lists v.blocks v.handed_out)
          (λ taken p popped. (popped.0, record { size = h.size; pool = inr popped.1 }))
  ]

  forget : (c : ℕ) (s : Fs) → Pooled n (Hold (c ∷ bs)) Never s → Pooled n (Hold bs) Never s
  forget c s h = record {
    size = h.size;
    pool = elim h.pool [
      | inl r ↦ absurd r
      | inr v ↦ inr (record {
        free = v.free;
        available = v.available;
        pending = v.pending;
        lists = v.lists;
        blocks = v.blocks;
        handed_out = v.handed_out.1;
      })
    ];
  }

  allocate_loop-Allocated :
      (k : ℕ) (last : BlockAlloc) (s : Fs)
      → (last.block == block_idx_invalid) ≡ true
      → Pooled n (Hold bs) Never s
      → Yields (Allocated n bs) (allocate_loop k last s)
  unfolding allocate_loop
  allocate_loop-Allocated zero last s e h = yields (inl e)
  allocate_loop-Allocated (suc k) last s e h = Yields.bind (pop-Popped s h) λ taken t popped.
      Yields.after ((refill-Held n (taken.block ∷ bs)).at t popped.1) λ _ u held.
        elim (Bool-cases (taken.block == block_idx_invalid)) [
          | inr valid ↦ rw valid (yields (inr (popped.0, held)))
          | inl invalid ↦
              rw invalid (allocate_loop-Allocated k taken u invalid (forget taken.block u held))
        ]

  allocate-Allocated :
      (s : Fs) → Pooled n (Hold bs) Never s → Yields (Allocated n bs) (flog_allocate_block s)
  unfolding flog_allocate_block
  allocate-Allocated s h = elim (Bool-cases (flog_prealloc_is_empty s.prealloc)) [
    | inl e ↦ rw e (yields (inl refl))
    | inr e ↦ rw e (
        allocate_loop-Allocated (s.params.number_of_blocks % 2 ^ 16)
          (record { block = block_idx_invalid; age = s.stack 0; next = none }) s refl h)
  ]

-- A block that the allocator hands out is none of those that it has handed out before and that have
-- not been opened since. Then it is one of them, the lists are well formed, and the blocks in them
-- are pairwise different and blocks of the device, none of them 0.
pub flog_allocate_block-Hold :
    (n : ℕ) (bs : List ℕ) (s s' : Fs) (taken : BlockAlloc)
    → Pooled n (Hold bs) Never s
    → flog_allocate_block s ≡ ok taken s'
    → (taken.block == block_idx_invalid) ≡ false
    → (has taken.block bs ≡ false) × Pooled n (Hold (taken.block ∷ bs)) Never s'
flog_allocate_block-Hold n bs s s' taken h e valid =
    elim (Yields-ok (allocate-Allocated n bs s h) e) [ inl invalid ↦ cc | inr done ↦ done ]
