-- ===== src/Prealloc/Queue.antt =====
-- The preallocation list as a whole: the eight nodes are shared out among the three lists, `n` counts
-- the available ones, and pushing and popping blocks is first in, first out.
use flog_fs.Base.{
  ℕ, zero, suc, ◌+◌, ◌≡◌, refl, ap, ◌∙◌, true, false, Bool-cases, inl, inr, ◌||◌, List, [], ◌∷◌,
  ◌++◌, none, arith, ◌==◌, if◌then◌else◌, length, length-append, add16, sub16, add32,
}
use flog_fs.Prealloc.{
  Ptr, Prealloc, fs_preallocate_size, set_node, walk_fuel, has_block, flog_prealloc_contains,
  flog_prealloc_push, flog_prealloc_pop, flog_prealloc_initialize,
}
use flog_fs.Prealloc.Chain.{
  Chain, has, Distinct, Disjoint, Chain-frame, has-append, Distinct-snoc, entries, entries-frame,
  entries-append, has_entry, has_block_walk_lem,
}
use flog_fs.Prealloc.Append.{Appended, block_append_lem}
use flog_fs.Structs.{block_idx_invalid, block_age_invalid}
use flog_fs.Run.{ok}
use flog_fs.Run.Returns
use flog_fs.Run.Returns.{Returns, returns}

-- The nodes of the three lists, and what holds of them between operations.
pub record IsPrealloc (p : Prealloc) (fs avs ps : List ℕ) : Type 0 where
  pub free : Chain p.blocks p.free fs
  pub available : Chain p.blocks p.available avs
  pub pending : Chain p.blocks p.pending ps
  pub free_distinct : Distinct fs
  pub available_distinct : Distinct avs
  pub pending_distinct : Distinct ps
  pub free_available : Disjoint fs avs
  pub free_pending : Disjoint fs ps
  pub available_pending : Disjoint avs ps
  pub count : p.n ≡ length avs
  pub total : length fs + length avs + length ps ≡ fs_preallocate_size

-- `flog_prealloc_contains` looks through all three lists.
pub contains_lem :
    (p : Prealloc) (fs avs ps : List ℕ) (block : ℕ)
    → IsPrealloc p fs avs ps
    → flog_prealloc_contains block p
      ≡ ok
          (has_entry block (entries p.blocks fs)
            || (has_entry block (entries p.blocks ps) || has_entry block (entries p.blocks avs)))
          p
unfolding flog_prealloc_contains has_block
contains_lem p fs avs ps block v =
    rw (has_block_walk_lem walk_fuel p p.free fs block v.free (omega arith))
      (elim (Bool-cases (has_entry block (entries p.blocks fs))) [
        | inl e ↦ rw e
        | inr e ↦
            rw (e, has_block_walk_lem walk_fuel p p.pending ps block v.pending (omega arith))
              (elim (Bool-cases (has_entry block (entries p.blocks ps))) [
                | inl d ↦ rw d
                | inr d ↦ rw (
                  d,
                  has_block_walk_lem walk_fuel p p.available avs block v.available (omega arith),
                )
              ])
      ])

-- A list that is apart from the one that has grown is as before.
module _ {p : Prealloc} {q : Ptr} {xs : List ℕ} {e : ℕ} {p' : Prealloc} (a : Appended p q xs e p')
    (ys : List ℕ) (apart : (j : ℕ) → has j ys ≡ true → has j (xs ++ e ∷ []) ≡ false) where
  Chain-other : (r : Ptr) → Chain p.blocks r ys → Chain p'.blocks r ys
  Chain-other r = Chain-frame p.blocks p'.blocks r ys (λ j m. a.others j (apart j m))

entries-Appended :
    {p : Prealloc} {q : Ptr} {xs : List ℕ} {e : ℕ} {p' : Prealloc}
    → Appended p q xs e p'
    → (ys : List ℕ) → entries p'.blocks ys ≡ entries p.blocks ys
entries-Appended {p} {p'} a ys = entries-frame p.blocks p'.blocks ys (λ j _. a.contents j)

not-has-snoc :
    (j e : ℕ) (xs : List ℕ) → has j xs ≡ false → (e == j) ≡ false → has j (xs ++ e ∷ []) ≡ false
not-has-snoc j e xs h ne = ground (arith, has-append j xs (e ∷ []))

-- What is known when a node has been moved from the front of one list to the end of another.
Disjoint-snoc :
    (e : ℕ) (xs ys : List ℕ) → Disjoint xs ys → has e ys ≡ false → Disjoint (xs ++ e ∷ []) ys
Disjoint-snoc e xs ys d h j m = elim (Bool-cases (has j xs)) [
  | inl old ↦ d j old
  | inr new ↦ ground (arith, has-append j xs (e ∷ []))
]

-- A block that is in no list is pushed onto a node of the free list, and comes last among the
-- available blocks; the pending list stays.
pub flog_prealloc_push_lem :
    (p : Prealloc) (i : ℕ) (fs avs ps : List ℕ) (block age : ℕ)
    → IsPrealloc p (i ∷ fs) avs ps
    → flog_prealloc_contains block p ≡ ok false p
    → Returns
        (λ _ p'.
          IsPrealloc p' fs (avs ++ i ∷ []) ps
          × (entries p'.blocks (avs ++ i ∷ []) ≡ entries p.blocks avs ++ (block, age) ∷ [])
          × (entries p'.blocks ps ≡ entries p.blocks ps)
          × (p'.age_sum ≡ add32 p.age_sum age))
        (flog_prealloc_push block age p)
unfolding flog_prealloc_push set_node
flog_prealloc_push_lem p i fs avs ps block age v absent =
    let p₁ : Prealloc = record p {
      blocks = λ j. if j == i then record { block = block; age = age; next = none } else p.blocks j;
      n = add16 p.n 1;
      age_sum = add32 p.age_sum age;
      free = (p.blocks i).next;
    } in
    let same = λ (xs : List ℕ) (q : Ptr) (out : has i xs ≡ false).
      Chain-frame p.blocks p₁.blocks q xs (λ j m. ground arith) in
    let kept = λ (xs : List ℕ) (out : has i xs ≡ false).
      entries-frame p.blocks p₁.blocks xs (λ j m. ground arith) in
    let not_available : has i avs ≡ false = v.free_available i (ground arith) in
    let not_pending : has i ps ≡ false = v.free_pending i (ground arith) in
    rw (absent, v.free.0)
      (Returns.bind
        (block_append_lem p₁ p.available avs i (same avs p.available not_available v.available)
          v.available_distinct not_available (omega (arith, v.total)))
        λ head p' a.
          let off_free = λ (j : ℕ) (m : has j fs ≡ true).
            not-has-snoc j i avs (v.free_available j (ground arith)) (ground arith) in
          let off_pending = λ (j : ℕ) (m : has j ps ≡ true).
            not-has-snoc j i avs (ground (arith, v.available_pending j)) (ground arith) in
          returns (
            record {
              free = rw a.rest (
                  Chain-other a fs off_free (p.blocks i).next
                    (same fs (p.blocks i).next v.free_distinct.0 v.free.1));
              available = a.chain;
              pending = rw a.rest (
                  Chain-other a ps off_pending p.pending (same ps p.pending not_pending v.pending));
              free_distinct = v.free_distinct.1;
              available_distinct = Distinct-snoc i avs v.available_distinct not_available;
              pending_distinct = v.pending_distinct;
              free_available = off_free;
              free_pending = λ j m. v.free_pending j (ground arith);
              available_pending = Disjoint-snoc i avs ps v.available_pending not_pending;
              count =
                  let n : p'.n ≡ p₁.n = ap (λ (q : Prealloc). q.n) a.rest in
                  omega (arith, v.total, v.count, length-append avs (i ∷ []));
              total = omega (arith, v.total, length-append avs (i ∷ []));
            },
            entries-Appended a (avs ++ i ∷ [])
                ∙ (entries-append p₁.blocks avs (i ∷ [])
                    ∙ rw (kept avs not_available) (ground arith)),
            entries-Appended a ps ∙ kept ps not_pending,
            ap (λ (q : Prealloc). q.age_sum) a.rest,
          ))

-- A pop takes the block that was pushed first, and moves its node to the end of the pending list.
pub flog_prealloc_pop_lem :
    (p : Prealloc) (i : ℕ) (fs avs ps : List ℕ)
    → IsPrealloc p fs (i ∷ avs) ps
    → Returns
        (λ taken p'.
          IsPrealloc p' fs avs (ps ++ i ∷ [])
          × (((taken.block, taken.age) ∷ entries p'.blocks avs) ≡ entries p.blocks (i ∷ avs))
          × (entries p'.blocks (ps ++ i ∷ [])
              ≡ entries p.blocks ps ++ (taken.block, taken.age) ∷ []))
        (flog_prealloc_pop p)
unfolding flog_prealloc_pop
flog_prealloc_pop_lem p i fs avs ps v =
    let p₁ : Prealloc = record p { available = (p.blocks i).next; n = sub16 p.n 1 } in
    let not_pending : has i ps ≡ false = v.available_pending i (ground arith) in
    let not_free = λ (j : ℕ) (m : has j fs ≡ true).
      let apart = v.free_available j m in not-has-snoc j i ps (v.free_pending j m) (ground arith) in
    rw v.available.0 (
      Returns.bind
        (block_append_lem p₁ p.pending ps i v.pending v.pending_distinct not_pending
          (omega (arith, v.total)))
        λ head p' a.
          let off_available = λ (j : ℕ) (m : has j avs ≡ true).
            not-has-snoc j i ps (v.available_pending j (ground arith)) (ground arith) in
          returns (
            record {
              free = rw a.rest (Chain-other a fs not_free p.free v.free);
              available =
                  rw a.rest (Chain-other a avs off_available (p.blocks i).next v.available.1);
              pending = a.chain;
              free_distinct = v.free_distinct;
              available_distinct = v.available_distinct.1;
              pending_distinct = Distinct-snoc i ps v.pending_distinct not_pending;
              free_available = λ j m. let apart = v.free_available j m in ground arith;
              free_pending = not_free;
              available_pending = off_available;
              count =
                  let n : p'.n ≡ p₁.n = ap (λ (q : Prealloc). q.n) a.rest in
                  omega (arith, v.total, v.count);
              total = omega (arith, v.total, length-append ps (i ∷ []));
            },
            entries-Appended a (i ∷ avs),
            entries-append p'.blocks ps (i ∷ [])
                ∙ ap (λ l. l ++ entries p'.blocks (i ∷ [])) (entries-Appended a ps),
          ))

-- The entries of nodes that hold no block.
abbrev pub blank_entries : ℕ → List (ℕ × ℕ)
blank_entries zero = []
blank_entries (suc n) = (block_idx_invalid, block_age_invalid) ∷ blank_entries n

-- After initialisation, whatever the nodes were before, all of them are free and hold no block.
pub flog_prealloc_initialize_lem :
    (p : Prealloc)
    → Returns
        (λ _ p'.
          (fs : List ℕ) × IsPrealloc p' fs [] []
          × (entries p'.blocks fs ≡ blank_entries fs_preallocate_size))
        (flog_prealloc_initialize p)
unfolding flog_prealloc_initialize set_node
flog_prealloc_initialize_lem p = returns (
  7 ∷ 6 ∷ 5 ∷ 4 ∷ 3 ∷ 2 ∷ 1 ∷ 0 ∷ [],
  record {
    free = (refl, (refl, (refl, (refl, (refl, (refl, (refl, (refl, refl))))))));
    available = refl;
    pending = refl;
    free_distinct = (refl, (refl, (refl, (refl, (refl, (refl, (refl, (refl, tt))))))));
    available_distinct = tt;
    pending_distinct = tt;
    free_available = λ j m. refl;
    free_pending = λ j m. refl;
    available_pending = λ j m. refl;
    count = refl;
    total = refl;
  },
  refl,
)
