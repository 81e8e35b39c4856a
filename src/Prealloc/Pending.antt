-- ===== src/Prealloc/Pending.antt =====
-- Opening a page of a block takes the block off the pending list,
-- `flog_prealloc_block_remove_pending`: its node becomes free and forgets the block.
use flog_fs.Base.{
  ℕ, ◌≡◌, refl, sym, true, false, Bool-cases, inl, inr, List, [], ◌∷◌, ◌∙◌, none, some, arith, ◌==◌,
}
use flog_fs.Prealloc.{
  Ptr, Prealloc, set_node, set_next, walk_fuel, unlink_pending, relink_last, remove_walk,
  block_remove_pending, block_prepend,
}
use flog_fs.Prealloc.Chain.{Chain, has, Disjoint, Chain-frame, entries, entries-frame, has_entry}
use flog_fs.Prealloc.Queue.{IsPrealloc}
use flog_fs.Prealloc.Without.{
  without, erase_entry, entries-without, has-without, Distinct-without, length-without,
  without-absent,
}
use flog_fs.Prealloc.Removal.{Removed, remove_walk_lem, remove_walk-absent}
use flog_fs.Structs.{block_idx_invalid, block_age_invalid}
use flog_fs.Run.Returns
use flog_fs.Run.Returns.{Returns, returns}

Disjoint-cons : (i : ℕ) (xs ys : List ℕ) → has i ys ≡ false → Disjoint xs ys → Disjoint (i ∷ xs) ys
Disjoint-cons i xs ys out d j m = elim (Bool-cases (i == j)) [
  | inl e ↦ ground arith
  | inr e ↦ d j (ground arith)
]

module _ (p : Prealloc) (fs avs ps : List ℕ) (block : ℕ) (v : IsPrealloc p fs avs ps) where
  -- The lists after a removal.
  abbrev Result : Prealloc → Type 0
  Result p' =
      (free : List ℕ) × IsPrealloc p' free avs (without p.blocks block ps)
      × (entries p'.blocks avs ≡ entries p.blocks avs)
      × (entries p'.blocks (without p.blocks block ps) ≡ erase_entry block (entries p.blocks ps))

  Result-absent : has_entry block (entries p.blocks ps) ≡ false → Result p
  Result-absent h =
      (fs, rw (without-absent p.blocks block ps h) v, refl, entries-without p.blocks block ps)

  Result-Removed :
      (i : ℕ) (p' : Prealloc)
      → Removed p ps i p'
      → has i ps ≡ true
      → has i (without p.blocks block ps) ≡ false
      → has_entry block (entries p.blocks ps) ≡ true
      → Chain p'.blocks p'.pending (without p.blocks block ps)
      → Result p'
  Result-Removed i p' r inside gone h chain =
      let off_free = λ (j : ℕ) (m : has j fs ≡ true). r.others j (v.free_pending j m) in
      let off_available = λ (j : ℕ) (m : has j avs ≡ true). r.others j (v.available_pending j m) in
      let not_free : has i fs ≡ false = elim (Bool-cases (has i fs)) [
        | inl m ↦ let out = v.free_pending i m in ground arith
        | inr m ↦ m
      ] in
      let not_available : has i avs ≡ false = elim (Bool-cases (has i avs)) [
        | inl m ↦ let out = v.available_pending i m in ground arith
        | inr m ↦ m
      ] in
      (
        i ∷ fs,
        record {
          free = (r.free, rw r.next (Chain-frame p.blocks p'.blocks p.free fs off_free v.free));
          available =
              rw r.available
                (Chain-frame p.blocks p'.blocks p.available avs off_available v.available);
          pending = chain;
          free_distinct = (not_free, v.free_distinct);
          available_distinct = v.available_distinct;
          pending_distinct = Distinct-without p.blocks block ps v.pending_distinct;
          free_available = Disjoint-cons i fs avs not_available v.free_available;
          free_pending =
              Disjoint-cons i fs (without p.blocks block ps) gone
                (λ j m. has-without p.blocks block j ps (v.free_pending j m));
          available_pending = λ j m. has-without p.blocks block j ps (v.available_pending j m);
          count = omega (arith, r.n, v.count);
          total = omega (arith, v.total, length-without p.blocks block ps h);
        },
        entries-frame p.blocks p'.blocks avs (λ j m. ground (arith, off_available j m)),
        entries-frame p.blocks p'.blocks (without p.blocks block ps)
              (λ j m. r.contents j (ground arith))
            ∙ entries-without p.blocks block ps,
      )

-- the first round of the walk
walk_here :
    (p : Prealloc) (x block : ℕ)
    → ((p.blocks x).block == block) ≡ true
    → remove_walk walk_fuel none (some x) block p ≡ unlink_pending none x p
unfolding remove_walk
walk_here p x block e = rw e refl

walk_on :
    (p : Prealloc) (x block : ℕ)
    → ((p.blocks x).block == block) ≡ false
    → remove_walk walk_fuel none (some x) block p ≡ remove_walk 8 (some x) (p.blocks x).next block p
unfolding remove_walk
walk_on p x block e = rw (remove_walk, e) refl

-- Taking off the head of the pending list.
unlink_head :
    (p : Prealloc) (fs avs : List ℕ) (x : ℕ) (xs : List ℕ) (block : ℕ)
    (v : IsPrealloc p fs avs (x ∷ xs))
    → ((p.blocks x).block == block) ≡ true
    → has_entry block (entries p.blocks (x ∷ xs)) ≡ true
    → Returns (λ _ p'. Result p fs avs (x ∷ xs) block v p') (unlink_pending none x p)
unfolding unlink_pending relink_last set_node block_prepend
unlink_head p fs avs x xs block v here present =
    let p₁ : Prealloc = record p {
      blocks =
          (set_next x p.free (
            set_node x (record (p.blocks x) { block = block_idx_invalid; age = block_age_invalid })
              p)).blocks;
      free = some x;
      pending = (p.blocks x).next;
    } in
    let kept : without p.blocks block (x ∷ xs) ≡ xs = rw here refl in
    returns (
      Result-Removed p fs avs (x ∷ xs) block v x p₁
        (record {
          free = refl;
          next = ground arith;
          forgotten = ground arith;
          others = λ j o. ground arith;
          contents = λ j o. ground arith;
          available = refl;
          n = refl;
        })
        (ground arith) (rw kept v.pending_distinct.0) present
        (rw kept
          (Chain-frame p.blocks p₁.blocks (p.blocks x).next xs (λ j m. ground arith) v.pending.1)))

-- the walk from the head of the pending list `q`
remove-Result :
    (p : Prealloc) (q : Ptr) (fs avs ps : List ℕ) (block : ℕ) (v : IsPrealloc p fs avs ps)
    → p.pending ≡ q
    → Returns (λ _ p'. Result p fs avs ps block v p') (remove_walk walk_fuel none q block p)
unfolding remove_walk
remove-Result p q fs avs [] block v e =
    let c : q ≡ none = sym e ∙ v.pending in rw c (returns (Result-absent p fs avs [] block v refl))
remove-Result p q fs avs (x ∷ xs) block v e =
    let c : q ≡ some x = sym e ∙ v.pending.0 in
    elim (Bool-cases (has_entry block (entries p.blocks (x ∷ xs)))) [
      | inr absent ↦
          let chain : Chain p.blocks q (x ∷ xs) = (c, v.pending.1) in
          rw
            (remove_walk-absent walk_fuel p none q (x ∷ xs) block chain absent
              (omega (arith, v.total)))
            (returns (Result-absent p fs avs (x ∷ xs) block v absent))
      | inl present ↦ elim (Bool-cases ((p.blocks x).block == block)) [
        | inl here ↦
            rw (c, walk_here p x block here) (unlink_head p fs avs x xs block v here present)
        | inr there ↦
            let kept : without p.blocks block (x ∷ xs) ≡ x ∷ without p.blocks block xs =
              rw there refl in
            rw (c, walk_on p x block there)
              (Returns.mono
                (remove_walk_lem 8 p x xs block v.pending.1 v.pending_distinct (ground arith)
                  (omega (arith, v.total)))
                λ _ p' (i, r, inside, gone, chain, same).
                  Result-Removed p fs avs (x ∷ xs) block v i p' r (ground arith)
                    (rw kept (ground arith)) present (rw (kept, same, v.pending.0) chain))
      ]
    ]

-- A block that is pending is taken off the list; if it is not pending, the list stays. The available
-- blocks stay either way, and the nodes are again shared out among the three lists.
pub block_remove_pending_lem :
    (p : Prealloc) (fs avs ps : List ℕ) (block : ℕ)
    → IsPrealloc p fs avs ps
    → Returns
        (λ _ p'.
          (free : List ℕ) × IsPrealloc p' free avs (without p.blocks block ps)
          × (entries p'.blocks avs ≡ entries p.blocks avs)
          × (entries p'.blocks (without p.blocks block ps)
              ≡ erase_entry block (entries p.blocks ps)))
        (block_remove_pending block p)
unfolding block_remove_pending
block_remove_pending_lem p fs avs ps block v = remove-Result p p.pending fs avs ps block v refl
