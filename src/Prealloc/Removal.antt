-- ===== src/Prealloc/Removal.antt =====
-- The walk of `flog_prealloc_block_remove_pending` in src/flogfs.c along the pending nodes, behind the
-- head of the list.
use flog_fs.Base.{
  ℕ, zero, suc, ◌<◌, ◌≡◌, refl, sym, subst, true, false, Bool-cases, inl, inr, List, [], ◌∷◌, some,
  arith, ◌==◌, length,
}
use flog_fs.Prealloc.{
  Ptr, Prealloc, set_node, set_next, unlink_pending, relink_last, remove_walk, block_prepend,
}
use flog_fs.Prealloc.Chain.{Chain, has, Distinct, Chain-frame, entries, has_entry}
use flog_fs.Structs.{block_idx_invalid, block_age_invalid}
use flog_fs.Run.{ok}
use flog_fs.Run.Returns
use flog_fs.Run.Returns.{Returns, returns}
use flog_fs.Prealloc.Without.{without}

-- What the removal leaves: `i` is the node that was taken off, `xs` are the nodes that may differ.
pub record Removed (p : Prealloc) (xs : List ℕ) (i : ℕ) (p' : Prealloc) : Type 0 where
  pub free : p'.free ≡ some i
  pub next : (p'.blocks i).next ≡ p.free
  pub forgotten : (p'.blocks i).block ≡ block_idx_invalid
  pub others : (j : ℕ) → has j xs ≡ false → p'.blocks j ≡ p.blocks j
  pub contents :
      (j : ℕ)
      → (i == j) ≡ false
      → ((p'.blocks j).block ≡ (p.blocks j).block) × ((p'.blocks j).age ≡ (p.blocks j).age)
  pub available : p'.available ≡ p.available
  pub n : p'.n ≡ p.n

-- The walk past a node `l`, which the node that is taken off comes behind.
pub remove_walk_lem :
    (k : ℕ) (p : Prealloc) (l : ℕ) (xs : List ℕ) (block : ℕ)
    → Chain p.blocks (p.blocks l).next xs
    → Distinct (l ∷ xs)
    → has_entry block (entries p.blocks xs) ≡ true
    → length xs < k
    → Returns
        (λ _ p'.
          (i : ℕ) × Removed p (l ∷ xs) i p'
          × (has i xs ≡ true)
          × (has i (without p.blocks block xs) ≡ false)
          × Chain p'.blocks (some l) (l ∷ without p.blocks block xs)
          × (p'.pending ≡ p.pending))
        (remove_walk k (some l) (p.blocks l).next block p)
unfolding remove_walk unlink_pending relink_last set_node block_prepend
remove_walk_lem zero p l xs block c d h lt = absurd (omega arith)
remove_walk_lem (suc k) p l [] block c d h lt = ground arith
remove_walk_lem (suc k) p l (y ∷ ys) block c d h lt =
    let p₂ = set_next y p.free (
      set_next l (p.blocks y).next (
        set_node y (record (p.blocks y) { block = block_idx_invalid; age = block_age_invalid })
          p)) in
    let at_l : (p₂.blocks l).next ≡ (p.blocks y).next = ground arith in
    let behind : Chain p₂.blocks (p.blocks y).next ys =
      Chain-frame p.blocks p₂.blocks (p.blocks y).next ys (λ j m. ground arith) c.1 in
    elim (Bool-cases ((p.blocks y).block == block)) [
      | inl e ↦
          rw (c.0, remove_walk, e)
            (returns (
              y,
              record {
                free = refl;
                next = ground arith;
                forgotten = ground arith;
                others = λ j o. ground arith;
                contents = λ j o. ground arith;
                available = refl;
                n = refl;
              },
              ground arith,
              d.1.0,
              (refl, subst (λ q. Chain p₂.blocks q ys) (sym at_l) behind),
              refl,
            ))
      | inr e ↦
          rw (c.0, remove_walk, e)
            (Returns.mono (remove_walk_lem k p y ys block c.1 d.1 (ground arith) (omega arith))
              λ _ p' (i, r, m, gone, chain, same). (
                i,
                record {
                  free = r.free;
                  next = r.next;
                  forgotten = r.forgotten;
                  others = λ j o. r.others j (ground arith);
                  contents = r.contents;
                  available = r.available;
                  n = r.n;
                },
                ground arith,
                ground arith,
                (refl, (rw (r.others l d.0) c.0, chain.1)),
                same,
              ))
    ]

-- The walk along pending nodes without the block.
pub remove_walk-absent :
    (k : ℕ) (p : Prealloc) (last q : Ptr) (xs : List ℕ) (block : ℕ)
    → Chain p.blocks q xs
    → has_entry block (entries p.blocks xs) ≡ false
    → length xs < k
    → remove_walk k last q block p ≡ ok tt p
unfolding remove_walk
remove_walk-absent zero p last q xs block c h lt = absurd (omega arith)
remove_walk-absent (suc k) p last q [] block c h lt = ground arith
remove_walk-absent (suc k) p last q (x ∷ xs) block c h lt = ground (
  arith,
  remove_walk-absent k p (some x) (p.blocks x).next xs block c.1 (ground arith) (omega arith),
)
