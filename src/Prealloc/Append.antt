-- ===== src/Prealloc/Append.antt =====
-- Appending a node to a list, `flog_prealloc_block_append`: the node comes last, the other lists and
-- every node's block and age stay.
use flog_fs.Base.{
  ℕ, zero, suc, ◌<◌, ◌≡◌, refl, false, List, [], ◌∷◌, ◌++◌, none, some, arith, length,
}
use flog_fs.Prealloc.{
  Ptr, Prealloc, set_node, set_next, append_walk, block_append, walk_fuel, ptr_is,
}
use flog_fs.Prealloc.Chain.{Chain, has, Distinct, Chain-frame, has-append}
use flog_fs.Run.Returns
use flog_fs.Run.Returns.{Returns, returns}

pub record Appended (p : Prealloc) (q : Ptr) (xs : List ℕ) (e : ℕ) (p' : Prealloc) : Type 0 where
  pub chain : Chain p'.blocks q (xs ++ e ∷ [])
  pub others : (i : ℕ) → has i (xs ++ e ∷ []) ≡ false → p'.blocks i ≡ p.blocks i
  pub contents :
      (i : ℕ) → ((p'.blocks i).block ≡ (p.blocks i).block) × ((p'.blocks i).age ≡ (p.blocks i).age)
  pub rest : p' ≡ record p { blocks = p'.blocks }

append_walk_lem :
    (k : ℕ) (p : Prealloc) (q : Ptr) (x : ℕ) (xs : List ℕ) (e : ℕ)
    → Chain p.blocks q (x ∷ xs)
    → Distinct (x ∷ xs)
    → has e (x ∷ xs) ≡ false
    → (p.blocks e).next ≡ none
    → length xs < k
    → Returns
        (λ _ p'.
          Appended p q (x ∷ xs) e p'
          × ((i : ℕ) → has i (x ∷ xs) ≡ false → p'.blocks i ≡ p.blocks i))
        (append_walk k q e p)
unfolding append_walk set_node
append_walk_lem zero p q x xs e c d h n lt = absurd (omega arith)
append_walk_lem (suc k) p q x [] e c d h n lt =
    rw (c.0, append_walk, c.1)
      (returns (
        record {
          chain = (refl, (ground arith, ground arith));
          others = λ i o. ground arith;
          contents = λ i. ground arith;
          rest = refl;
        },
        λ i o. ground arith,
      ))
append_walk_lem (suc k) p q x (y ∷ ys) e c d h n lt =
    rw (c.0, append_walk, c.1.0)
      (Returns.mono
        (append_walk_lem k p (some y) y ys e (refl, c.1.1) d.1 (ground arith) n (omega arith))
        λ _ p' (a, same). (
          record {
            chain = (refl, rw (same x d.0, c.1.0) a.chain);
            others = λ i o. a.others i (ground arith);
            contents = a.contents;
            rest = a.rest;
          },
          λ i o. same i (ground arith),
        ))

-- `flog_prealloc_block_append` of a node that is in no list; the result is the list's new head.
pub block_append_lem :
    (p : Prealloc) (q : Ptr) (xs : List ℕ) (e : ℕ)
    → Chain p.blocks q xs
    → Distinct xs
    → has e xs ≡ false
    → length xs < walk_fuel
    → Returns (λ head p'. Appended p head xs e p') (block_append q e p)
unfolding block_append set_node
block_append_lem p q [] e c d h lt =
    rw (c, block_append)
      (returns (record {
        chain = (refl, ground arith);
        others = λ i o. ground arith;
        contents = λ i. ground arith;
        rest = refl;
      }))
block_append_lem p q (x ∷ xs) e c d h lt =
    let p₁ = set_next e none p in
    let c₁ : Chain p₁.blocks (some x) (x ∷ xs) =
      Chain-frame p.blocks p₁.blocks (some x) (x ∷ xs) (λ i m. ground arith) (refl, c.1) in
    let new : ptr_is e (some x) ≡ false = ground arith in
    rw (c.0, block_append, new)
      (Returns.bind
        (append_walk_lem walk_fuel p₁ (some x) x xs e c₁ d h (ground arith) (omega arith))
        λ _ p' (a, same). returns (record {
          chain = a.chain;
          others = λ i o. ground (arith, a.others i o, has-append i (x ∷ xs) (e ∷ []));
          contents = λ i. ground (arith, a.contents i);
          rest = a.rest;
        }))
