-- ===== src/Tests/Lists.antt =====
-- The theorems on the preallocation list, at eight nodes of which one is available and one pending.
use flog_fs.Base.{ℕ, ◌+◌, ◌≡◌, refl, arith, false, List, [], ◌∷◌, none, some, if◌then◌else◌, ◌==◌}
use flog_fs.Structs.{block_idx_invalid}
use flog_fs.Prealloc.{
  BlockAlloc, Prealloc, flog_prealloc_contains, flog_prealloc_push, flog_prealloc_pop,
  block_remove_pending, has_block,
}
use flog_fs.Prealloc.Chain.{entries}
use flog_fs.Prealloc.Queue.{IsPrealloc, flog_prealloc_push_lem, flog_prealloc_pop_lem}
use flog_fs.Prealloc.Pending.{block_remove_pending_lem}
use flog_fs.Run.{ok}
use flog_fs.Run.Returns.{Returns}

-- Nodes 2 to 7 are free, node 1 is available with block 40, node 0 is pending with block 30.
abbrev pub nodes : ℕ → BlockAlloc
nodes i =
    if i == 0
    then record { block = 30; age = 3; next = none }
    else if i == 1
    then record { block = 40; age = 4; next = none }
    else if i == 7
    then record { block = block_idx_invalid; age = 0; next = none }
    else record { block = block_idx_invalid; age = 0; next = some (i + 1) }

abbrev pub list : Prealloc
list = record {
  blocks = nodes;
  n = 1;
  age_sum = 7;
  free = some 2;
  available = some 1;
  pending = some 0;
}

abbrev pub free_nodes : List ℕ
free_nodes = 3 ∷ 4 ∷ 5 ∷ 6 ∷ 7 ∷ []

pub list-IsPrealloc : IsPrealloc list (2 ∷ free_nodes) (1 ∷ []) (0 ∷ [])
list-IsPrealloc = record {
  free = (refl, (refl, (refl, (refl, (refl, (refl, refl))))));
  available = (refl, refl);
  pending = (refl, refl);
  free_distinct = (refl, (refl, (refl, (refl, (refl, (refl, tt))))));
  available_distinct = (refl, tt);
  pending_distinct = (refl, tt);
  free_available = λ i h. ground arith;
  free_pending = λ i h. ground arith;
  available_pending = λ i h. ground arith;
  count = refl;
  total = refl;
}

absent : flog_prealloc_contains 50 list ≡ ok false list
unfolding flog_prealloc_contains has_block
absent = refl

flog_prealloc_push_lem_example :
    Returns
      (λ _ p'.
        IsPrealloc p' free_nodes (1 ∷ 2 ∷ []) (0 ∷ [])
        × (entries p'.blocks (1 ∷ 2 ∷ []) ≡ (40, 4) ∷ (50, 5) ∷ [])
        × (entries p'.blocks (0 ∷ []) ≡ (30, 3) ∷ [])
        × (p'.age_sum ≡ 12))
      (flog_prealloc_push 50 5 list)
flog_prealloc_push_lem_example =
    flog_prealloc_push_lem list 2 free_nodes (1 ∷ []) (0 ∷ []) 50 5 list-IsPrealloc absent

flog_prealloc_pop_lem_example :
    Returns
      (λ taken p'.
        IsPrealloc p' (2 ∷ free_nodes) [] (0 ∷ 1 ∷ [])
        × (((taken.block, taken.age) ∷ entries p'.blocks []) ≡ (40, 4) ∷ [])
        × (entries p'.blocks (0 ∷ 1 ∷ []) ≡ (30, 3) ∷ (taken.block, taken.age) ∷ []))
      (flog_prealloc_pop list)
flog_prealloc_pop_lem_example =
    flog_prealloc_pop_lem list 1 (2 ∷ free_nodes) [] (0 ∷ []) list-IsPrealloc

block_remove_pending_lem_example :
    Returns
      (λ _ p'.
        (free : List ℕ) × IsPrealloc p' free (1 ∷ []) []
        × (entries p'.blocks (1 ∷ []) ≡ (40, 4) ∷ [])
        × (entries p'.blocks [] ≡ []))
      (block_remove_pending 30 list)
block_remove_pending_lem_example =
    block_remove_pending_lem list (2 ∷ free_nodes) (1 ∷ []) (0 ∷ []) 30 list-IsPrealloc
