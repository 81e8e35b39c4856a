-- ===== src/Prealloc.antt =====
-- The list of preallocated blocks of src/flogfs.c: eight nodes of one array, linked by pointers into
-- a free, an available and a pending list. A pointer to a node is its index, NULL is `none`.
-- A walk along a list takes at most `walk_fuel` rounds; `Prealloc.Chain` shows that it is enough.
pub mod Chain
pub mod Append
pub mod Queue
pub mod Without
pub mod Removal
pub mod Pending
pub mod Pool
pub mod Listed
use flog_fs.Base.{
  ℕ, zero, suc, ◌+◌, Bool, true, false, Option, none, some, ◌==◌, if◌then◌else◌, not, add16, sub16,
  add32, ◌||◌,
}
use flog_fs.Structs.{block_idx_invalid, block_age_invalid}
use flog_fs.Run.{Cmd, pure, out_of_fuel, ◌>>=◌, ◌>>◌, fetch, modify, assert}

abbrev pub fs_preallocate_size : ℕ
fs_preallocate_size = 8

abbrev pub Ptr : Type 0
Ptr = Option ℕ

-- flog_block_alloc_t
pub record BlockAlloc : Type 0 where
  pub block : ℕ
  pub age : ℕ
  pub next : Ptr

-- flog_prealloc_list_t
pub record Prealloc : Type 0 where
  pub blocks : ℕ → BlockAlloc
  pub n : ℕ
  pub age_sum : ℕ
  pub free : Ptr
  pub available : Ptr
  pub pending : Ptr

abbrev pub walk_fuel : ℕ
walk_fuel = 9

unfoldable pub set_node : ℕ → BlockAlloc → Prealloc → Prealloc
set_node i b p = record p { blocks = λ j. if j == i then b else p.blocks j }

abbrev pub set_next : ℕ → Ptr → Prealloc → Prealloc
set_next i q p = set_node i (record (p.blocks i) { next = q }) p

-- The loop of `flog_prealloc_initialize`: the rounds left, and the index.
pub free_from : ℕ → ℕ → Prealloc → Prealloc
unfolding set_node
free_from zero i p = p
free_from (suc k) i p =
    free_from k (i + 1)
      (record (set_node i
        (record { block = block_idx_invalid; age = block_age_invalid; next = p.free }) p) {
          free = some i;
        })

unfoldable pub flog_prealloc_initialize : Cmd Prealloc (Unit {0})
unfolding free_from
flog_prealloc_initialize p = pure tt (
    free_from fs_preallocate_size 0
      (record p { n = 0; free = none; available = none; pending = none }))

pub has_block_walk : ℕ → Ptr → ℕ → Cmd Prealloc Bool
has_block_walk zero iter block p = out_of_fuel
has_block_walk (suc k) none block p = pure false p
has_block_walk (suc k) (some i) block p =
    if (p.blocks i).block == block then pure true p else has_block_walk k (p.blocks i).next block p

-- flog_prealloc_has_block
unfoldable pub has_block : Ptr → ℕ → Cmd Prealloc Bool
unfolding has_block_walk
has_block list block = has_block_walk walk_fuel list block

-- `||` stops at the first list that has the block.
unfoldable pub flog_prealloc_contains : ℕ → Cmd Prealloc Bool
unfolding has_block
flog_prealloc_contains block = do
  p ← fetch
  free ← has_block p.free block
  if free then pure true else do
    pending ← has_block p.pending block
    if pending then pure true else has_block p.available block

-- flog_prealloc_block_prepend
unfoldable pub block_prepend : Ptr → ℕ → Cmd Prealloc Ptr
unfolding set_node
block_prepend list entry = do p ← fetch; modify (set_next entry list); pure (some entry)

abbrev pub ptr_is : ℕ → Ptr → Bool
ptr_is i none = false
ptr_is i (some j) = j == i

abbrev pub is_null : Ptr → Bool
is_null none = true
is_null (some i) = false

pub append_walk : ℕ → Ptr → ℕ → Cmd Prealloc (Unit {0})
unfolding set_node
append_walk zero iter entry p = out_of_fuel
append_walk (suc k) none entry p = pure tt p
append_walk (suc k) (some i) entry p = elim ((p.blocks i).next) [
  | none ↦ pure tt (set_next i (some entry) p)
  | some j ↦ append_walk k (some j) entry p
]

-- flog_prealloc_block_append
unfoldable pub block_append : Ptr → ℕ → Cmd Prealloc Ptr
unfolding append_walk set_node
block_append list entry = do
  p ← fetch
  modify (set_next entry none)
  assert (not (ptr_is entry list))
  if is_null list then pure (some entry) else do append_walk walk_fuel list entry; pure list

pub relink_last : Ptr → Ptr → Cmd Prealloc (Unit {0})
unfolding set_node
relink_last none q p = pure tt (record p { pending = q })
relink_last (some j) q p = pure tt (set_next j q p)

-- the body of the loop below at the entry that has the block; `last` is the entry before it
pub unlink_pending : Ptr → ℕ → Cmd Prealloc (Unit {0})
unfolding set_node block_prepend relink_last
unlink_pending last i = do
  p ← fetch
  modify (set_node i (record (p.blocks i) { block = block_idx_invalid; age = block_age_invalid }))
  relink_last last (p.blocks i).next
  q ← fetch
  free ← block_prepend q.free i
  modify (λ r. record r { free = free })

pub remove_walk : ℕ → Ptr → Ptr → ℕ → Cmd Prealloc (Unit {0})
unfolding unlink_pending
remove_walk zero last iter block p = out_of_fuel
remove_walk (suc k) last none block p = pure tt p
remove_walk (suc k) last (some i) block p =
    if (p.blocks i).block == block
    then unlink_pending last i p
    else remove_walk k (some i) (p.blocks i).next block p

-- flog_prealloc_block_remove_pending
unfoldable pub block_remove_pending : ℕ → Cmd Prealloc (Unit {0})
unfolding remove_walk
block_remove_pending block p = remove_walk walk_fuel none p.pending block p

-- The first entry of a list that an assertion has found not to be NULL.
abbrev pub front : Ptr → ℕ
front none = 0
front (some i) = i

unfoldable pub flog_prealloc_push : ℕ → ℕ → Cmd Prealloc (Unit {0})
unfolding flog_prealloc_contains block_append set_node
flog_prealloc_push block age = do
  found ← flog_prealloc_contains block
  assert (not found)
  p ← fetch
  assert (not (is_null p.free))
  let entry = front p.free
  modify (λ q. record q { free = (p.blocks entry).next })
  modify (set_node entry (record { block = block; age = age; next = none }))
  modify (λ q. record q { age_sum = add32 q.age_sum age; n = add16 q.n 1 })
  available ← block_append p.available entry
  modify (λ q. record q { available = available })

-- The threshold is not used by the code.
unfoldable pub flog_prealloc_pop : Cmd Prealloc BlockAlloc
unfolding block_append
flog_prealloc_pop = do
  p ← fetch
  assert (not (is_null p.available))
  let entry = front p.available
  modify (λ q. record q { available = (p.blocks entry).next; n = sub16 q.n 1 })
  pending ← block_append p.pending entry
  modify (λ q. record q { pending = pending })
  q ← fetch
  pure (q.blocks entry)

abbrev pub flog_prealloc_is_empty : Prealloc → Bool
flog_prealloc_is_empty p = p.n == 0

abbrev pub flog_prealloc_is_full : Prealloc → Bool
flog_prealloc_is_full p = is_null p.free
