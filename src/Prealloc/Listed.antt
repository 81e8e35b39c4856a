-- ===== src/Prealloc/Listed.antt =====
-- Every operation on well-formed preallocation lists ends, and leaves them well formed.
use flog_fs.Base.{ℕ, ◌≡◌, false, Bool-cases, inl, inr, ◌||◌, List, [], ◌∷◌, ◌++◌}
use flog_fs.Prealloc.{
  Prealloc, flog_prealloc_contains, flog_prealloc_push, flog_prealloc_pop, block_remove_pending,
}
use flog_fs.Prealloc.Chain.{entries, has_entry}
use flog_fs.Prealloc.Queue.{IsPrealloc, contains_lem, flog_prealloc_push_lem, flog_prealloc_pop_lem}
use flog_fs.Prealloc.Without.{without}
use flog_fs.Prealloc.Pending.{block_remove_pending_lem}
use flog_fs.Prealloc.Pool.{push_contained, push_full}
use flog_fs.Run.{ok}
use flog_fs.Run.Ends
use flog_fs.Run.Ends.{Ends, ends, failed, Lasts}

-- The eight nodes are shared out among the three lists.
pub record IsListed (p : Prealloc) : Type 0 where
  pub free : List ℕ
  pub available : List ℕ
  pub pending : List ℕ
  pub lists : IsPrealloc p free available pending

pub block_remove_pending-IsListed : (block : ℕ) → Lasts IsListed (block_remove_pending block)
block_remove_pending-IsListed block = record {
  at = λ p v.
      Ends.from_total (block_remove_pending_lem p v.free v.available v.pending block v.lists)
        λ _ p' (free, lists, _, _). record {
          free = free;
          available = v.available;
          pending = without p.blocks block v.pending;
          lists = lists;
        };
}

pub flog_prealloc_contains-IsListed : (block : ℕ) → Lasts IsListed (flog_prealloc_contains block)
flog_prealloc_contains-IsListed block = record {
  at = λ p v. rw (contains_lem p v.free v.available v.pending block v.lists) (ends v);
}

push-new :
    (p : Prealloc) (fs avs ps : List ℕ) (block age : ℕ)
    → IsPrealloc p fs avs ps
    → flog_prealloc_contains block p ≡ ok false p
    → Ends (λ _ q. IsListed q) (flog_prealloc_push block age p)
push-new p [] avs ps block age v e = rw (push_full p block age e v.free) failed
push-new p (i ∷ fs) avs ps block age v e =
    Ends.from_total (flog_prealloc_push_lem p i fs avs ps block age v e) λ _ p' (lists, _, _, _).
      record { free = fs; available = avs ++ i ∷ []; pending = ps; lists = lists }

pub flog_prealloc_push-IsListed : (block age : ℕ) → Lasts IsListed (flog_prealloc_push block age)
flog_prealloc_push-IsListed block age = record {
  at = λ p v.
      let c = contains_lem p v.free v.available v.pending block v.lists in
      elim (Bool-cases (
        has_entry block (entries p.blocks v.free)
        || (has_entry block (entries p.blocks v.pending)
            || has_entry block (entries p.blocks v.available)))) [
              | inl found ↦ rw (push_contained p block age (rw found at c)) failed
              | inr new ↦ push-new p v.free v.available v.pending block age v.lists (rw new at c)
            ];
}

pop-at :
    (p : Prealloc) (fs avs ps : List ℕ)
    → IsPrealloc p fs avs ps
    → Ends (λ _ q. IsListed q) (flog_prealloc_pop p)
unfolding flog_prealloc_pop
pop-at p fs [] ps v = rw v.available failed
pop-at p fs (i ∷ avs) ps v =
    Ends.from_total (flog_prealloc_pop_lem p i fs avs ps v) λ taken p' (lists, _, _). record {
      free = fs;
      available = avs;
      pending = ps ++ i ∷ [];
      lists = lists;
    }

pub flog_prealloc_pop-IsListed : Lasts IsListed flog_prealloc_pop
flog_prealloc_pop-IsListed = record { at = λ p v. pop-at p v.free v.available v.pending v.lists }
