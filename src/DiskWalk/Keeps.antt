-- ===== src/DiskWalk/Keeps.antt =====
-- The walk over all blocks keeps the invariants of the file system, whatever the callback.
use flog_fs.Base.{ℕ, zero, suc}
use flog_fs.Flash.{flash_open_page}
use flog_fs.DiskWalk.{
  Shown, BlockInfo, entries_loop, file_sectors_loop, valid_block, blocks_loop, flog_walk,
}
use flog_fs.Run.Keeps.{Keeps, Holds-and_then}
use flog_fs.Fs.{Fs}
use flog_fs.Alloc.Stable.{IsStable, stable_rules}

module _ {I : Fs → Type 0} (st : IsStable I) where
  module _ {A : Type 0} (walk_fn : Shown → A → A) where
    entries_loop-Keeps :
        (k : ℕ) (info : BlockInfo) (sector : ℕ) (arg : A)
        → Keeps I (entries_loop walk_fn k info sector arg)
    unfolding entries_loop
    entries_loop-Keeps zero info sector arg = search stable_rules
    entries_loop-Keeps (suc k) info sector arg =
        search (stable_rules, entries_loop-Keeps k) depth 20

    file_sectors_loop-Keeps :
        (k : ℕ) (info : BlockInfo) (sector : ℕ) (arg : A)
        → Keeps I (file_sectors_loop walk_fn k info sector arg)
    unfolding file_sectors_loop
    file_sectors_loop-Keeps zero info sector arg = search stable_rules
    file_sectors_loop-Keeps (suc k) info sector arg =
        search (stable_rules, file_sectors_loop-Keeps k) depth 20

    valid_block-Keeps :
        (block age type_id : ℕ) (arg : A) → Keeps I (valid_block walk_fn block age type_id arg)
    unfolding valid_block
    valid_block-Keeps block age type_id arg =
        search (stable_rules, entries_loop-Keeps, file_sectors_loop-Keeps) depth 20

    blocks_loop-Keeps : (k block : ℕ) (arg : A) → Keeps I (blocks_loop walk_fn k block arg)
    unfolding blocks_loop flash_open_page
    blocks_loop-Keeps zero block arg = search stable_rules
    blocks_loop-Keeps (suc k) block arg = record {
      at = λ s h.
          Holds-and_then (st.behind block _ h)
            (λ statistics. search (stable_rules, valid_block-Keeps, blocks_loop-Keeps k) depth 20);
    }

    pub flog_walk-Keeps : (arg : A) → Keeps I (flog_walk walk_fn arg)
    unfolding flog_walk
    flog_walk-Keeps arg = search (stable_rules, blocks_loop-Keeps) depth 20
