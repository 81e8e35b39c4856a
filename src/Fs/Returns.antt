-- ===== src/Fs/Returns.antt =====
-- Opening a page always returns: the driver does not fail, and the walk along the pending list ends.
use flog_fs.Base.{ℕ, ◌≡◌, refl, false, Bool-cases, inl, inr, arith, List}
use flog_fs.Structs.{FlogResult, success}
use flog_fs.Flash.{flash_open_page}
use flog_fs.Prealloc.Queue.{IsPrealloc}
use flog_fs.Prealloc.Without.{without}
use flog_fs.Prealloc.Pending.{block_remove_pending_lem}
use flog_fs.Fs.{Fs, is_cached, flog_open_page}
use flog_fs.Fs.Cache.{IsCoherent, IsAt, open_cached}
use flog_fs.Run.Returns
use flog_fs.Run.Returns.{Returns, returns}

-- The page is open, the flash and the open files are as before, and the preallocation list is well
-- formed with the same available blocks.
pub record Opened (block page : ℕ) (avs : List ℕ) (from : Fs) (result : FlogResult) (s : Fs)
    : Type 0 where
  pub success : result ≡ success
  pub at : IsAt block page s
  pub memory : s.chip.mapped ≡ from.chip.mapped
  pub pages : s.chip.pages_per_block ≡ from.chip.pages_per_block
  pub readers : s.read_files ≡ from.read_files
  pub writers : s.write_files ≡ from.write_files
  pub params : s.params ≡ from.params
  pub stack : s.stack ≡ from.stack
  pub lists : (free : List ℕ) × (pending : List ℕ) × IsPrealloc s.prealloc free avs pending

module _ (block page : ℕ) (s : Fs) (fs avs ps : List ℕ) (v : IsPrealloc s.prealloc fs avs ps) where
  Opened-by_driver :
      is_cached s.cache_status block page ≡ false
      → Returns (λ result s'. Opened block page avs s result s') (flog_open_page block page s)
  unfolding flog_open_page flash_open_page
  Opened-by_driver e = rw e (
      Returns.bind
        (Returns.lifted {Q = λ _ t. Opened block page avs s success t}
          (λ (t : Fs) p. record t { prealloc = p }) _
          (block_remove_pending_lem s.prealloc fs avs ps block v)
          (λ a p' (free, w, _, _). record {
            success = refl;
            at = record {
              coherent = record { block = λ _. refl; page = λ _. refl; result = λ _. refl };
              block_open = refl;
              page_open = refl;
            };
            memory = refl;
            pages = refl;
            readers = refl;
            writers = refl;
            params = refl;
            stack = refl;
            lists = (free, without s.prealloc.blocks block ps, w);
          }))
        λ a t opened. returns opened)

  -- Opening a page returns success, from any coherent state with a well-formed preallocation list.
  -- Then the page is open in the chip and in the cache, the flash and the open files are as before,
  -- and the same blocks are available.
  pub flog_open_page_lem :
      IsCoherent s
      → Returns (λ result s'. Opened block page avs s result s') (flog_open_page block page s)
  flog_open_page_lem h = elim (Bool-cases (is_cached s.cache_status block page)) [
    | inr e ↦ Opened-by_driver e
    | inl e ↦ rw (open_cached block page s e) (
        returns (record {
          success = h.result (ground arith);
          at = record {
            coherent = h;
            block_open = ground (arith, h.block);
            page_open = ground (arith, h.page);
          };
          memory = refl;
          pages = refl;
          readers = refl;
          writers = refl;
          params = refl;
          stack = refl;
          lists = (fs, ps, v);
        }))
  ]
