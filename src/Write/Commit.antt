-- ===== src/Write/Commit.antt =====
-- Committing a sector inside a block, `flog_commit_file_sector` where no block has to be allocated.
use flog_fs.Base.{
  ℕ, suc, ◌+◌, ◌/◌, ◌<◌, ◌≤◌, ◌≡◌, refl, arith, true, false, Bool-cases, inl, inr, List, ◌==◌,
  length,
}
use flog_fs.Structs.{FlogResult, success, SectorSpare, block_type_file, tail_sector}
use flog_fs.Flash.{fs_sector_size, fs_sectors_per_page}
use flog_fs.Flash.Address.{IsGeometry}
use flog_fs.Prealloc.Queue.{IsPrealloc}
use flog_fs.Fs.{Fs, WriteFile, DirtyBlock, clean}
use flog_fs.Fs.Cache.{IsCoherent}
use flog_fs.Write.{
  with_init_header, advance, put_file, data_nbytes, write_inner, commit_inner,
  flog_commit_file_sector,
}
use flog_fs.Write.Sector.{IsErased, Stored, write_file_sector_lem}
use flog_fs.Write.Depth.{commit_inside}
use flog_fs.Run.{modify, pure, ◌>>◌}
use flog_fs.Run.Returns
use flog_fs.Run.Returns.{Returns, returns}

-- The file, with the header in its buffer if it is at the first sector, can be committed to an erased
-- sector.
pub record IsReady (blocks file : ℕ) (bytes fs avs ps : List ℕ) (s : Fs) : Type 0 where
  pub geometry : IsGeometry s.chip.pages_per_block blocks
  pub block_in : (with_init_header (s.write_files file)).block < blocks
  pub page_in :
      (with_init_header (s.write_files file)).sector / fs_sectors_per_page < s.chip.pages_per_block
  pub fits : (with_init_header (s.write_files file)).offset + length bytes ≤ fs_sector_size
  pub erased :
      IsErased s.chip
        (with_init_header (s.write_files file)).block
        (with_init_header (s.write_files file)).sector
  pub coherent : IsCoherent s
  pub lists : IsPrealloc s.prealloc fs avs ps

-- The file has moved on to the next sector, and its header or data, the new bytes and the number of
-- bytes of data are stored.
pub record Committed (g : WriteFile) (file : ℕ) (bytes : List ℕ) (spare : SectorSpare) (from : Fs)
    (result : FlogResult) (s : Fs) : Type 0 where
  pub success : result ≡ success
  pub moved_on : s.write_files file ≡ advance s.params (length bytes) g
  pub stored : Stored g bytes spare from s

-- the spare area of the sector that is committed
abbrev pub committed_spare : WriteFile → ℕ → Fs → SectorSpare
committed_spare f n s = record {
  type_id = block_type_file;
  nothing = s.stack 1;
  nbytes = data_nbytes f n;
}

-- The stored sector does not depend on which files are dirty or where the writers are.
Stored-same :
    (f : WriteFile) (bytes : List ℕ) (spare : SectorSpare) (from s : Fs) (dirty : DirtyBlock)
    (writers : ℕ → WriteFile)
    → Stored f bytes spare (record from { dirty_block = dirty }) s
    → Stored f bytes spare from (record s { write_files = writers })
Stored-same f bytes spare from s dirty writers h = record {
  contents = h.contents;
  marks = h.marks;
  others = h.others;
  pages = h.pages;
  coherent = record {
    block = h.coherent.block;
    page = h.coherent.page;
    result = h.coherent.result;
  };
  lists = h.lists;
  readers = h.readers;
  configured = h.configured;
  stack = h.stack;
}

module _ (blocks file : ℕ) (bytes fs avs ps : List ℕ) (s : Fs)
    (h : IsReady blocks file bytes fs avs ps s) where
  abbrev CommittedFrom : FlogResult → Fs → Type 0
  unfolding with_init_header
  CommittedFrom =
      Committed (with_init_header (s.write_files file)) file bytes
        (committed_spare (s.write_files file) (length bytes) s) s

  put_file-get : (g : WriteFile) (u : Fs) → (put_file file g u).write_files file ≡ g
  put_file-get g u = let same : (file == file) ≡ true = ground arith in rw same refl

  write_inner-Committed : Returns CommittedFrom (write_inner file bytes s)
  unfolding write_inner CommittedFrom
  write_inner-Committed =
      Returns.bind
        {k = λ _.
          modify (λ s'.
            put_file file (advance s'.params (length bytes) (with_init_header (s.write_files file)))
              s')
          >> pure success}
        (write_file_sector_lem blocks (with_init_header (s.write_files file)) bytes
          (committed_spare (s.write_files file) (length bytes) s) s fs avs ps h.geometry h.block_in
          h.page_in h.fits h.coherent h.lists h.erased)
        λ _ t done.
          returns
            {s = put_file file
              (advance t.params (length bytes) (with_init_header (s.write_files file))) t}
            (record {
              success = refl;
              moved_on = put_file-get _ t;
              stored = Stored-same _ bytes _ s t s.dirty_block _ done;
            })

cleaned-IsReady :
    (blocks file : ℕ) (bytes fs avs ps : List ℕ) (s : Fs)
    → IsReady blocks file bytes fs avs ps s
    → IsReady blocks file bytes fs avs ps (record s { dirty_block = clean })
unfolding with_init_header
cleaned-IsReady blocks file bytes fs avs ps s h = record {
  geometry = h.geometry;
  block_in = h.block_in;
  page_in = h.page_in;
  fits = h.fits;
  erased = h.erased;
  coherent = record {
    block = h.coherent.block;
    page = h.coherent.page;
    result = h.coherent.result;
  };
  lists = h.lists;
}

commit_inner-Committed :
    (blocks file : ℕ) (bytes fs avs ps : List ℕ) (s : Fs)
    → (h : IsReady blocks file bytes fs avs ps s)
    → Returns (CommittedFrom blocks file bytes fs avs ps s h) (commit_inner file bytes s)
unfolding commit_inner CommittedFrom
commit_inner-Committed blocks file bytes fs avs ps s h =
    elim (Bool-cases (s.dirty_block.file == file)) [
      | inl e ↦ rw e (
          Returns.mono
            (write_inner-Committed blocks file bytes fs avs ps (record s { dirty_block = clean })
              (cleaned-IsReady blocks file bytes fs avs ps s h))
            (λ r t done. record {
              success = done.success;
              moved_on = done.moved_on;
              stored = Stored-same _ bytes _ s t clean t.write_files done.stored;
            }))
      | inr e ↦ rw e (write_inner-Committed blocks file bytes fs avs ps s h)
    ]

-- From a coherent state with a well-formed preallocation list, a commit of bytes that fit into an
-- erased sector, any sector but the tail sector of its block, returns success. Then the file has moved
-- on to the next sector, and the flash holds its header or buffered data, the new bytes behind them,
-- and the number of bytes of data; the rest of the flash and the files that are open for reading are
-- as before.
pub flog_commit_file_sector-Committed :
    (blocks file : ℕ) (bytes fs avs ps : List ℕ) (s : Fs) (k : ℕ)
    → IsReady blocks file bytes fs avs ps s
    → ((s.write_files file).sector == tail_sector) ≡ false
    → Returns
        (Committed
          (with_init_header (s.write_files file))
          file
          bytes
          (committed_spare (s.write_files file) (length bytes) s)
          s)
        (flog_commit_file_sector (suc k) file bytes s)
unfolding CommittedFrom
flog_commit_file_sector-Committed blocks file bytes fs avs ps s k h inside =
    rw (commit_inside k file bytes s inside)
      (commit_inner-Committed blocks file bytes fs avs ps s h)
