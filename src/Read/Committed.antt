-- ===== src/Read/Committed.antt =====
-- A commit of `flogfs_write` followed by a read of `flogfs_read` of src/flogfs.c, by a reader of the
-- same file.
use flog_fs.Base.{
  ℕ, suc, ◌+◌, ◌/◌, ◌^◌, ◌<◌, ◌≤◌, ◌≡◌, ◌≢◌, ◌∙◌, refl, sym, ap, subst, false, none, List, ◌++◌,
  ◌==◌, take, length, append_assoc, arith,
}
use mathlib.Core.Path.{ap₂}
use flog_fs.Bytes.{load_bytes}
use flog_fs.Structs.{init_sector, tail_sector, SectorSpare, invalid_sector_spare, read_spare}
use flog_fs.Structs.RoundTrip.{spare_round_trip}
use flog_fs.Flash.{fs_sector_size, fs_sectors_per_page}
use flog_fs.Flash.Address.{IsGeometry}
use flog_fs.Fs.{Fs, Params, WriteFile, ReadFile}
use flog_fs.Inode.{table_bound}
use flog_fs.Write.{flog_increment_sector, with_init_header, flog_commit_file_sector}
use flog_fs.Write.Sector.{Stored}
use flog_fs.Write.Commit.{IsReady, committed_spare, flog_commit_file_sector-Committed}
use flog_fs.Write.Elsewhere.{Stored-IsWritten}
use flog_fs.Read.{flogfs_read}
use flog_fs.Read.Contents.{bytes_of, spare_of, following, behind}
use flog_fs.Read.Stream.{IsReader, unread}
use flog_fs.Read.Loop.{flogfs_read-unread}
use flog_fs.Read.Following.{IsWritten}
use flog_fs.Read.Extended.{
  IsBefore, IsBefore-other, IsBefore-extended, behind-extended, IsReadable-extended,
  following-unwritten,
}
use flog_fs.Run.{◌>>◌}
use flog_fs.Run.Returns
use flog_fs.Run.Returns.{Returns, returns}

-- A reader of the file has the writer's sector next, behind the sectors that are written.
pub record IsFollower (blocks : ℕ) (g : WriteFile) (k : ℕ) (r : ReadFile) (s : Fs) : Type 0 where
  pub reader : IsReader s.chip s.params blocks k r
  pub before : IsBefore s.chip s.params r.id g.block g.sector k r.block r.sector
  pub unwritten : following s.chip s.params r.id g.block g.sector ≡ none
  pub room : flog_increment_sector s.params g.sector / fs_sectors_per_page < s.chip.pages_per_block
  pub few : suc k ≤ table_bound s.params

-- the data of the sector that is committed
abbrev pub committed_data : WriteFile → List ℕ → List ℕ
committed_data g bytes = load_bytes g.sector_buffer 0 g.offset ++ bytes

-- What a read after a commit returns.
pub record CommittedRead (g : WriteFile) (bytes : List ℕ) (k n : ℕ) (r : ReadFile) (from : Fs)
    (result : ℕ × List ℕ) : Type 0 where
  pub count : result.0 ≡ length result.1
  pub bytes_read : result.1 ≡ take n (unread from.chip from.params k r ++ committed_data g bytes)

module _ (blocks : ℕ) (g : WriteFile) (bytes : List ℕ) (spare : SectorSpare) (from s : Fs)
    (geometry : IsGeometry from.chip.pages_per_block blocks) (block_in : g.block < blocks)
    (page_in : g.sector / fs_sectors_per_page < from.chip.pages_per_block)
    (no_tail : g.sector ≢ tail_sector) (no_init : g.sector ≢ init_sector)
    (stored : Stored g bytes spare from s) (whole : spare.nbytes ≡ g.offset + length bytes)
    (fits : spare.nbytes ≤ fs_sector_size) (valid : invalid_sector_spare spare ≡ false)
    (spare_is : spare_of s.chip g.block g.sector ≡ spare) (k : ℕ) (r : ReadFile)
    (h : IsFollower blocks g k r from) where
  abbrev written : IsWritten from.chip s.chip blocks g.block g.sector
  written = Stored-IsWritten blocks g bytes spare from s geometry block_in page_in stored

  data_is : bytes_of s.chip g.block g.sector 0 spare.nbytes ≡ committed_data g bytes
  data_is = ap (λ n. bytes_of s.chip g.block g.sector 0 n) whole ∙ stored.contents

  still_unwritten : following s.chip from.params r.id g.block g.sector ≡ none
  still_unwritten =
      following-unwritten from.chip s.chip from.params r.id blocks g.block g.sector written no_tail
        block_in h.room h.unwritten

  other : ¬ ((r.block ≡ g.block) × (r.sector ≡ g.sector))
  other =
      IsBefore-other from.chip s.chip from.params r.id blocks g.block g.sector written no_tail
        no_init h.unwritten k r.block r.sector h.before

  pub IsFollower-IsReader : IsReader s.chip from.params blocks (suc k) r
  IsFollower-IsReader = record {
    block_in = h.reader.block_in;
    page_in = rw written.pages h.reader.page_in;
    fits = h.reader.fits;
    head_in = h.reader.head_in;
    readable =
        IsReadable-extended from.chip s.chip from.params r.id blocks g.block g.sector written
          no_tail no_init h.unwritten spare (committed_data g bytes) valid spare_is data_is block_in
          page_in fits still_unwritten k r.block r.sector h.reader.block_in h.reader.readable
          h.before;
  }

  pub IsFollower-IsBefore :
      IsBefore s.chip from.params r.id g.block
        (flog_increment_sector from.params g.sector)
        (suc k)
        r.block
        r.sector
  IsFollower-IsBefore =
      IsBefore-extended from.chip s.chip from.params r.id blocks g.block g.sector written no_tail
        no_init h.unwritten spare (committed_data g bytes) valid spare_is data_is block_in page_in
        fits still_unwritten k r.block r.sector h.reader.block_in h.reader.readable h.before

  pub unread-committed :
      unread s.chip from.params (suc k) r
      ≡ unread from.chip from.params k r ++ committed_data g bytes
  unread-committed =
      ap₂ ◌++◌
        (written.bytes r.block r.sector r.offset r.sector_remaining_bytes h.reader.block_in
          h.reader.page_in other h.reader.fits)
        (behind-extended from.chip s.chip from.params r.id blocks g.block g.sector written no_tail
          no_init h.unwritten spare (committed_data g bytes) valid spare_is data_is block_in page_in
          fits still_unwritten k r.block r.sector h.reader.block_in h.reader.readable h.before)
      ∙ sym (
          append_assoc (bytes_of from.chip r.block r.sector r.offset r.sector_remaining_bytes)
            (behind from.chip from.params r.id k r.block r.sector) (committed_data g bytes))

  read_after :
      (n reader : ℕ)
      → s.read_files reader ≡ r
      → n < 2 ^ 32
      → Returns (λ result _. CommittedRead g bytes k n r from result) (flogfs_read reader n s)
  read_after n reader same small =
      let (free, avs, pending, lists) = stored.lists in
      let now : IsReader s.chip s.params blocks (suc k) (s.read_files reader) =
        subst (λ (f : ReadFile). IsReader s.chip s.params blocks (suc k) f) (sym same)
          (subst (λ (p : Params). IsReader s.chip p blocks (suc k) r) (sym stored.configured)
            IsFollower-IsReader) in
      let few = ap table_bound stored.configured in
      Returns.mono
        (flogfs_read-unread reader n (suc k) blocks free avs pending s
          (subst (λ (pages : ℕ). IsGeometry pages blocks) (sym stored.pages) geometry)
          stored.coherent lists now (omega (arith, few, h.few)) small)
        (λ result t w. record {
          count = w.count;
          bytes_read =
              w.bytes
              ∙ (ap₂ (λ (p : Params) (f : ReadFile). take n (unread s.chip p (suc k) f))
                    stored.configured same
                  ∙ ap (take n) unread-committed);
        })

pub with_init_header-same : (g : WriteFile) → g.sector ≢ init_sector → with_init_header g ≡ g
unfolding with_init_header
with_init_header-same g no_init =
    let later : (g.sector == init_sector) ≡ false = ground arith in rw later refl

-- Let a file be ready for a commit of bytes that fit into its erased sector, neither the first nor
-- the tail sector of its block, in a coherent state with a well-formed preallocation list, and let
-- that sector be the next for a reader, behind the at most `k` sectors that follow it, with nothing
-- written behind. The commit followed by a read of `n` bytes returns the first `n` bytes, or all of
-- them if these are fewer, of what the reader had still to read, the data buffered for the sector,
-- and the committed bytes.
pub flogfs_read-flog_commit_file_sector :
    (blocks file : ℕ) (bytes fs avs ps : List ℕ) (s : Fs) (depth reader k n : ℕ)
    → IsReady blocks file bytes fs avs ps s
    → (s.write_files file).sector ≢ tail_sector
    → (s.write_files file).sector ≢ init_sector
    → s.stack 1 < 2 ^ 8
    → IsFollower blocks (s.write_files file) k (s.read_files reader) s
    → n < 2 ^ 32
    → Returns
        (λ result _. CommittedRead (s.write_files file) bytes k n (s.read_files reader) s result)
        ((flog_commit_file_sector (suc depth) file bytes >> flogfs_read reader n) s)
flogfs_read-flog_commit_file_sector blocks file bytes fs avs ps s depth reader k n ready no_tail
      no_init byte follower small =
    Returns.bind
      (flog_commit_file_sector-Committed blocks file bytes fs avs ps s depth ready (ground arith))
      λ _ t done.
        let g = s.write_files file in
        let spare = committed_spare g (length bytes) s in
        let plain : with_init_header g ≡ g = with_init_header-same g no_init in
        let stored = subst (λ (f : WriteFile). Stored f bytes spare s t) plain done.stored in
        let fits =
          subst (λ (f : WriteFile). f.offset + length bytes ≤ fs_sector_size) plain ready.fits in
        let size : spare.nbytes ≡ g.offset + length bytes =
          let later : (g.sector == init_sector) ≡ false = ground arith in
          rw later (omega (arith, fits)) in
        read_after blocks g bytes spare s t ready.geometry
          (subst (λ (f : WriteFile). f.block < blocks) plain ready.block_in)
          (subst (λ (f : WriteFile). f.sector / fs_sectors_per_page < s.chip.pages_per_block) plain
            ready.page_in)
          no_tail no_init stored size (omega (arith, fits, size)) refl
          (ap read_spare stored.marks
            ∙ spare_round_trip spare (record {
              type_id = omega arith;
              nothing = byte;
              nbytes = omega (arith, fits, size);
            }))
          k (s.read_files reader) follower n reader
          (ap (λ (fs : ℕ → ReadFile). fs reader) stored.readers) small
