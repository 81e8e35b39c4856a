-- ===== src/Write/Grown.antt =====
-- The loop of `flogfs_write` of src/flogfs.c while the file stays in its block, and what a reader of
-- the file has to read then.
use native.Mathlib.Decide.{dec_lt}
use mathlib.Core.Path.{ap₂}
use flog_fs.Base.{
  ℕ, zero, suc, ◌+◌, ◌*◌, ◌/◌, ◌^◌, ◌<◌, ◌≤◌, ◌≡◌, ◌∙◌, sym, ap, subst, List, [], ◌∷◌, ◌++◌, ◌==◌,
  leb, if◌then◌else◌, take, drop, length, add32, append-nil, append_assoc, arith, length-take,
  length-drop, take-all,
}
use flog_fs.Structs.{succeeded}
use flog_fs.Flash.{Chip, fs_sector_size, fs_sectors_per_page}
use flog_fs.Prealloc.{Prealloc}
use flog_fs.Prealloc.Queue.{IsPrealloc}
use flog_fs.Fs.{Fs, Params, WriteFile, ReadFile, CacheStatus}
use flog_fs.Fs.Cache.{IsCoherent}
use flog_fs.Write.{advance, commit_depth, flog_commit_file_sector, write_loop, flogfs_write}
use flog_fs.Run.{pure, ◌>>=◌}
use flog_fs.Write.Buffer.{buffered, Buffered, write_loop-Buffered}
use flog_fs.Write.Sector.{Stored, IsErased}
use flog_fs.Write.Commit.{IsReady, committed_spare, flog_commit_file_sector-Committed}
use flog_fs.Read.Stream.{unread}
use flog_fs.Read.Committed.{with_init_header-same}
use flog_fs.Read.Streaming.{IsStream, IsStreaming, IsStream-same, flowing, commit-IsStreaming}
use flog_fs.Run.Returns
use flog_fs.Run.Returns.{Returns, returns}

-- What a write of `src` that had counted `count` bytes before leaves.
pub record Grown (blocks file reader k m count : ℕ) (src : List ℕ) (s : Fs) (n : ℕ) (t : Fs)
    : Type 0 where
  pub left : ℕ
  pub more : ℕ
  pub balance : left + more ≡ k + m
  pub streaming : IsStreaming blocks file reader left more t
  pub all : n ≡ count + length src
  pub grown : flowing file reader left t ≡ flowing file reader k s ++ src

IsCoherent-same :
    (s t : Fs) → t.chip ≡ s.chip → t.cache_status ≡ s.cache_status → IsCoherent s → IsCoherent t
IsCoherent-same s t chip cache h =
    let still = sym (ap (λ (c : CacheStatus). c.page_open) cache) in
    record {
      block = λ p.
          ap (λ (c : Chip). c.open_block) chip
          ∙ (h.block (still ∙ p) ∙ sym (ap (λ (c : CacheStatus). c.current_open_block) cache));
      page = λ p.
          ap (λ (c : Chip). c.open_page) chip
          ∙ (h.page (still ∙ p) ∙ sym (ap (λ (c : CacheStatus). c.current_open_page) cache));
      result = λ p. ap (λ (c : CacheStatus). c.page_open_result) cache ∙ h.result (still ∙ p);
    }

module _ (blocks file reader : ℕ) where
  IsStreaming-IsReady :
      (k m : ℕ) (bytes : List ℕ) (s : Fs)
      → (h : IsStreaming blocks file reader k m s)
      → (s.write_files file).offset + length bytes ≤ fs_sector_size
      → IsReady blocks file bytes h.lists.0 h.lists.1 h.lists.2 s
  IsStreaming-IsReady k m bytes s h fits =
      let plain = sym (with_init_header-same (s.write_files file) h.stream.vacant.no_init) in
      record {
        geometry = h.stream.geometry;
        block_in = subst (λ (f : WriteFile). f.block < blocks) plain h.stream.block_in;
        page_in =
            subst (λ (f : WriteFile). f.sector / fs_sectors_per_page < s.chip.pages_per_block) plain
              h.stream.vacant.page_in;
        fits = subst (λ (f : WriteFile). f.offset + length bytes ≤ fs_sector_size) plain fits;
        erased =
            subst (λ (f : WriteFile). IsErased s.chip f.block f.sector) plain
              h.stream.vacant.erased;
        coherent = h.coherent;
        lists = h.lists.3;
      }

  -- What only fills the buffer.
  Buffered-Grown :
      (k m count n : ℕ) (src : List ℕ) (s t : Fs)
      → IsStreaming blocks file reader k m s
      → n ≡ count + length src
      → Buffered file src s t
      → Grown blocks file reader k m count src s n t
  Buffered-Grown k m count n src s t h e w = record {
    left = k;
    more = m;
    balance = omega arith;
    streaming = record {
      stream =
          subst
            (λ (c : Chip).
              IsStream blocks k m c t.params (t.read_files reader) (t.write_files file).block
                (t.write_files file).sector)
            (sym w.chip)
            (IsStream-same blocks k m s.chip s.params t.params (s.read_files reader)
              (t.read_files reader) (s.write_files file).block (t.write_files file).block
              (s.write_files file).sector (t.write_files file).sector (sym w.params)
              (sym (ap (λ (fs : ℕ → ReadFile). fs reader) w.readers)) (sym w.block) (sym w.sector)
              h.stream);
      writer = w.writer;
      coherent = IsCoherent-same s t w.chip w.cache h.coherent;
      lists = (
        h.lists.0,
        h.lists.1,
        h.lists.2,
        subst (λ (p : Prealloc). IsPrealloc p h.lists.0 h.lists.1 h.lists.2) (sym w.prealloc)
            h.lists.3,
      );
      byte = subst (λ (x : ℕ → ℕ). x 1 < 2 ^ 8) (sym w.stack) h.byte;
    };
    all = e;
    grown =
        ap₂ ◌++◌
          (ap (λ (c : Chip). unread c t.params k (t.read_files reader)) w.chip
            ∙ ap₂ (λ (p : Params) (fs : ℕ → ReadFile). unread s.chip p k (fs reader)) w.params
                w.readers)
          w.bytes
        ∙ sym (
            append_assoc (unread s.chip s.params k (s.read_files reader))
              (buffered (s.write_files file)) src);
  }

  -- What the rest of the loop leaves, from the state behind a commit.
  committed-Grown :
      (k m count n l : ℕ) (src : List ℕ) (s t u : Fs)
      → length (take l src) ≡ l
      → flowing file reader (suc k) t ≡ flowing file reader k s ++ take l src
      → Grown blocks file reader (suc k) m (add32 count l) (drop l src) t n u
      → count + length src < 2 ^ 32
      → Grown blocks file reader k (suc m) count src s n u
  committed-Grown k m count n l src s t u whole e w small = record {
    left = w.left;
    more = w.more;
    balance = omega (arith, w.balance);
    streaming = w.streaming;
    all = w.all ∙ omega (arith, whole, length-take l src, length-drop l src, small);
    grown =
        w.grown
        ∙ (ap (λ x. x ++ drop l src) e
            ∙ (append_assoc (flowing file reader k s) (take l src) (drop l src)
                ∙ ap (λ x. flowing file reader k s ++ x) (take-all l src)));
  }

  -- The vacant sectors have room for more than is written.
  abbrev HasRoom : ℕ → List ℕ → Fs → Type 0
  HasRoom m src s = length src < (s.write_files file).sector_remaining_bytes + m * fs_sector_size

  abbrev Grows : ℕ → Type 0
  Grows fuel =
      (k m count : ℕ) (src : List ℕ) (s : Fs)
      → IsStreaming blocks file reader k m s
      → HasRoom m src s
      → length src < fuel
      → count + length src < 2 ^ 32
      → Returns (Grown blocks file reader k m count src s) (write_loop fuel file src count s)

  -- A round that commits a sector.
  commit_round :
      (fuel : ℕ)
      → Grows fuel
      → (k m count : ℕ) (src : List ℕ) (s : Fs) → IsStreaming blocks file reader k (suc m) s
      → HasRoom (suc m) src s
      → length src < suc fuel
      → count + length src < 2 ^ 32
      → (s.write_files file).sector_remaining_bytes ≤ length src
      → let l = (s.write_files file).sector_remaining_bytes in
        Returns (Grown blocks file reader k (suc m) count src s) (
          (do
            done ← flog_commit_file_sector commit_depth file (take l src)
            if succeeded done
                then write_loop fuel file (drop l src) (add32 count l)
                else pure count)
            s)
  commit_round fuel ih k m count src s h room enough small le =
      let g = s.write_files file in
      let l = g.sector_remaining_bytes in
      let whole : length (take l src) ≡ l = omega (arith, length-take l src, le) in
      let plain = with_init_header-same g h.stream.vacant.no_init in
      let fits : g.offset + length (take l src) ≤ fs_sector_size =
        let full = h.writer.full in omega (arith, whole, full) in
      Returns.bind
        (flog_commit_file_sector-Committed blocks file (take l src) h.lists.0 h.lists.1 h.lists.2 s
          1 (IsStreaming-IsReady k (suc m) (take l src) s h fits)
          (let no_tail = h.stream.vacant.no_tail in ground arith))
        λ done t w.
          let stored =
            subst
              (λ (f : WriteFile).
                Stored f (take l src) (committed_spare g (length (take l src)) s) s t)
              plain w.stored in
          let moved =
            w.moved_on ∙ ap (λ (f : WriteFile). advance t.params (length (take l src)) f) plain in
          let (now, e, all_left) =
            commit-IsStreaming blocks file reader k m (take l src) s t h whole stored moved in
          Returns.branch (succeeded done) _ _ t
            (λ _.
              Returns.mono
                (ih (suc k) m (add32 count l) (drop l src) t now
                  (omega (arith, room, length-drop l src, all_left, le))
                  (let some_room = h.writer.room in
                    omega (arith, enough, length-drop l src, some_room, le))
                  (omega (arith, length-drop l src, small, le)))
                (λ n u v. committed-Grown k m count n l src s t u whole e v small))
            (λ y. absurd (ground (arith, y, w.success)))

  -- There is a vacant sector left for it.
  full_round :
      (fuel : ℕ)
      → Grows fuel
      → (k m count : ℕ) (src : List ℕ) (s : Fs) → IsStreaming blocks file reader k m s
      → HasRoom m src s
      → length src < suc fuel
      → count + length src < 2 ^ 32
      → (s.write_files file).sector_remaining_bytes ≤ length src
      → let l = (s.write_files file).sector_remaining_bytes in
        Returns (Grown blocks file reader k m count src s) (
          (do
            done ← flog_commit_file_sector commit_depth file (take l src)
            if succeeded done
                then write_loop fuel file (drop l src) (add32 count l)
                else pure count)
            s)
  full_round fuel ih k zero count src s h room enough small le = absurd (omega (arith, room, le))
  full_round fuel ih k (suc m) count src s h room enough small le =
      commit_round fuel ih k m count src s h room enough small le

  write_loop-Grown : (fuel : ℕ) → Grows fuel
  unfolding write_loop
  write_loop-Grown zero k m count src s h room enough small = absurd (omega arith)
  write_loop-Grown (suc fuel) k m count [] s h room enough small = returns (record {
    left = k;
    more = m;
    balance = omega arith;
    streaming = h;
    all = omega arith;
    grown = sym (append-nil _);
  })
  write_loop-Grown (suc fuel) k m count (b ∷ bs) s h room enough small =
      let l = (s.write_files file).sector_remaining_bytes in
      elim (dec_lt (length (b ∷ bs)) l) [
        | yes lt ↦
            Returns.mono (write_loop-Buffered file s h.writer fuel count b bs lt)
              λ n t w. Buffered-Grown k m count n (b ∷ bs) s t h (w.0 ∙ omega (arith, small)) w.1
        | no full ↦
            Returns.branch (length (b ∷ bs) == 0) _ _ s (λ z. absurd (ground (arith, z)))
              λ _.
                Returns.branch (leb l (length (b ∷ bs))) _ _ s
                  (λ _.
                    full_round fuel (write_loop-Grown fuel) k m count (b ∷ bs) s h room enough small
                      (omega (arith, full)))
                  (λ y. absurd (ground (arith, y, full)))
      ]

-- Let the addresses of the chip fit 32 bits, the page cache be coherent and the preallocation list
-- be well formed; let the sector of a writer that has room in it and the `m` behind it, none of them
-- the first or the tail sector of the block, be erased, let them come next for a reader that is
-- inside a sector of the chip, behind which `k` sectors of the file follow at most, and let `k + m`
-- be less than the sectors of the device. A write of data for which these sectors have room accepts
-- all of it. All this still holds then, with as many sectors more to read as there are fewer erased,
-- and what the reader has still to read together with what is buffered grows by exactly the data
-- that is written.
pub flogfs_write-Grown :
    (blocks file reader k m : ℕ) (src : List ℕ) (s : Fs)
    → IsStreaming blocks file reader k m s
    → length src < (s.write_files file).sector_remaining_bytes + m * fs_sector_size
    → length src < 2 ^ 32
    → Returns (Grown blocks file reader k m 0 src s) (flogfs_write file src s)
unfolding flogfs_write write_loop
flogfs_write-Grown blocks file reader k m src s h room small =
    write_loop-Grown blocks file reader (length src + 1) k m 0 src s h room (omega arith)
      (omega arith)
