-- ===== src/Read/Streaming.antt =====
-- A file that is written and read at once: `flogfs_write` and `flogfs_read` of src/flogfs.c on the
-- sectors of a block.
use mathlib.Core.Path.{ap₂}
use flog_fs.Base.{
  ℕ, suc, ◌+◌, ◌/◌, ◌^◌, ◌<◌, ◌≤◌, ◌≡◌, ◌≢◌, ◌∙◌, refl, sym, ap, subst, false, List, ◌++◌, ◌==◌,
  length, append-nil, append_assoc, arith,
}
use flog_fs.Bytes.{load_bytes}
use flog_fs.Structs.{init_sector, tail_sector, SectorSpare, read_spare}
use flog_fs.Structs.RoundTrip.{spare_round_trip}
use flog_fs.Flash.{Chip, fs_sector_size, fs_sectors_per_page}
use flog_fs.Flash.Access.{spare_at}
use flog_fs.Flash.Address.{IsGeometry}
use flog_fs.Prealloc.Queue.{IsPrealloc}
use flog_fs.Fs.{Fs, Params, WriteFile, ReadFile}
use flog_fs.Fs.Cache.{IsCoherent}
use flog_fs.Inode.{table_bound}
use flog_fs.Write.{flog_increment_sector, advance}
use flog_fs.Write.Buffer.{IsWriter, buffered}
use flog_fs.Write.Sector.{Stored}
use flog_fs.Write.Commit.{committed_spare}
use flog_fs.Read.Stream.{IsReader, unread}
use flog_fs.Read.Extended.{IsBefore}
use flog_fs.Read.Committed.{IsFollower, IsFollower-IsReader, IsFollower-IsBefore, unread-committed}
use flog_fs.Read.Vacant.{IsVacant, AreVacant, AreVacant-stays}

-- The sector of the writer and the `m` behind it are vacant, and the reader comes to them next.
pub record IsStream (blocks k m : ℕ) (c : Chip) (params : Params) (r : ReadFile) (gb gs : ℕ)
    : Type 0 where
  pub geometry : IsGeometry c.pages_per_block blocks
  pub block_in : gb < blocks
  pub vacant : IsVacant c params r.id gb gs
  pub later : AreVacant c params r.id m gb gs
  pub reader : IsReader c params blocks k r
  pub before : IsBefore c params r.id gb gs k r.block r.sector
  pub few : suc (k + m) ≤ table_bound params

-- In addition, the file system can be used.
pub record IsStreaming (blocks file reader k m : ℕ) (s : Fs) : Type 0 where
  pub stream :
      IsStream blocks k m s.chip s.params
        (s.read_files reader)
        (s.write_files file).block
        (s.write_files file).sector
  pub writer : IsWriter (s.write_files file)
  pub coherent : IsCoherent s
  pub lists :
      (free : List ℕ) × (avs : List ℕ) × (pending : List ℕ) × IsPrealloc s.prealloc free avs pending
  pub byte : s.stack 1 < 2 ^ 8

-- What the reader has still to read, and what the writer has buffered behind it.
abbrev pub flowing : (file reader k : ℕ) → Fs → List ℕ
flowing file reader k s =
    unread s.chip s.params k (s.read_files reader) ++ buffered (s.write_files file)

-- A stream does not depend on more than is named.
pub IsStream-same :
    (blocks k m : ℕ) (c : Chip) (p p' : Params) (r r' : ReadFile) (b b' s s' : ℕ)
    → p ≡ p'
    → r ≡ r'
    → b ≡ b'
    → s ≡ s'
    → IsStream blocks k m c p r b s
    → IsStream blocks k m c p' r' b' s'
IsStream-same blocks k m c p p' r r' b b' s s' ep er eb es h =
    subst (λ (x : Params). IsStream blocks k m c x r' b' s') ep
      (subst (λ (x : ReadFile). IsStream blocks k m c p x b' s') er
        (subst (λ (x : ℕ). IsStream blocks k m c p r x s') eb
          (subst (λ (x : ℕ). IsStream blocks k m c p r b x) es h)))

-- The file moves on to the start of a sector without a header.
advance-inside :
    (p : Params) (n : ℕ) (f : WriteFile)
    → flog_increment_sector p f.sector ≢ tail_sector
    → ((advance p n f).offset ≡ 0) × ((advance p n f).sector_remaining_bytes ≡ fs_sector_size)
unfolding advance
advance-inside p n f no_tail =
    let inside : (flog_increment_sector p f.sector == tail_sector) ≡ false = ground arith in
    (rw inside refl, rw inside refl)

-- One commit of a whole sector.
module _ (blocks file reader k m : ℕ) (bytes : List ℕ) (s t : Fs)
    (h : IsStreaming blocks file reader k (suc m) s)
    (whole : length bytes ≡ (s.write_files file).sector_remaining_bytes)
    (stored : Stored
      (s.write_files file)
      bytes
      (committed_spare (s.write_files file) (length bytes) s)
      s
      t) where
  abbrev g : WriteFile
  g = s.write_files file

  abbrev r : ReadFile
  r = s.read_files reader

  abbrev spare : SectorSpare
  spare = committed_spare g (length bytes) s

  reader-IsFollower : IsFollower blocks g k r s
  reader-IsFollower = record {
    reader = h.stream.reader;
    before = h.stream.before;
    unwritten = h.stream.vacant.unwritten;
    room = h.stream.vacant.room;
    few = omega (arith, h.stream.few);
  }

  size : spare.nbytes ≡ g.offset + length bytes
  size =
      let later : (g.sector == init_sector) ≡ false =
        let no_init = h.stream.vacant.no_init in ground arith in
      rw later (let full = h.writer.full in omega (arith, whole, full))

  fits : spare.nbytes ≤ fs_sector_size
  fits = let full = h.writer.full in omega (arith, size, whole, full)

  spare_is : read_spare (spare_at t.chip g.block (g.sector / fs_sectors_per_page) g.sector) ≡ spare
  spare_is =
      ap read_spare stored.marks
      ∙ spare_round_trip spare
          (record { type_id = omega arith; nothing = h.byte; nbytes = omega (arith, fits) })

  next-AreVacant : AreVacant t.chip s.params r.id (suc m) g.block g.sector
  next-AreVacant =
      AreVacant-stays blocks g bytes spare s t h.stream.geometry h.stream.block_in
        h.stream.vacant.page_in h.stream.vacant.no_tail h.stream.vacant.positive stored r.id (suc m)
        g.sector (omega arith) h.stream.later

  next-IsStream :
      IsStream blocks (suc k) m t.chip s.params r g.block (flog_increment_sector s.params g.sector)
  next-IsStream = record {
    geometry = subst (λ (pages : ℕ). IsGeometry pages blocks) (sym stored.pages) h.stream.geometry;
    block_in = h.stream.block_in;
    vacant = next-AreVacant.0;
    later = next-AreVacant.2;
    reader =
        IsFollower-IsReader blocks g bytes spare s t h.stream.geometry h.stream.block_in
          h.stream.vacant.page_in h.stream.vacant.no_tail h.stream.vacant.no_init stored size fits
          refl spare_is k r reader-IsFollower;
    before =
        IsFollower-IsBefore blocks g bytes spare s t h.stream.geometry h.stream.block_in
          h.stream.vacant.page_in h.stream.vacant.no_tail h.stream.vacant.no_init stored size fits
          refl spare_is k r reader-IsFollower;
    few = omega (arith, h.stream.few);
  }

  next_no_tail : flog_increment_sector t.params g.sector ≢ tail_sector
  next_no_tail =
      subst (λ (p : Params). flog_increment_sector p g.sector ≢ tail_sector) (sym stored.configured)
        h.stream.later.0.no_tail

  -- The stream after the commit: what was buffered and the committed bytes are to be read.
  pub commit-IsStreaming :
      t.write_files file ≡ advance t.params (length bytes) (s.write_files file)
      → IsStreaming blocks file reader (suc k) m t
        × (flowing file reader (suc k) t ≡ flowing file reader k s ++ bytes)
        × ((t.write_files file).sector_remaining_bytes ≡ fs_sector_size)
  unfolding advance load_bytes
  commit-IsStreaming moved =
      let same : t.read_files reader ≡ r = ap (λ (fs : ℕ → ReadFile). fs reader) stored.readers in
      let (offset, room) = advance-inside t.params (length bytes) g next_no_tail in
      let at_start = ap (λ (f : WriteFile). f.offset) moved ∙ offset in
      let all_left = ap (λ (f : WriteFile). f.sector_remaining_bytes) moved ∙ room in
      (
        record {
          stream =
              IsStream-same blocks (suc k) m t.chip s.params t.params r (t.read_files reader)
                g.block (t.write_files file).block (flog_increment_sector s.params g.sector)
                (t.write_files file).sector (sym stored.configured) (sym same)
                (sym (ap (λ (f : WriteFile). f.block) moved))
                (ap (λ (p : Params). flog_increment_sector p g.sector) (sym stored.configured)
                  ∙ sym (ap (λ (f : WriteFile). f.sector) moved))
                next-IsStream;
          writer = record {
            full = omega (arith, at_start, all_left);
            room = omega (arith, all_left);
          };
          coherent = stored.coherent;
          lists = stored.lists;
          byte = subst (λ (x : ℕ → ℕ). x 1 < 2 ^ 8) (sym stored.stack) h.byte;
        },
        ap₂ ◌++◌
              (ap₂ (λ (p : Params) (f : ReadFile). unread t.chip p (suc k) f) stored.configured same
                ∙ unread-committed blocks g bytes spare s t h.stream.geometry h.stream.block_in
                    h.stream.vacant.page_in h.stream.vacant.no_tail h.stream.vacant.no_init stored
                    size fits refl spare_is k r reader-IsFollower)
              (ap (load_bytes (t.write_files file).sector_buffer 0) at_start)
            ∙ (append-nil _ ∙ sym (append_assoc (unread s.chip s.params k r) (buffered g) bytes)),
        all_left,
      )
