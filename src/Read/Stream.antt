-- ===== src/Read/Stream.antt =====
-- What `flogfs_read` of src/flogfs.c returns: the next bytes of the file's stream, and where it leaves
-- the file.
use flog_fs.Base.{
  ℕ, zero, suc, ◌+◌, ◌-◌, ◌/◌, ◌^◌, ◌<◌, ◌≤◌, ◌≡◌, ◌∙◌, refl, sym, ap, subst, none, some, List, [],
  ◌++◌, add16, sub16, add32, length, take, drop, take-append, drop-append, append-nil, append_assoc,
  arith, length-append,
}
use flog_fs.Flash.{Chip, fs_sector_size, fs_sectors_per_page}
use flog_fs.Flash.Address.{IsGeometry}
use flog_fs.Bytes.{load_bytes}
use flog_fs.Bytes.RoundTrip.{length-load_bytes}
use flog_fs.Fs.{Fs, Params, ReadFile}
use flog_fs.Read.{enter_sector}
use flog_fs.Read.Contents.{Position, bytes_of, following, behind, IsReadable}
use flog_fs.Read.Quiet.{IsQuiet}
use flog_fs.Read.Steps.{pass, bytes_of-split, IsReading}

module _ (c : Chip) (params : Params) where
  -- What the file still has to read: the rest of its sector, and the sectors behind.
  abbrev pub unread : ℕ → ReadFile → List ℕ
  unread k f =
      bytes_of c f.block f.sector f.offset f.sector_remaining_bytes
      ++ behind c params f.id k f.block f.sector

module _ (c : Chip) (params : Params) (blocks : ℕ) where
  -- The file is inside a sector of the chip, and at most `k` sectors follow.
  pub record IsReader (k : ℕ) (f : ReadFile) : Type 0 where
    pub block_in : f.block < blocks
    pub page_in : f.sector / fs_sectors_per_page < c.pages_per_block
    pub fits : f.offset + f.sector_remaining_bytes ≤ fs_sector_size
    pub head_in : f.read_head < 2 ^ 32
    pub readable : IsReadable c params f.id blocks k f.block f.sector

  -- How a read of `n` bytes ends that had stored `dst` before.
  pub record Streamed (file : ℕ) (k : ℕ) (f : ReadFile) (n : ℕ) (dst : List ℕ) (result : ℕ × List ℕ)
      (t : Fs) : Type 0 where
    pub left : ℕ
    pub fewer : left ≤ k
    pub quiet : IsQuiet c params t
    pub reader : IsReader left (t.read_files file)
    pub bytes : result.1 ≡ dst ++ take n (unread c params k f)
    pub count : result.0 ≡ length result.1
    pub rest : unread c params left (t.read_files file) ≡ drop n (unread c params k f)
    pub head :
        (t.read_files file).read_head ≡ add32 f.read_head (length (take n (unread c params k f)))
    pub same_id : (t.read_files file).id ≡ f.id

  -- The file after a sector that it has read, when nothing follows.
  pub unread-none :
      (k : ℕ) (f : ReadFile)
      → f.sector_remaining_bytes ≡ 0
      → following c params f.id f.block f.sector ≡ none
      → unread c params k f ≡ []
  unfolding behind load_bytes
  unread-none zero f z e = rw z refl
  unread-none (suc k) f z e = rw (z, e, behind) refl

  -- What is known of the sector that follows.
  pub record IsEntered (k : ℕ) (f : ReadFile) (p : Position) : Type 0 where
    pub left : ℕ
    pub fewer : k ≡ suc left
    pub reader : IsReader left (enter_sector f p.block p.sector p.nbytes)
    pub same : unread c params k f ≡ unread c params left (enter_sector f p.block p.sector p.nbytes)

  pub unread-some :
      (k : ℕ) (f : ReadFile) (p : Position)
      → IsReader k f
      → f.sector_remaining_bytes ≡ 0
      → following c params f.id f.block f.sector ≡ some p
      → IsEntered k f p
  unfolding behind enter_sector load_bytes
  unread-some zero f p h z e = absurd (ground (arith, e, h.readable))
  unread-some (suc k) f p h z e =
      let r = rw (e, IsReadable) at h.readable in
      record {
        left = k;
        fewer = refl;
        reader = record {
          block_in = r.0.block_in;
          page_in = r.0.page_in;
          fits = r.0.fits;
          head_in = h.head_in;
          readable = r.1;
        };
        same = rw (z, e, behind) refl;
      }

  module _ (geometry : IsGeometry c.pages_per_block blocks) (file : ℕ) where
    -- The file after `n` of the bytes left in its sector.
    pub pass-IsReader :
        (k n : ℕ) (f : ReadFile)
        → IsReader k f
        → n ≤ f.sector_remaining_bytes
        → IsReader k (pass f n)
    pass-IsReader k n f h le = record {
      block_in = h.block_in;
      page_in = h.page_in;
      fits = omega (arith, h.fits);
      head_in = omega arith;
      readable = h.readable;
    }

    unread-pass :
        (k n : ℕ) (f : ReadFile)
        → IsReader k f
        → n ≤ f.sector_remaining_bytes
        → unread c params k f
          ≡ bytes_of c f.block f.sector f.offset n ++ unread c params k (pass f n)
    unread-pass k n f h le =
        let rest = sub16 f.sector_remaining_bytes n in
        let later = behind c params f.id k f.block f.sector in
        let all : f.sector_remaining_bytes ≡ n + rest = omega (arith, h.fits) in
        let at : f.offset + n ≡ add16 f.offset n = omega (arith, h.fits) in
        ap (λ r. bytes_of c f.block f.sector f.offset r ++ later) all
        ∙ (ap (λ l. l ++ later)
              (bytes_of-split c blocks geometry f.block f.sector f.offset n rest h.block_in
                h.page_in (omega (arith, h.fits)))
            ∙ (append_assoc (bytes_of c f.block f.sector f.offset n)
                  (bytes_of c f.block f.sector (f.offset + n) rest) later
                ∙ ap
                    (λ o.
                      bytes_of c f.block f.sector f.offset n
                      ++ (bytes_of c f.block f.sector o rest ++ later))
                    at))

    -- Nothing is done, for want of bytes or because none are asked for.
    pub stay :
        (k n count : ℕ) (dst : List ℕ) (f : ReadFile) (s : Fs)
        → IsReading c params file f s
        → IsReader k f
        → count ≡ length dst
        → take n (unread c params k f) ≡ []
        → drop n (unread c params k f) ≡ unread c params k f
        → Streamed file k f n dst (count, dst) s
    stay k n count dst f s at h e none_taken none_dropped = record {
      left = k;
      fewer = omega arith;
      quiet = at.0;
      reader = subst (IsReader k) (sym at.1) h;
      bytes = sym (ap (λ l. dst ++ l) none_taken ∙ append-nil dst);
      count = e;
      rest = ap (unread c params k) at.1 ∙ sym none_dropped;
      head =
          ap (λ (g : ReadFile). g.read_head) at.1 ∙ omega (arith, ap length none_taken, h.head_in);
      same_id = ap (λ (g : ReadFile). g.id) at.1;
    }

    -- Having come to the next sector is no reading.
    pub entered :
        (k n : ℕ) (dst : List ℕ) (f : ReadFile) (p : Position) (result : ℕ × List ℕ) (t : Fs)
        (i : IsEntered k f p)
        → Streamed file i.left (enter_sector f p.block p.sector p.nbytes) n dst result t
        → Streamed file k f n dst result t
    unfolding enter_sector
    entered k n dst f p result t i w = record {
      left = w.left;
      fewer = omega (arith, w.fewer, i.fewer);
      quiet = w.quiet;
      reader = w.reader;
      bytes = w.bytes ∙ ap (λ l. dst ++ take n l) (sym i.same);
      count = w.count;
      rest = w.rest ∙ ap (drop n) (sym i.same);
      head = w.head ∙ ap (λ l. add32 f.read_head (length (take n l))) (sym i.same);
      same_id = w.same_id;
    }

    -- A read from a sector and what follows, as one read.
    pub joined :
        (k n m : ℕ) (dst got : List ℕ) (f : ReadFile) (result : ℕ × List ℕ) (t : Fs)
        → IsReader k f
        → m ≤ f.sector_remaining_bytes
        → m ≤ n
        → got ≡ bytes_of c f.block f.sector f.offset m
        → Streamed file k (pass f m) (n - m) (dst ++ got) result t
        → Streamed file k f n dst result t
    joined k n m dst got f result t h le le' e w =
        let mine = bytes_of c f.block f.sector f.offset m in
        let later = unread c params k (pass f m) in
        let size : length mine ≡ m = length-load_bytes _ _ m in
        let taken : take n (unread c params k f) ≡ mine ++ take (n - m) later =
          ap (take n) (unread-pass k m f h le)
          ∙ (take-append n mine later (omega (arith, size))
              ∙ ap (λ j. mine ++ take (n - j) later) size) in
        let dropped : drop n (unread c params k f) ≡ drop (n - m) later =
          ap (drop n) (unread-pass k m f h le)
          ∙ (drop-append n mine later (omega (arith, size)) ∙ ap (λ j. drop (n - j) later) size) in
        record {
          left = w.left;
          fewer = w.fewer;
          quiet = w.quiet;
          reader = w.reader;
          bytes =
              w.bytes
              ∙ (append_assoc dst got (take (n - m) later)
                  ∙ ap (λ l. dst ++ l) (ap (λ l. l ++ take (n - m) later) e ∙ sym taken));
          count = w.count;
          rest = w.rest ∙ sym dropped;
          head =
              w.head
              ∙ omega (
                arith,
                ap length taken,
                length-append mine (take (n - m) later),
                size,
                h.head_in,
              );
          same_id = w.same_id;
        }
