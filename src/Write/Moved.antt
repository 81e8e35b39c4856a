-- ===== src/Write/Moved.antt =====
-- A commit of `flog_commit_file_sector` inside a block, field by field and byte by byte.
use flog_fs.Base.{
  ℕ, suc, ◌+◌, ◌-◌, ◌*◌, ◌/◌, ◌%◌, ◌^◌, ◌<◌, ◌≤◌, ◌≡◌, ◌≢◌, ◌∙◌, ◌⊎◌, refl, sym, ap, subst, arith,
  Bool-cases, inl, inr, List, ◌++◌, ◌==◌, if◌then◌else◌, length,
}
use mathlib.Core.Path.{ap₂}
use flog_fs.Bytes.{Mem, encode, field, load_bytes, store_bytes}
use flog_fs.Bytes.RoundTrip.{
  load_bytes-split, load_bytes-store_bytes, load_bytes-cong, store_bytes-after,
}
use flog_fs.Structs.{FlogResult, success, spare_bytes, file_init_bytes, read_file_init, init_sector}
use flog_fs.Flash.{spare_offset}
use flog_fs.Flash.Address.{flat}
use flog_fs.Flash.Access.{sector_at, spare_at}
use flog_fs.Fs.{Fs, WriteFile}
use flog_fs.Fs.Cache.{IsCoherent}
use flog_fs.Write.{
  with_init_header, advance, data_nbytes, flog_commit_file_sector, flog_increment_sector,
}
use flog_fs.Write.Order.{Follows, flog_increment_sector-Follows}
use flog_fs.Write.Commit.{IsReady, Committed, committed_spare, flog_commit_file_sector-Committed}
use flog_fs.Run.Returns
use flog_fs.Run.Returns.{Returns}

-- The header of the first sector: a timestamp as it was in the buffer, the age of the block, and the
-- number of the file.
abbrev header : WriteFile → List ℕ
header f =
    encode 4 (field (load_bytes f.sector_buffer 0 12) 0 4)
    ++ (encode 4 f.block_age ++ encode 4 f.id)

length-header : (f : WriteFile) → length (header f) ≡ 12
unfolding encode
length-header f = refl

-- what is in the buffer, with the header in a first sector
abbrev pub buffered_bytes : WriteFile → List ℕ
buffered_bytes f =
    if f.sector == 1
    then header f ++ load_bytes f.sector_buffer 12 (f.offset - 12)
    else load_bytes f.sector_buffer 0 f.offset

-- The bytes of data: a first sector has a header of 12 bytes.
abbrev pub data_count : WriteFile → ℕ → ℕ
data_count f n = if f.sector == 1 then f.offset + n - 12 else f.offset + n

-- The file has moved on, and its sector is on the flash.
pub record Moved (file : ℕ) (bytes : List ℕ) (from : Fs) (result : FlogResult) (s : Fs)
    : Type 0 where
  pub success : result ≡ success
  pub sector : Follows from.params (from.write_files file).sector (s.write_files file).sector
  pub block : (s.write_files file).block ≡ (from.write_files file).block
  pub id : (s.write_files file).id ≡ (from.write_files file).id
  pub offset : (s.write_files file).offset ≡ (if (s.write_files file).sector == 3 then 16 else 0)
  pub room : (s.write_files file).offset + (s.write_files file).sector_remaining_bytes ≡ 512
  pub bytes_in_block :
      (s.write_files file).bytes_in_block
      ≡ ((from.write_files file).bytes_in_block + length bytes) % 2 ^ 32
  pub size :
      (s.write_files file).file_size ≡ ((from.write_files file).file_size + length bytes) % 2 ^ 32
  pub contents :
      let f = from.write_files file in
      sector_at s.chip f.block (f.sector / 4) f.sector 0 (f.offset + length bytes)
      ≡ buffered_bytes f ++ bytes
  pub marks :
      let f = from.write_files file in
      spare_at s.chip f.block (f.sector / 4) f.sector
      ≡ spare_bytes
          (record { type_id = 2; nothing = from.stack 1; nbytes = data_count f (length bytes) })
  pub others :
      let f = from.write_files file in
      let data_at = flat from.chip.pages_per_block f.block (f.sector / 4) (f.sector % 4 * 512) in
      let marks_at =
        flat from.chip.pages_per_block f.block (f.sector / 4) (spare_offset f.sector) in
      (x : ℕ)
      → (x < data_at) ⊎ (data_at + 512 ≤ x)
      → (x < marks_at) ⊎ (marks_at + 4 ≤ x)
      → s.chip.mapped x ≡ from.chip.mapped x
  pub readers : s.read_files ≡ from.read_files
  pub configured : s.params ≡ from.params
  pub coherent : IsCoherent s

-- The header, and what was in the buffer behind it.
load_bytes-header :
    (m : Mem) (head : List ℕ) (n : ℕ)
    → length head ≡ 12
    → 12 ≤ n
    → load_bytes (store_bytes m 0 head) 0 n ≡ head ++ load_bytes m 12 (n - 12)
load_bytes-header m head n e le =
    let parts : n ≡ length head + (n - 12) = omega (arith, e) in
    ap (load_bytes (store_bytes m 0 head) 0) parts
    ∙ (load_bytes-split (store_bytes m 0 head) 0 (length head) (n - 12)
        ∙ ap₂ ◌++◌ (load_bytes-store_bytes m 0 head) (
            ap (λ a. load_bytes (store_bytes m 0 head) a (n - 12)) (omega (arith, e))
            ∙ load_bytes-cong (store_bytes m 0 head) m 12 (n - 12)
                (λ x lo hi. store_bytes-after m 0 head x (omega (arith, e)))))

module _ (file : ℕ) (bytes : List ℕ) (s : Fs) (inside : (s.write_files file).sector ≢ 3)
    (in_block : (s.write_files file).sector < s.params.pages_per_block * 4)
    (small : s.params.pages_per_block * 4 < 2 ^ 16)
    (starts : (s.write_files file).sector ≡ 1 → 12 ≤ (s.write_files file).offset)
    (fits : (s.write_files file).offset + length bytes ≤ 512) where
  -- whatever the header has put in the buffer
  Committed-Moved :
      (buffer : Mem) (result : FlogResult) (t : Fs)
      → load_bytes buffer 0 (s.write_files file).offset ≡ buffered_bytes (s.write_files file)
      → Committed
          (record (s.write_files file) { sector_buffer = buffer })
          file
          bytes
          (committed_spare (s.write_files file) (length bytes) s)
          s
          result
          t
      → Moved file bytes s result t
  unfolding advance
  Committed-Moved buffer result t filled w =
      let f = s.write_files file in
      let g = t.write_files file in
      let at = w.moved_on in
      let next : g.sector ≡ flog_increment_sector s.params f.sector =
        ap (λ (h : WriteFile). h.sector) at
        ∙ ap (λ p. flog_increment_sector p f.sector) w.stored.configured in
      let offset : g.offset ≡ (if g.sector == 3 then 16 else 0) =
        ap (λ (h : WriteFile). h.offset) at
        ∙ sym (ap (λ (h : WriteFile). if h.sector == 3 then 16 else 0) at) in
      let room = ap (λ (h : WriteFile). h.sector_remaining_bytes) at in
      let before = ap (λ (h : WriteFile). h.offset) at in
      let count : data_nbytes f (length bytes) ≡ data_count f (length bytes) =
        ground (arith, starts, fits) in
      record {
        success = w.success;
        sector =
            subst (Follows s.params f.sector) (sym next)
              (flog_increment_sector-Follows s.params f.sector inside in_block small);
        block = ap (λ (h : WriteFile). h.block) at;
        id = ap (λ (h : WriteFile). h.id) at;
        offset = offset;
        room = ground (arith, room, before);
        bytes_in_block = ap (λ (h : WriteFile). h.bytes_in_block) at;
        size = ap (λ (h : WriteFile). h.file_size) at;
        contents = w.stored.contents ∙ ap (λ l. l ++ bytes) filled;
        marks =
            w.stored.marks
            ∙ ap (λ n. spare_bytes (record { type_id = 2; nothing = s.stack 1; nbytes = n })) count;
        others = w.stored.others;
        readers = w.stored.readers;
        configured = w.stored.configured;
        coherent = w.stored.coherent;
      }

  -- at a first sector, and at the others
  Committed-with_init_header :
      (result : FlogResult) (t : Fs)
      → Committed
          (with_init_header (s.write_files file))
          file
          bytes
          (committed_spare (s.write_files file) (length bytes) s)
          s
          result
          t
      → Moved file bytes s result t
  unfolding with_init_header file_init_bytes read_file_init
  Committed-with_init_header result t w =
      let f = s.write_files file in
      let spare = committed_spare f (length bytes) s in
      let put = store_bytes f.sector_buffer 0 (header f) in
      elim (Bool-cases (f.sector == init_sector)) [
        | inl e ↦
            let first : f.sector ≡ 1 = ground (arith, e) in
            let shape : with_init_header f ≡ record f { sector_buffer = put } = rw e refl in
            Committed-Moved put result t
              (rw e (
                load_bytes-header f.sector_buffer (header f) f.offset (length-header f)
                  (starts first)))
              (subst (λ (g : WriteFile). Committed g file bytes spare s result t) shape w)
        | inr e ↦
            let shape : with_init_header f ≡ f = rw e refl in
            Committed-Moved f.sector_buffer result t (rw e refl)
              (subst (λ (g : WriteFile). Committed g file bytes spare s result t) shape w)
      ]

-- From a coherent state with a well-formed preallocation list, on a chip whose addresses fit 32 bits,
-- let the sector of a file be erased, have a place in its block and not be the last one, 3, and let
-- the buffered data, behind 12 bytes in a first sector, and the new bytes fit it. Then committing them
-- returns success, and the file is in the sector that follows, with its room less the header of a
-- last sector; its bytes in the block and its size have grown by the number of new bytes, modulo
-- 2 ^ 32. On the flash the sector has the buffered data, with the age of the block and the number of
-- the file in the header of a first sector, then the new bytes, and in its spare area how many bytes
-- there are behind that header; the rest of the flash and the files open for reading are as before.
pub flog_commit_file_sector-Moved :
    (blocks file : ℕ) (bytes fs avs ps : List ℕ) (s : Fs) (k : ℕ)
    → IsReady blocks file bytes fs avs ps s
    → (s.write_files file).sector ≢ 3
    → (s.write_files file).sector < s.params.pages_per_block * 4
    → s.params.pages_per_block * 4 < 2 ^ 16
    → ((s.write_files file).sector ≡ 1 → 12 ≤ (s.write_files file).offset)
    → Returns (Moved file bytes s) (flog_commit_file_sector (suc k) file bytes s)
unfolding with_init_header
flog_commit_file_sector-Moved blocks file bytes fs avs ps s k h inside in_block small starts =
    let fits : (s.write_files file).offset + length bytes ≤ 512 = ground (arith, h.fits) in
    Returns.mono
      (flog_commit_file_sector-Committed blocks file bytes fs avs ps s k h (ground (arith, inside)))
      (Committed-with_init_header file bytes s inside in_block small starts fits)
