-- ===== src/Write/Buffer.antt =====
-- Writing that fits the sector buffer, and closing a file that has data there.
use flog_fs.Base.{
  ℕ, suc, ◌+◌, ◌<◌, ◌≡◌, refl, sym, ◌∙◌, arith, true, false, List, [], ◌∷◌, ◌++◌, ◌==◌, leb, length,
  add16, add32, append-nil,
}
use flog_fs.Bytes.{load_bytes}
use flog_fs.Bytes.RoundTrip.{load_bytes-append}
use flog_fs.Flash.{fs_sector_size}
use flog_fs.Fs.{Fs, WriteFile}
use flog_fs.Write.{flogfs_write, write_loop, buffer_bytes}
use flog_fs.Run.Returns
use flog_fs.Run.Returns.{Returns, returns}

-- Between writes, the sector that a file buffers has room for a byte more.
pub record IsWriter (f : WriteFile) : Type 0 where
  pub full : f.offset + f.sector_remaining_bytes ≡ fs_sector_size
  pub room : 0 < f.sector_remaining_bytes

-- what the buffer holds
abbrev pub buffered : WriteFile → List ℕ
buffered f = load_bytes f.sector_buffer 0 f.offset

-- What is left in the state by a write that only fills the buffer.
pub record Buffered (file : ℕ) (src : List ℕ) (s s' : Fs) : Type 0 where
  pub writer : IsWriter (s'.write_files file)
  pub bytes : buffered (s'.write_files file) ≡ buffered (s.write_files file) ++ src
  pub size :
      add32 (s'.write_files file).file_size 0 ≡ add32 (s.write_files file).file_size (length src)
  pub bytes_in_block :
      add32 (s'.write_files file).bytes_in_block 0
      ≡ add32 (s.write_files file).bytes_in_block (length src)
  pub sector : (s'.write_files file).sector ≡ (s.write_files file).sector
  pub head : s'.write_head ≡ s.write_head
  pub chip : s'.chip ≡ s.chip
  pub readers : s'.read_files ≡ s.read_files
  pub params : s'.params ≡ s.params
  pub cache : s'.cache_status ≡ s.cache_status
  pub prealloc : s'.prealloc ≡ s.prealloc
  pub stack : s'.stack ≡ s.stack
  pub block : (s'.write_files file).block ≡ (s.write_files file).block

module _ (file : ℕ) (s : Fs) (h : IsWriter (s.write_files file)) where
  pub write_loop-Buffered :
      (k count : ℕ) (b : ℕ) (bs : List ℕ)
      → length (b ∷ bs) < (s.write_files file).sector_remaining_bytes
      → Returns
          (λ n s'. (n ≡ add32 count (length (b ∷ bs))) × Buffered file (b ∷ bs) s s')
          (write_loop (suc k) file (b ∷ bs) count s)
  unfolding write_loop buffer_bytes
  write_loop-Buffered k count b bs lt =
      let more : leb (s.write_files file).sector_remaining_bytes (length (b ∷ bs)) ≡ false =
        ground arith in
      let some_left : (length (b ∷ bs) == 0) ≡ false = ground arith in
      let same : (file == file) ≡ true = ground arith in
      let offset : add16 (s.write_files file).offset (length (b ∷ bs))
          ≡ (s.write_files file).offset + length (b ∷ bs) =
        ground (arith, h.full) in
      rw (write_loop, some_left, more)
        (returns (
          ground (arith, h.full),
          record {
            writer =
                rw same (record { full = omega (arith, h.full); room = omega (arith, h.full) });
            bytes =
                rw (same, offset)
                  (load_bytes-append (s.write_files file).sector_buffer 0
                    (s.write_files file).offset (s.write_files file).offset (b ∷ bs) (omega arith));
            size = rw same (omega arith);
            bytes_in_block = rw same (omega arith);
            sector = rw same refl;
            head = refl;
            chip = refl;
            readers = refl;
            params = refl;
            cache = refl;
            prealloc = refl;
            stack = refl;
            block = rw same refl;
          },
        ))

-- Data that is shorter than the room left in the sector is all accepted, and added to the end of
-- what the buffer holds; the size of the file and the number of its bytes in the block grow by its
-- length, modulo 2 ^ 32, and the chip is as before.
pub flogfs_write-Buffered :
    (file : ℕ) (src : List ℕ) (s : Fs)
    → IsWriter (s.write_files file)
    → length src < (s.write_files file).sector_remaining_bytes
    → Returns (λ n s'. (n ≡ length src) × Buffered file src s s') (flogfs_write file src s)
unfolding flogfs_write write_loop
flogfs_write-Buffered file [] s h lt = returns (
  refl,
  record {
    writer = h;
    bytes = sym (append-nil _);
    size = refl;
    bytes_in_block = refl;
    sector = refl;
    head = refl;
    chip = refl;
    readers = refl;
    params = refl;
    cache = refl;
    prealloc = refl;
    stack = refl;
    block = refl;
  },
)
flogfs_write-Buffered file (b ∷ bs) s h lt =
    let fuel : length (b ∷ bs) + 1 ≡ suc (length (b ∷ bs)) = omega arith in
    rw fuel (
      Returns.mono (write_loop-Buffered file s h (length (b ∷ bs)) 0 b bs lt)
        λ n t w. (w.0 ∙ omega (arith, h.full), w.1))
