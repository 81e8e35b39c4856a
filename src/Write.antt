-- ===== src/Write.antt =====
-- Writing to an open file, src/flogfs.c: the commit of a sector, flushing, and `flogfs_write`.
-- A commit may flush the file whose first block is dirty, which is a commit again: `depth` bounds
-- that recursion, and `Write.Depth` shows that two levels are enough.
pub mod Order
pub mod Wrote
pub mod Sector
pub mod Keeps
pub mod Buffer
pub mod Untouched
pub mod Depth
pub mod Flushable
pub mod Commit
pub mod Moved
pub mod Elsewhere
pub mod Grown
pub mod Ends
use flog_fs.Base.{
  ℕ, zero, suc, ◌+◌, ◌-◌, List, [], ◌==◌, leb, if◌then◌else◌, not, length, take, drop, add16, sub16,
  add32,
}
use flog_fs.Bytes.{load_bytes, store_bytes}
use flog_fs.Structs.{
  FlogResult, failure, success, succeeded, init_sector, tail_sector, block_idx_invalid,
  block_type_file, file_init_size, file_init_bytes, read_file_init, file_tail_size, file_tail_bytes,
  read_file_tail, SectorSpare, spare_bytes,
}
use flog_fs.Flash.{
  fs_sector_size, fs_sectors_per_page, flash_write_sector, flash_write_spare, flash_commit,
}
use flog_fs.Prealloc.{BlockAlloc}
use flog_fs.Fs.{Fs, WriteFile, Params, null, clean, on_chip, flog_open_sector, sectors_in_block}
use flog_fs.Alloc.{flog_allocate_block}
use flog_fs.Run.{Cmd, pure, out_of_fuel, ◌>>=◌, ◌>>◌, fetch, modify, assert}

abbrev pub last_sector : Params → ℕ
last_sector p = sub16 (sectors_in_block p) 1

-- Sectors are used out of order: the tail sector, which lies in the first page, comes last.
unfoldable pub flog_increment_sector : Params → ℕ → ℕ
flog_increment_sector p sector =
    if sector == tail_sector - 1
    then fs_sectors_per_page
    else if sector == last_sector p
    then tail_sector
    else add16 sector 1

abbrev pub put_file : ℕ → WriteFile → Fs → Fs
put_file file f s = record s { write_files = λ p. if p == file then f else s.write_files p }

-- `*file` as the application's pointer reads it
abbrev pub get_file : ℕ → Cmd Fs WriteFile
get_file file s = pure (s.write_files file) s

-- Where the first byte of a sector's data goes: behind the header, if the sector has one.
abbrev pub header_size : ℕ → ℕ
header_size sector = if sector == tail_sector then file_tail_size else 0

-- Data that has been buffered goes first, then the new data, then the spare area.
pub write_file_sector : WriteFile → List ℕ → SectorSpare → Cmd Fs (Unit {0})
unfolding flog_open_sector load_bytes spare_bytes
write_file_sector f bytes spare = do
  flog_open_sector f.block f.sector
  if f.offset == 0
      then pure tt
      else on_chip (flash_write_sector (load_bytes f.sector_buffer 0 f.offset) f.sector 0)
  if length bytes == 0 then pure tt else on_chip (flash_write_sector bytes f.sector f.offset)
  on_chip (flash_write_spare (spare_bytes spare) f.sector)
  on_chip flash_commit

-- the header of the first sector, written over the start of the buffer
unfoldable pub with_init_header : WriteFile → WriteFile
unfolding store_bytes file_init_bytes load_bytes read_file_init
with_init_header f =
    if f.sector == init_sector
    then record f {
      sector_buffer =
          let old = read_file_init (load_bytes f.sector_buffer 0 file_init_size) in
          store_bytes f.sector_buffer 0
            (file_init_bytes (record old { file_id = f.id; age = f.block_age }));
    }
    else f

-- the fields after a commit inside a block
unfoldable pub advance : Params → ℕ → WriteFile → WriteFile
unfolding flog_increment_sector
advance p n f =
    let sector = flog_increment_sector p f.sector in
    let offset = header_size sector in
    record f {
      sector = sector;
      offset = offset;
      bytes_in_block = add32 f.bytes_in_block n;
      sector_remaining_bytes = sub16 fs_sector_size offset;
      file_size = add32 f.file_size n;
    }

-- the bytes of data in the sector that is committed
abbrev pub data_nbytes : WriteFile → ℕ → ℕ
data_nbytes f n =
    let bytes_in_sector = add16 f.offset n in
    if f.sector == init_sector then sub16 bytes_in_sector file_init_size else bytes_in_sector

-- flog_commit_file_sector at any sector but the last, once the file is not dirty any more
pub write_inner : ℕ → List ℕ → Cmd Fs FlogResult
unfolding write_file_sector with_init_header advance
write_inner file bytes = do
  f ← get_file file
  s ← fetch
  write_file_sector (with_init_header f) bytes (record {
    type_id = block_type_file;
    nothing = s.stack 1;
    nbytes = data_nbytes f (length bytes);
  })
  modify (λ s. put_file file (advance s.params (length bytes) (with_init_header f)) s)
  pure success

-- flog_commit_file_sector at any sector but the last
pub commit_inner : ℕ → List ℕ → Cmd Fs FlogResult
unfolding write_inner
commit_inner file bytes = do
  s ← fetch
  if s.dirty_block.file == file then modify (λ s. record s { dirty_block = clean }) else pure tt
  write_inner file bytes

-- the header of the last sector, written over the start of the buffer
pub with_tail_header : BlockAlloc → ℕ → ℕ → WriteFile → WriteFile
unfolding store_bytes file_tail_bytes load_bytes read_file_tail
with_tail_header next t n f =
    let old = read_file_tail (load_bytes f.sector_buffer 0 file_tail_size) in
    let bytes_in_block = add32 f.bytes_in_block n in
    record f {
      bytes_in_block = bytes_in_block;
      sector_buffer = store_bytes f.sector_buffer 0 (
          file_tail_bytes (record old {
            universal = record old.universal {
              next_age = add32 next.age 1;
              next_block = next.block;
              timestamp = t;
            };
            bytes_in_block = bytes_in_block;
          }));
    }

-- the fields at the start of the next block
pub next_block_file : BlockAlloc → ℕ → WriteFile → WriteFile
next_block_file next n f = record f {
  block = next.block;
  block_age = next.age;
  sector = init_sector;
  sector_remaining_bytes = fs_sector_size - file_init_size;
  offset = file_init_size;
  bytes_in_block = 0;
  file_size = add32 f.file_size n;
}

-- flog_commit_file_sector at the last sector, once a block has been allocated
pub commit_tail_into : BlockAlloc → ℕ → List ℕ → Cmd Fs FlogResult
unfolding write_file_sector with_tail_header next_block_file
commit_tail_into next file bytes = do
  modify
      (λ s. record s { dirty_block = record { block = next.block; file = file }; t = add32 s.t 1 })
  f ← get_file file
  s ← fetch
  write_file_sector (with_tail_header next s.t (length bytes) f) bytes (record {
    type_id = s.stack 1;
    nothing = s.stack 2;
    nbytes = sub16 (add16 f.offset (length bytes)) file_tail_size;
  })
  modify (
      put_file file
        (next_block_file next (length bytes) (with_tail_header next s.t (length bytes) f)))
  pure success

pub commit_tail : Cmd Fs (Unit {0}) → ℕ → List ℕ → Cmd Fs FlogResult
unfolding commit_tail_into flog_allocate_block
commit_tail flush file bytes = do
  flush
  next ← flog_allocate_block
  if next.block == block_idx_invalid then pure failure else commit_tail_into next file bytes

-- flog_flush_write, over the commit that it calls
pub flush_write_by : (ℕ → List ℕ → Cmd Fs FlogResult) → ℕ → Cmd Fs FlogResult
flush_write_by commit file = do
  done ← commit file []
  if not (succeeded done) then pure failure else do
    s ← fetch
    if not (file == s.dirty_block.file) then pure done else do
      again ← commit file []
      s ← fetch
      assert (s.dirty_block.file == null)
      assert (s.dirty_block.block == block_idx_invalid)
      pure again

-- flog_flush_dirty_block, over the same
pub flush_dirty_by : (ℕ → List ℕ → Cmd Fs FlogResult) → Cmd Fs (Unit {0})
unfolding flush_write_by
flush_dirty_by commit = do
  s ← fetch
  if s.dirty_block.block == block_idx_invalid then pure tt else do
    flush_write_by commit s.dirty_block.file
    modify (λ s. record s { dirty_block = record s.dirty_block { block = block_idx_invalid } })

-- flog_commit_file_sector, over the commit that flushing calls
pub commit_by : (ℕ → List ℕ → Cmd Fs FlogResult) → ℕ → List ℕ → Cmd Fs FlogResult
unfolding commit_inner commit_tail flush_dirty_by
commit_by commit file bytes = do
  f ← get_file file
  if f.sector == tail_sector
      then commit_tail (flush_dirty_by commit) file bytes
      else commit_inner file bytes

unfoldable pub flog_commit_file_sector : (depth file : ℕ) → List ℕ → Cmd Fs FlogResult
unfolding commit_by
flog_commit_file_sector zero file bytes = λ _. out_of_fuel
flog_commit_file_sector (suc depth) file bytes =
    commit_by (flog_commit_file_sector depth) file bytes

abbrev pub commit_depth : ℕ
commit_depth = 2

unfoldable pub flog_flush_write : ℕ → Cmd Fs FlogResult
unfolding flush_write_by flog_commit_file_sector
flog_flush_write file = flush_write_by (flog_commit_file_sector commit_depth) file

unfoldable pub flog_flush_dirty_block : Cmd Fs (Unit {0})
unfolding flush_dirty_by flog_commit_file_sector
flog_flush_dirty_block = flush_dirty_by (flog_commit_file_sector commit_depth)

-- the branch of `flogfs_write` that only fills the buffer
pub buffer_bytes : ℕ → List ℕ → Cmd Fs (Unit {0})
unfolding store_bytes
buffer_bytes file src = do
  f ← get_file file
  let n = length src
  modify (
      put_file file (record f {
        sector_buffer = store_bytes f.sector_buffer f.offset src;
        sector_remaining_bytes = sub16 f.sector_remaining_bytes n;
        offset = add16 f.offset n;
        bytes_in_block = add32 f.bytes_in_block n;
        file_size = add32 f.file_size n;
      }))

pub write_loop : ℕ → ℕ → List ℕ → ℕ → Cmd Fs ℕ
unfolding flog_commit_file_sector buffer_bytes
write_loop zero file src count = λ _. out_of_fuel
write_loop (suc k) file src count = if length src == 0 then pure count else do
  f ← get_file file
  let n = f.sector_remaining_bytes
  if leb n (length src)
      then (do
        done ← flog_commit_file_sector commit_depth file (take n src)
        if succeeded done then write_loop k file (drop n src) (add32 count n) else pure count)
      else (do buffer_bytes file src; pure (add32 count (length src)))

-- `src` holds the `nbytes` bytes. Each round of the loop commits a byte at least.
unfoldable pub flogfs_write : ℕ → List ℕ → Cmd Fs ℕ
unfolding write_loop
flogfs_write file src = write_loop (length src + 1) file src 0

unfoldable pub flogfs_write_file_size : ℕ → Fs → ℕ
flogfs_write_file_size file s = (s.write_files file).file_size
