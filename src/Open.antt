-- ===== src/Open.antt =====
-- Opening and closing files, src/flogfs.c. `NULL->next` is a crash, and is a `panic` here.
pub mod Keeps
pub mod Close
pub mod Start
pub mod Names
use flog_fs.Base.{
  ℕ, zero, suc, ◌+◌, ◌-◌, Bool, List, [], ◌∷◌, ◌++◌, ◌==◌, leb, if◌then◌else◌, not, ◌&&◌, length,
  take, sub16, add32,
}
use flog_fs.Structs.{
  FlogResult, failure, success, succeeded, is_mounted, block_idx_invalid, max_fname_len,
  init_sector, tail_sector, file_tail_size, read_file_tail, invalid_file_tail, invalid_sector_spare,
  file_init_size, allocation_header_bytes,
}
use flog_fs.Flash.{fs_sector_size, flash_write_sector, flash_commit}
use flog_fs.Prealloc.{BlockAlloc}
use flog_fs.Fs.{
  Fs, WriteFile, null, on_chip, flog_open_sector, read_sector, read_spare_of, sectors_in_block,
  junk16,
}
use flog_fs.Alloc.{flog_allocate_block}
use flog_fs.Write.{
  flog_increment_sector, put_file, get_file, header_size, flog_flush_dirty_block, flog_flush_write,
}
use flog_fs.Inode.{InodeIterator, flog_inode_prepare_new, flog_find_file}
use flog_fs.FileWalk.{put_read_file, flogfs_read_calc_file_size}
use flog_fs.Run.{Cmd, pure, panic, out_of_fuel, ◌>>=◌, ◌>>◌, fetch, modify}

-- `iter->next = file` at the end of a list of open files, for either kind of file
pub append_loop : ℕ → (Fs → ℕ → ℕ) → (ℕ → ℕ → Fs → Fs) → ℕ → ℕ → Cmd Fs (Unit {0})
append_loop zero next_of set_next iter file = λ _. out_of_fuel
append_loop (suc k) next_of set_next iter file = do
  s ← fetch
  if next_of s iter == null
      then modify (set_next iter file)
      else append_loop k next_of set_next (next_of s iter) file

-- The walk for the entry before `file`, which it then bypasses.
pub unlink_loop : ℕ → (Fs → ℕ → ℕ) → (ℕ → ℕ → Fs → Fs) → ℕ → ℕ → Cmd Fs (Unit {0})
unlink_loop zero next_of set_next iter file = λ _. out_of_fuel
unlink_loop (suc k) next_of set_next iter file = if iter == null then (λ _. panic) else do
  s ← fetch
  let next = next_of s iter
  if next == null
      then pure tt
      else if next == file
      then modify (set_next iter (next_of s file))
      else unlink_loop k next_of set_next next file

abbrev pub next_reader : Fs → ℕ → ℕ
next_reader s p = (s.read_files p).next

abbrev pub set_next_reader : ℕ → ℕ → Fs → Fs
set_next_reader p q s = put_read_file p (record (s.read_files p) { next = q }) s

abbrev pub next_writer : Fs → ℕ → ℕ
next_writer s p = (s.write_files p).next

abbrev pub set_next_writer : ℕ → ℕ → Fs → Fs
set_next_writer p q s = put_file p (record (s.write_files p) { next = q }) s

-- The read head at the first sector that has data, as the code finds it.
pub start_reading : ℕ → Cmd Fs (Unit {0})
unfolding flog_open_sector flog_increment_sector
start_reading file = do
  s ← fetch
  let f = s.read_files file
  flog_open_sector f.block init_sector
  spare ← read_spare_of init_sector
  if not (spare.nbytes == 0)
      then modify (λ s.
        put_read_file file
          (record (s.read_files file) {
            sector = init_sector;
            offset = file_init_size;
            sector_remaining_bytes = spare.nbytes;
          })
          s)
      else (do
        flog_open_sector f.block 1
        again ← read_spare_of 1
        modify (λ s.
            put_read_file file
              (record (s.read_files file) {
                sector = flog_increment_sector s.params init_sector;
                offset = 0;
                sector_remaining_bytes = again.nbytes;
              })
              s))

pub link_reader : ℕ → Cmd Fs (Unit {0})
unfolding append_loop
link_reader file = do
  modify (set_next_reader file null)
  s ← fetch
  if s.read_head == null
      then modify (λ s. record s { read_head = file })
      else append_loop s.open_bound next_reader set_next_reader s.read_head file

-- `filename` is the bytes before the terminator.
unfoldable pub flogfs_open_read : ℕ → List ℕ → Cmd Fs FlogResult
unfolding flog_find_file flogfs_read_calc_file_size start_reading link_reader
flogfs_open_read file filename = if leb max_fname_len (length filename) then pure failure else do
  (found, iter) ← flog_find_file filename
  if found.first_block == block_idx_invalid then pure failure else do
    modify (λ s.
        put_read_file file
          (record (s.read_files file) {
            read_head = 0;
            first_block = found.first_block;
            block = found.first_block;
            id = found.file_id;
          })
          s)
    sized ← flogfs_read_calc_file_size file
    if not (succeeded sized)
        then pure failure
        else do start_reading file; link_reader file; pure success

unfoldable pub flogfs_close_read : ℕ → Cmd Fs FlogResult
unfolding unlink_loop
flogfs_close_read file = do
  s ← fetch
  if s.read_head == file
      then (do modify (λ s. record s { read_head = next_reader s file }); pure success)
      else (do unlink_loop s.open_bound next_reader set_next_reader s.read_head file; pure failure)

-- The loop over the finished blocks of a file that is opened for writing.
pub finished_blocks_loop : ℕ → ℕ → Cmd Fs (Unit {0})
unfolding flog_open_sector read_file_tail
finished_blocks_loop zero file = λ _. out_of_fuel
finished_blocks_loop (suc k) file = do
  f ← get_file file
  flog_open_sector f.block tail_sector
  bytes ← read_sector tail_sector 0 file_tail_size
  let header = read_file_tail bytes
  if invalid_file_tail header then pure tt else do
    modify (
        put_file file (record f {
          block = header.universal.next_block;
          file_size = add32 f.file_size header.bytes_in_block;
        }))
    finished_blocks_loop k file

-- The loop over the sectors of its last block, to the first that is not written.
pub written_sectors_loop : ℕ → ℕ → Cmd Fs (Unit {0})
unfolding flog_open_sector flog_increment_sector
written_sectors_loop zero file = λ _. out_of_fuel
written_sectors_loop (suc k) file = do
  f ← get_file file
  flog_open_sector f.block f.sector
  spare ← read_spare_of f.sector
  s ← fetch
  let offset = header_size f.sector
  if invalid_sector_spare spare
      then modify (
          put_file file
            (record f { offset = offset; sector_remaining_bytes = sub16 fs_sector_size offset }))
      else (do
        modify (
            put_file file (record f {
              file_size = add32 f.file_size spare.nbytes;
              sector = flog_increment_sector s.params f.sector;
            }))
        written_sectors_loop k file)

pub open_existing : ℕ → (block id : ℕ) → Cmd Fs (Unit {0})
unfolding finished_blocks_loop written_sectors_loop
open_existing file block id = do
  modify (λ s.
      put_file file
        (record (s.write_files file) {
          block = block;
          id = id;
          sector = init_sector;
          file_size = 0;
        })
        s)
  s ← fetch
  finished_blocks_loop (s.params.number_of_blocks + 1) file
  written_sectors_loop (sectors_in_block s.params) file

pub junk_bytes : Fs → ℕ → ℕ → List ℕ
junk_bytes s at zero = []
junk_bytes s at (suc n) = s.stack at ∷ junk_bytes s (at + 1) n

-- The name field: `strcpy`, what was on the stack behind it, and a terminator at the end. A name of
-- 32 bytes or more overruns the field in the code, which checks no length here; such calls are not
-- modelled.
abbrev pub name_field : Fs → List ℕ → List ℕ
unfolding junk_bytes
name_field s filename =
    take (max_fname_len - 1) (filename ++ (0 ∷ junk_bytes s 8 max_fname_len)) ++ (0 ∷ [])

-- The new entry of the inode table, and the file at the start of its first block.
pub create_in : ℕ → List ℕ → InodeIterator → BlockAlloc → Cmd Fs (Unit {0})
unfolding flog_open_sector allocation_header_bytes junk_bytes
create_in file filename iter alloc = do
  modify (λ s. record s {
    dirty_block = record { block = alloc.block; file = file };
    max_file_id = add32 s.max_file_id 1;
    t = add32 s.t 1;
  })
  s ← fetch
  let age = add32 alloc.age 1
  flog_open_sector iter.block iter.sector
  on_chip (
      flash_write_sector
        (allocation_header_bytes (record {
          file_id = s.max_file_id;
          first_block = alloc.block;
          padding = junk16 s 1;
          first_block_age = age;
          timestamp = s.t;
        })
          ++ name_field s filename)
        iter.sector 0)
  on_chip flash_commit
  modify (λ s.
      put_file file
        (record (s.write_files file) {
          block = alloc.block;
          block_age = age;
          id = s.max_file_id;
          bytes_in_block = 0;
          file_size = 0;
          sector = init_sector;
          offset = file_init_size;
          sector_remaining_bytes = fs_sector_size - file_init_size;
        })
        s)

pub open_new : ℕ → List ℕ → InodeIterator → Cmd Fs FlogResult
unfolding create_in flog_inode_prepare_new flog_flush_dirty_block flog_allocate_block
open_new file filename iter = do
  (prepared, iter') ← flog_inode_prepare_new iter
  if not (succeeded prepared) then pure failure else do
    flog_flush_dirty_block
    alloc ← flog_allocate_block
    if alloc.block == block_idx_invalid
        then pure failure
        else do create_in file filename iter' alloc; pure success

pub link_writer : ℕ → Cmd Fs (Unit {0})
unfolding append_loop
link_writer file = do
  modify (set_next_writer file null)
  s ← fetch
  if s.write_head == null
      then modify (λ s. record s { write_head = file })
      else append_loop s.open_bound next_writer set_next_writer s.write_head file

unfoldable pub flogfs_open_write : ℕ → List ℕ → Cmd Fs FlogResult
unfolding flog_find_file open_existing open_new link_writer
flogfs_open_write file filename = do
  s ← fetch
  if not (is_mounted s.state) then pure failure else do
    (found, iter) ← flog_find_file filename
    opened ←
        if found.first_block == block_idx_invalid
        then open_new file filename iter
        else (do open_existing file found.first_block found.file_id; pure success)
    if not (succeeded opened) then pure failure else do link_writer file; pure success

-- Whether closing flushes: `(offset != 0) && (offset != 16 && sector != FLOG_TAIL_SECTOR)`.
abbrev pub close_flushes : WriteFile → Bool
close_flushes f = not (f.offset == 0) && (not (f.offset == 16) && not (f.sector == tail_sector))

-- The result is uninitialised where nothing is flushed.
unfoldable pub flogfs_close_write : ℕ → Cmd Fs FlogResult
unfolding unlink_loop flog_flush_write
flogfs_close_write file = do
  s ← fetch
  if not (s.write_head == file)
      then (do unlink_loop s.open_bound next_writer set_next_writer s.write_head file; pure failure)
      else (do
        modify (λ s. record s { write_head = next_writer s file })
        if close_flushes (s.write_files file)
            then flog_flush_write file
            else pure (if s.stack 1 == 0 then failure else success))
