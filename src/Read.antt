-- ===== src/Read.antt =====
-- Reading an open file, `flogfs_read` of src/flogfs.c.
pub mod Keeps
pub mod Seek
pub mod Contents
pub mod Chain
pub mod Quiet
pub mod Steps
pub mod Stream
pub mod Loop
pub mod Returned
pub mod Following
pub mod Extended
pub mod Committed
pub mod Vacant
pub mod Streaming
pub mod Written
pub mod Skipped
use flog_fs.Base.{
  ℕ, zero, suc, ◌+◌, ◌-◌, Bool, true, false, List, [], ◌++◌, ◌==◌, if◌then◌else◌, not, min, add16,
  sub16, add32,
}
use flog_fs.Structs.{
  init_sector, tail_sector, file_init_size, read_file_init, file_tail_size, read_file_tail,
  invalid_sector_spare,
}
use flog_fs.Fs.{Fs, ReadFile, flog_open_sector, read_sector, read_spare_of}
use flog_fs.Write.{flog_increment_sector}
use flog_fs.Inode.{table_bound}
use flog_fs.FileWalk.{put_read_file}
use flog_fs.Run.{Cmd, pure, out_of_fuel, ◌>>=◌, ◌>>◌, fetch, modify}

-- Where the data of a sector starts.
abbrev pub data_offset : ℕ → ℕ
data_offset sector =
    if sector == tail_sector
    then file_tail_size
    else if sector == init_sector
    then file_init_size
    else 0

-- the fields of a file that has come to a sector with `nbytes` bytes
pub enter_sector : ReadFile → (block sector nbytes : ℕ) → ReadFile
enter_sector f block sector nbytes = record f {
  block = block;
  sector = sector;
  sector_remaining_bytes = nbytes;
  offset = data_offset sector;
}

-- Behind the last sector of a block: the next block, if it has been written for this file.
pub next_block_step : ℕ → Cmd Fs Bool
unfolding flog_open_sector read_file_tail read_file_init flog_increment_sector enter_sector
next_block_step file = do
  s ← fetch
  let f = s.read_files file
  flog_open_sector f.block tail_sector
  tail ← read_sector tail_sector 0 file_tail_size
  let block = (read_file_tail tail).universal.next_block
  flog_open_sector block init_sector
  init ← read_sector init_sector 0 file_init_size
  if not ((read_file_init init).file_id == f.id) then pure false else do
    spare ← read_spare_of init_sector
    let sector =
        if spare.nbytes == 0 then flog_increment_sector s.params init_sector else init_sector
    modify (put_read_file file (enter_sector f block sector spare.nbytes))
    pure true

-- Inside a block: the next sector, if it has been written.
pub next_sector_step : ℕ → Cmd Fs Bool
unfolding flog_open_sector flog_increment_sector enter_sector
next_sector_step file = do
  s ← fetch
  let f = s.read_files file
  let sector = flog_increment_sector s.params f.sector
  flog_open_sector f.block sector
  spare ← read_spare_of sector
  if invalid_sector_spare spare
      then pure false
      else do modify (put_read_file file (enter_sector f f.block sector spare.nbytes)); pure true

-- The part of a round that looks for new data; `false` is the end of the file.
pub refill : ℕ → Cmd Fs Bool
unfolding next_block_step next_sector_step
refill file = do
  s ← fetch
  let f = s.read_files file
  if not (f.sector_remaining_bytes == 0)
      then pure true
      else if f.sector == tail_sector
      then next_block_step file
      else next_sector_step file

-- The part of a round that reads from the current sector.
pub take_bytes : ℕ → ℕ → Cmd Fs (List ℕ)
unfolding flog_open_sector
take_bytes file to_read = do
  s ← fetch
  let f = s.read_files file
  flog_open_sector f.block f.sector
  bytes ← read_sector f.sector f.offset to_read
  modify (
      put_read_file file (record f {
        offset = add16 f.offset to_read;
        sector_remaining_bytes = sub16 f.sector_remaining_bytes to_read;
        read_head = add32 f.read_head to_read;
      }))
  pure bytes

-- The count and what has been stored at `dst`.
pub read_loop : ℕ → (file nbytes count : ℕ) → List ℕ → Cmd Fs (ℕ × List ℕ)
unfolding refill take_bytes
read_loop zero file nbytes count dst = λ _. out_of_fuel
read_loop (suc k) file nbytes count dst = if nbytes == 0 then pure (count, dst) else do
  more ← refill file
  if not more then pure (count, dst) else do
    s ← fetch
    let to_read = min nbytes (s.read_files file).sector_remaining_bytes
    if to_read == 0 then read_loop k file nbytes count dst else do
      bytes ← take_bytes file to_read
      read_loop k file (nbytes - to_read) (add32 count to_read) (dst ++ bytes)

-- A round reads a byte or comes to another sector.
unfoldable pub flogfs_read : (file nbytes : ℕ) → Cmd Fs (ℕ × List ℕ)
unfolding read_loop
flogfs_read file nbytes = do
  s ← fetch
  read_loop (nbytes + table_bound s.params + 1) file nbytes 0 []

unfoldable pub flogfs_read_file_size : ℕ → Fs → ℕ
flogfs_read_file_size file s = (s.read_files file).file_size

unfoldable pub flogfs_read_tell : ℕ → Fs → ℕ
flogfs_read_tell file s = (s.read_files file).read_head
