-- ===== src/Read/Skipped.antt =====
-- `flogfs_read` of src/flogfs.c at a block whose first sector has no data.
use flog_fs.Base.{
  ℕ, ◌/◌, ◌^◌, ◌<◌, ◌≤◌, ◌≡◌, ◌∙◌, refl, ap, true, none, some, List, [], ◌++◌, ◌==◌, length, take,
  take-nil, arith,
}
use flog_fs.Bytes.{load_bytes}
use flog_fs.Structs.{
  init_sector, tail_sector, file_init_size, read_file_init, file_tail_size, read_file_tail,
}
use flog_fs.Flash.{fs_sector_size, fs_sectors_per_page}
use flog_fs.Flash.Address.{IsGeometry}
use flog_fs.Prealloc.Queue.{IsPrealloc}
use flog_fs.Fs.{Fs, ReadFile}
use flog_fs.Fs.Cache.{IsCoherent}
use flog_fs.Inode.{table_bound}
use flog_fs.Write.{flog_increment_sector}
use flog_fs.Read.{data_offset, flogfs_read}
use flog_fs.Read.Contents.{
  Position, bytes_of, spare_of, next_block_position, following, behind, IsReadable,
}
use flog_fs.Read.Following.{behind-some}
use flog_fs.Read.Stream.{IsReader, unread}
use flog_fs.Read.Loop.{flogfs_read-unread}
use flog_fs.Run.Returns
use flog_fs.Run.Returns.{Returns, returns}

-- The reader has read its block to the end. The next block is of the same file and has an empty first
-- sector, and the sector behind the second one is not written.
pub record IsAtEmpty (blocks next second : ℕ) (f : ReadFile) (s : Fs) : Type 0 where
  pub at_tail : f.sector ≡ tail_sector
  pub nothing_left : f.sector_remaining_bytes ≡ 0
  pub start : f.offset ≤ fs_sector_size
  pub head_in : f.read_head < 2 ^ 32
  pub block_in : f.block < blocks
  pub next_block :
      (read_file_tail (bytes_of s.chip f.block tail_sector 0 file_tail_size)).universal.next_block
      ≡ next
  pub next_in : next < blocks
  pub same_file :
      (read_file_init (bytes_of s.chip next init_sector 0 file_init_size)).file_id ≡ f.id
  pub first_empty : (spare_of s.chip next init_sector).nbytes ≡ 0
  pub second_is : flog_increment_sector s.params init_sector ≡ second
  pub header : data_offset second ≤ fs_sector_size
  pub second_in : second / fs_sectors_per_page < s.chip.pages_per_block
  pub end : following s.chip s.params f.id next second ≡ none

module _ (blocks next second : ℕ) (f : ReadFile) (s : Fs)
    (h : IsAtEmpty blocks next second f s) where
  abbrev empty : Position
  empty = record { block = next; sector = second; nbytes = 0 }

  following-empty : following s.chip s.params f.id f.block f.sector ≡ some empty
  unfolding following next_block_position
  following-empty =
      let mine : ((read_file_init (bytes_of s.chip next init_sector 0 file_init_size)).file_id
            == f.id)
          ≡ true =
        let e = h.same_file in ground arith in
      rw h.at_tail (rw h.next_block (rw (mine, h.first_empty, h.second_is) refl))

  reader-IsReader : IsReader s.chip s.params blocks 1 f
  reader-IsReader = record {
    block_in = h.block_in;
    page_in = let at = h.at_tail in let room = h.second_in in omega arith;
    fits = let z = h.nothing_left in let o = h.start in omega arith;
    head_in = h.head_in;
    readable =
        rw (following-empty, IsReadable)
          (
            record {
              block_in = h.next_in;
              page_in = h.second_in;
              fits = let o = h.header in omega arith;
            },
            h.end,
          );
  }

  unread-nothing : unread s.chip s.params 1 f ≡ []
  unfolding load_bytes behind
  unread-nothing =
      ap
        (λ n.
          bytes_of s.chip f.block f.sector f.offset n
          ++ behind s.chip s.params f.id 1 f.block f.sector)
        h.nothing_left
      ∙ behind-some s.chip s.params f.id 0 f.block f.sector empty following-empty

-- From a coherent state with a well-formed preallocation list, a reader that has read its block to the
-- end and whose next block of the file has an empty first sector, with nothing written behind the
-- second one, reads nothing, whatever the second sector holds.
pub flogfs_read-Skipped :
    (file n blocks next second : ℕ) (free avs pending : List ℕ) (s : Fs)
    → IsGeometry s.chip.pages_per_block blocks
    → IsCoherent s
    → IsPrealloc s.prealloc free avs pending
    → IsAtEmpty blocks next second (s.read_files file) s
    → 1 ≤ table_bound s.params
    → n < 2 ^ 32
    → Returns (λ result _. (result.0 ≡ 0) × (result.1 ≡ [])) (flogfs_read file n s)
flogfs_read-Skipped file n blocks next second free avs pending s geometry coherent lists h few
      small =
    let f = s.read_files file in
    Returns.mono
      (flogfs_read-unread file n 1 blocks free avs pending s geometry coherent lists
        (reader-IsReader blocks next second f s h) few small)
      (λ result t w.
        let none_read =
          w.bytes ∙ (ap (take n) (unread-nothing blocks next second f s h) ∙ take-nil n) in
        (w.count ∙ ap length none_read, none_read))
