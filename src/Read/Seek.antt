-- ===== src/Read/Seek.antt =====
-- Where seeking puts the read head, and where reading looks for data.
use flog_fs.Base.{◌+◌, ◌-◌, ◌^◌, ◌≤◌, ◌<◌, ◌≡◌, ◌≢◌, arith, some}
use flog_fs.Structs.{SectorSpare, success}
use flog_fs.FileWalk.{FileWalkState, FileSeek, walk_stop, file_seek_walk}
use flog_fs.Read.{data_offset}

-- What the visit of a sector that holds the desired position does.
pub record Misplaced (state : FileWalkState) (spare : SectorSpare) (old : FileSeek) : Type 0 where
  pub stops : (file_seek_walk state old).0 ≡ walk_stop
  pub status : (file_seek_walk state old).1.status ≡ success
  pub remaining :
      (file_seek_walk state old).1.bytes_remaining + (old.desired - old.position) ≡ spare.nbytes
  pub offset : (file_seek_walk state old).1.offset ≡ old.desired - old.position
  pub wrong :
      (file_seek_walk state old).1.offset ≢ data_offset state.sector + (old.desired - old.position)

-- In a sector that starts with a header, the walk for a position stops with the right number of
-- bytes left, but the offset counts from the start of the sector, and not from the start of its data
-- as reading does: it is not where the byte at that position is.
pub file_seek_walk-Misplaced :
    (state : FileWalkState) (spare : SectorSpare) (old : FileSeek)
    → state.sector_spare ≡ some spare
    → data_offset state.sector ≢ 0
    → old.position ≤ old.desired
    → old.desired ≤ old.position + spare.nbytes
    → old.position + spare.nbytes < 2 ^ 32
    → spare.nbytes < 2 ^ 16
    → Misplaced state spare old
unfolding file_seek_walk
file_seek_walk-Misplaced state spare old e header from to fits small = record {
  stops = rw e (ground arith);
  status = rw e (ground arith);
  remaining = rw e (ground arith);
  offset = rw e (ground arith);
  wrong = rw e (ground arith);
}
