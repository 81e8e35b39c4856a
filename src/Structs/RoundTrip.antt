-- ===== src/Structs/RoundTrip.antt =====
-- Every struct of the flash is read back as it was written: its bytes hold its fields, if these fit
-- their types.
use flog_fs.Base.{◌^◌, ◌<◌, ◌≡◌, arith}
use flog_fs.Bytes.{encode, decode, field}
use flog_fs.Structs.{
  BlockStatistics, statistics_bytes, read_statistics, UniversalTail, universal_tail_bytes,
  read_universal_tail, FileTailHeader, file_tail_bytes, read_file_tail, FileInitHeader,
  file_init_bytes, read_file_init, SectorSpare, spare_bytes, read_spare, AllocationHeader,
  allocation_header_bytes, read_allocation_header, Invalidation, invalidation_bytes,
  read_invalidation,
}

pub record TailFits (h : UniversalTail) : Type 0 where
  pub next_block : h.next_block < 2 ^ 16
  pub padding : h.padding < 2 ^ 16
  pub next_age : h.next_age < 2 ^ 32
  pub timestamp : h.timestamp < 2 ^ 32

-- Reading the bytes of a tail header that all blocks share gives back its fields, if these fit their types.
pub universal_tail_round_trip :
    (h : UniversalTail) → TailFits h → read_universal_tail (universal_tail_bytes h) ≡ h
unfolding read_universal_tail universal_tail_bytes field decode encode
universal_tail_round_trip h fits = ground arith

pub record FileTailFits (h : FileTailHeader) : Type 0 where
  pub universal : TailFits h.universal
  pub bytes_in_block : h.bytes_in_block < 2 ^ 32

-- Reading the bytes of a tail header of a file block gives back its fields, if these fit their types.
pub file_tail_round_trip :
    (h : FileTailHeader) → FileTailFits h → read_file_tail (file_tail_bytes h) ≡ h
unfolding read_file_tail file_tail_bytes field decode encode
file_tail_round_trip h fits = ground arith

pub record FileInitFits (h : FileInitHeader) : Type 0 where
  pub timestamp : h.timestamp < 2 ^ 32
  pub age : h.age < 2 ^ 32
  pub file_id : h.file_id < 2 ^ 32

-- Reading the bytes of a header of the first sector of a file block gives back its fields, if these fit their types.
pub file_init_round_trip :
    (h : FileInitHeader) → FileInitFits h → read_file_init (file_init_bytes h) ≡ h
unfolding read_file_init file_init_bytes field decode encode
file_init_round_trip h fits = ground arith

pub record SpareFits (h : SectorSpare) : Type 0 where
  pub type_id : h.type_id < 2 ^ 8
  pub nothing : h.nothing < 2 ^ 8
  pub nbytes : h.nbytes < 2 ^ 16

-- Reading the bytes of a spare area of a sector gives back its fields, if these fit their types.
pub spare_round_trip : (h : SectorSpare) → SpareFits h → read_spare (spare_bytes h) ≡ h
unfolding read_spare spare_bytes field decode encode
spare_round_trip h fits = ground arith

pub record AllocationFits (h : AllocationHeader) : Type 0 where
  pub file_id : h.file_id < 2 ^ 32
  pub first_block : h.first_block < 2 ^ 16
  pub padding : h.padding < 2 ^ 16
  pub first_block_age : h.first_block_age < 2 ^ 32
  pub timestamp : h.timestamp < 2 ^ 32

-- Reading the bytes of a header of an entry of the inode table gives back its fields, if these fit their types.
pub allocation_header_round_trip :
    (h : AllocationHeader)
    → AllocationFits h
    → read_allocation_header (allocation_header_bytes h) ≡ h
unfolding read_allocation_header allocation_header_bytes field decode encode
allocation_header_round_trip h fits = ground arith

pub record InvalidationFits (h : Invalidation) : Type 0 where
  pub timestamp : h.timestamp < 2 ^ 32
  pub last_block : h.last_block < 2 ^ 16
  pub padding : h.padding < 2 ^ 16

-- Reading the bytes of a mark of a deleted file gives back its fields, if these fit their types.
pub invalidation_round_trip :
    (h : Invalidation) → InvalidationFits h → read_invalidation (invalidation_bytes h) ≡ h
unfolding read_invalidation invalidation_bytes field decode encode
invalidation_round_trip h fits = ground arith

pub record StatisticsFits (h : BlockStatistics) : Type 0 where
  pub age : h.age < 2 ^ 32
  pub timestamp : h.timestamp < 2 ^ 32
  pub next_block : h.next_block < 2 ^ 16
  pub padding : h.padding < 2 ^ 16
  pub next_age : h.next_age < 2 ^ 32
  pub version : h.version < 2 ^ 32
  pub key : h.key < 2 ^ 48
  pub tail_padding : h.tail_padding < 2 ^ 16

-- Reading the bytes of the statistics of a block gives back its fields, if these fit their types.
pub statistics_round_trip :
    (h : BlockStatistics) → StatisticsFits h → read_statistics (statistics_bytes h) ≡ h
unfolding read_statistics statistics_bytes field decode encode
statistics_round_trip h fits = ground arith
