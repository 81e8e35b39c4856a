-- ===== src/Structs/Layout.antt =====
-- The structs on the flash, with the bytes of each (little-endian, 4-byte alignment). Padding bytes are
-- fields, so that the bytes and the fields of a struct determine each other.
use flog_fs.Base.{ℕ, Bool, List, ◌++◌, ◌==◌, take, drop, ◌&&◌, not}
use flog_fs.Bytes.{encode, field}
use flog_fs.Structs.Constants.{
  max_fname_len, block_statistics_key, sector_type_id_erased, sector_nbytes_erased, file_id_erased,
  timestamp_erased, block_idx_invalid,
}

pub record BlockStatistics : Type 0 where
  pub age : ℕ
  pub timestamp : ℕ
  pub next_block : ℕ
  pub padding : ℕ
  pub next_age : ℕ
  pub version : ℕ
  pub key : ℕ
  pub tail_padding : ℕ

abbrev pub statistics_size : ℕ
statistics_size = 28

unfoldable pub statistics_bytes : BlockStatistics → List ℕ
unfolding encode
statistics_bytes h =
    encode 4 h.age
    ++ (encode 4 h.timestamp
        ++ (encode 2 h.next_block
            ++ (encode 2 h.padding
                ++ (encode 4 h.next_age
                    ++ (encode 4 h.version ++ (encode 6 h.key ++ encode 2 h.tail_padding))))))

unfoldable pub read_statistics : List ℕ → BlockStatistics
unfolding field
read_statistics bs = record {
  age = field bs 0 4;
  timestamp = field bs 4 4;
  next_block = field bs 8 2;
  padding = field bs 10 2;
  next_age = field bs 12 4;
  version = field bs 16 4;
  key = field bs 20 6;
  tail_padding = field bs 26 2;
}

-- flog_universal_tail_sector_t
pub record UniversalTail : Type 0 where
  pub next_block : ℕ
  pub padding : ℕ
  pub next_age : ℕ
  pub timestamp : ℕ

abbrev pub universal_tail_size : ℕ
universal_tail_size = 12

unfoldable pub universal_tail_bytes : UniversalTail → List ℕ
unfolding encode
universal_tail_bytes h =
    encode 2 h.next_block ++ (encode 2 h.padding ++ (encode 4 h.next_age ++ encode 4 h.timestamp))

unfoldable pub read_universal_tail : List ℕ → UniversalTail
unfolding field
read_universal_tail bs = record {
  next_block = field bs 0 2;
  padding = field bs 2 2;
  next_age = field bs 4 4;
  timestamp = field bs 8 4;
}

-- flog_file_tail_sector_header_t
pub record FileTailHeader : Type 0 where
  pub universal : UniversalTail
  pub bytes_in_block : ℕ

abbrev pub file_tail_size : ℕ
file_tail_size = 16

unfoldable pub file_tail_bytes : FileTailHeader → List ℕ
unfolding universal_tail_bytes encode
file_tail_bytes h = universal_tail_bytes h.universal ++ encode 4 h.bytes_in_block

unfoldable pub read_file_tail : List ℕ → FileTailHeader
unfolding read_universal_tail field
read_file_tail bs = record { universal = read_universal_tail bs; bytes_in_block = field bs 12 4 }

-- flog_file_init_sector_header_t
pub record FileInitHeader : Type 0 where
  pub timestamp : ℕ
  pub age : ℕ
  pub file_id : ℕ

abbrev pub file_init_size : ℕ
file_init_size = 12

unfoldable pub file_init_bytes : FileInitHeader → List ℕ
unfolding encode
file_init_bytes h = encode 4 h.timestamp ++ (encode 4 h.age ++ encode 4 h.file_id)

unfoldable pub read_file_init : List ℕ → FileInitHeader
unfolding field
read_file_init bs = record { timestamp = field bs 0 4; age = field bs 4 4; file_id = field bs 8 4 }

-- flog_file_sector_spare_t; flog_inode_init_sector_spare_t has the same layout, with the inode
-- index in place of `nbytes`.
pub record SectorSpare : Type 0 where
  pub type_id : ℕ
  pub nothing : ℕ
  pub nbytes : ℕ

abbrev pub spare_size : ℕ
spare_size = 4

unfoldable pub spare_bytes : SectorSpare → List ℕ
unfolding encode
spare_bytes h = encode 1 h.type_id ++ (encode 1 h.nothing ++ encode 2 h.nbytes)

unfoldable pub read_spare : List ℕ → SectorSpare
unfolding field
read_spare bs = record { type_id = field bs 0 1; nothing = field bs 1 1; nbytes = field bs 2 2 }

-- flog_inode_init_sector_t
pub record InodeInit : Type 0 where
  pub timestamp : ℕ
  pub previous : ℕ
  pub padding : ℕ

unfoldable pub inode_init_bytes : InodeInit → List ℕ
unfolding encode
inode_init_bytes h = encode 4 h.timestamp ++ (encode 2 h.previous ++ encode 2 h.padding)

-- flog_inode_file_allocation_header_t
pub record AllocationHeader : Type 0 where
  pub file_id : ℕ
  pub first_block : ℕ
  pub padding : ℕ
  pub first_block_age : ℕ
  pub timestamp : ℕ

abbrev pub allocation_header_size : ℕ
allocation_header_size = 16

unfoldable pub allocation_header_bytes : AllocationHeader → List ℕ
unfolding encode
allocation_header_bytes h =
    encode 4 h.file_id
    ++ (encode 2 h.first_block
        ++ (encode 2 h.padding ++ (encode 4 h.first_block_age ++ encode 4 h.timestamp)))

unfoldable pub read_allocation_header : List ℕ → AllocationHeader
unfolding field
read_allocation_header bs = record {
  file_id = field bs 0 4;
  first_block = field bs 4 2;
  padding = field bs 6 2;
  first_block_age = field bs 8 4;
  timestamp = field bs 12 4;
}

-- flog_inode_file_allocation_t, as the bytes read at its sector
pub record Allocation : Type 0 where
  pub header : AllocationHeader
  pub filename : List ℕ

abbrev pub allocation_size : ℕ
allocation_size = 48

unfoldable pub read_allocation : List ℕ → Allocation
unfolding read_allocation_header
read_allocation bs = record {
  header = read_allocation_header bs;
  filename = take max_fname_len (drop allocation_header_size bs);
}

-- flog_inode_file_invalidation_t
pub record Invalidation : Type 0 where
  pub timestamp : ℕ
  pub last_block : ℕ
  pub padding : ℕ

abbrev pub invalidation_size : ℕ
invalidation_size = 8

unfoldable pub invalidation_bytes : Invalidation → List ℕ
unfolding encode
invalidation_bytes h = encode 4 h.timestamp ++ (encode 2 h.last_block ++ encode 2 h.padding)

unfoldable pub read_invalidation : List ℕ → Invalidation
unfolding field
read_invalidation bs = record {
  timestamp = field bs 0 4;
  last_block = field bs 4 2;
  padding = field bs 6 2;
}

-- The tests of flogfs.c on what was read.
abbrev pub invalid_block : BlockStatistics → Bool
invalid_block h = not (h.key == block_statistics_key)

abbrev pub invalid_sector_spare : SectorSpare → Bool
invalid_sector_spare s = s.type_id == sector_type_id_erased && s.nbytes == sector_nbytes_erased

abbrev pub invalid_allocation_header : AllocationHeader → Bool
invalid_allocation_header h = h.file_id == file_id_erased

abbrev pub invalid_invalidation : Invalidation → Bool
invalid_invalidation h = h.timestamp == timestamp_erased

abbrev pub invalid_file_tail : FileTailHeader → Bool
invalid_file_tail h = h.universal.timestamp == timestamp_erased

abbrev pub invalid_block_index : ℕ → Bool
invalid_block_index b = b == block_idx_invalid

abbrev pub is_file_init_header_for_file : FileInitHeader → ℕ → Bool
is_file_init_header_for_file h id = not (id == file_id_erased) && h.file_id == id
