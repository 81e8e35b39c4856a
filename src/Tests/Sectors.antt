-- ===== src/Tests/Sectors.antt =====
-- The theorems on committing a sector, at an erased chip of four blocks of two pages.
use flog_fs.Base.{refl, arith, [], ◌∷◌}
use flog_fs.Bytes.{load_bytes}
use flog_fs.Structs.{SectorSpare, read_spare}
use flog_fs.Flash.{get_offset}
use flog_fs.Fs.{Fs, WriteFile}
use flog_fs.Fs.Cache.{IsCoherent}
use flog_fs.Write.{
  write_file_sector, with_init_header, flog_increment_sector, flog_commit_file_sector,
}
use flog_fs.Write.Commit.{IsReady}
use flog_fs.Write.Moved.{Moved, flog_commit_file_sector-Moved}
use flog_fs.Write.Sector.{IsErased, Stored, write_file_sector_lem}
use flog_fs.Read.{flogfs_read}
use flog_fs.Read.Contents.{following}
use flog_fs.Read.Committed.{IsFollower, CommittedRead, flogfs_read-flog_commit_file_sector}
use flog_fs.Run.{◌>>◌}
use flog_fs.Tests.Scenario.{blank_reader, power_on, blank_writer}
use flog_fs.Tests.Lists.{list, free_nodes, list-IsPrealloc}
use flog_fs.Run.Returns.{Returns}

abbrev pub erased : Fs
erased = record power_on { chip = record power_on.chip { mapped = λ _. 0xff }; prealloc = list }

-- Two bytes, 9 and 9, are buffered for sector 5 of block 1.
abbrev pub writer : WriteFile
writer = record blank_writer { block = 1; sector = 5; offset = 2; sector_buffer = λ _. 9 }

abbrev spare : SectorSpare
spare = record { type_id = 2; nothing = 0; nbytes = 4 }

erased-IsCoherent : IsCoherent erased
erased-IsCoherent = record {
  block = λ p. ground arith;
  page = λ p. ground arith;
  result = λ p. ground arith;
}

sector-IsErased : IsErased erased.chip 1 5
sector-IsErased = record { contents = λ x p q. refl; spare = λ x p q. refl }

write_file_sector_lem_example :
    Returns
      (λ _ s'. Stored writer (7 ∷ 8 ∷ []) spare erased s')
      (write_file_sector writer (7 ∷ 8 ∷ []) spare erased)
write_file_sector_lem_example =
    write_file_sector_lem 4 writer (7 ∷ 8 ∷ []) spare erased (2 ∷ free_nodes) (1 ∷ []) (0 ∷ [])
      (omega arith) (omega arith) (omega arith) (omega arith) erased-IsCoherent list-IsPrealloc
      sector-IsErased

-- The writer is file 1 and dirty.
abbrev pub erased_dirty : Fs
erased_dirty = record erased {
  write_files = λ _. writer;
  dirty_block = record erased.dirty_block { file = 1 };
}

-- Two bytes are buffered for the first sector, behind its header.
abbrev at_first : Fs
at_first = record erased_dirty {
  write_files = λ _. record writer { sector = 1; offset = 14; block_age = 3; id = 7 };
}

first-IsReady : IsReady 4 1 (7 ∷ 8 ∷ []) (2 ∷ free_nodes) (1 ∷ []) (0 ∷ []) at_first
unfolding with_init_header
first-IsReady = record {
  geometry = omega arith;
  block_in = omega arith;
  page_in = omega arith;
  fits = omega arith;
  erased = record { contents = λ x p q. refl; spare = λ x p q. refl };
  coherent = record {
    block = λ p. ground arith;
    page = λ p. ground arith;
    result = λ p. ground arith;
  };
  lists = list-IsPrealloc;
}

flog_commit_file_sector-Moved_example :
    Returns (Moved 1 (7 ∷ 8 ∷ []) at_first) (flog_commit_file_sector 2 1 (7 ∷ 8 ∷ []) at_first)
flog_commit_file_sector-Moved_example =
    flog_commit_file_sector-Moved 4 1 (7 ∷ 8 ∷ []) (2 ∷ free_nodes) (1 ∷ []) (0 ∷ []) at_first 1
      first-IsReady (omega arith) (omega arith) (omega arith) (λ _. omega arith)

-- A reader of the file has a byte left in sector 4, and sector 5 is the next.
abbrev pub followed : Fs
followed = record erased_dirty {
  read_files =
      λ _. record blank_reader { block = 1; sector = 4; offset = 500; sector_remaining_bytes = 1 };
}

followed-IsReady : IsReady 4 1 (7 ∷ 8 ∷ []) (2 ∷ free_nodes) (1 ∷ []) (0 ∷ []) followed
unfolding with_init_header
followed-IsReady = record {
  geometry = omega arith;
  block_in = omega arith;
  page_in = omega arith;
  fits = omega arith;
  erased = record { contents = λ x p q. refl; spare = λ x p q. refl };
  coherent = record {
    block = λ p. ground arith;
    page = λ p. ground arith;
    result = λ p. ground arith;
  };
  lists = list-IsPrealloc;
}

reader-IsFollower : IsFollower 4 writer 0 (followed.read_files 1) followed
unfolding following read_spare load_bytes get_offset flog_increment_sector
reader-IsFollower = record {
  reader = record {
    block_in = omega arith;
    page_in = omega arith;
    fits = omega arith;
    head_in = omega arith;
    readable = refl;
  };
  before = (refl, omega arith, refl);
  unwritten = refl;
  room = omega arith;
  few = omega arith;
}

flogfs_read-flog_commit_file_sector_example :
    Returns
      (λ result _. CommittedRead writer (7 ∷ 8 ∷ []) 0 10 (followed.read_files 1) followed result)
      ((flog_commit_file_sector 2 1 (7 ∷ 8 ∷ []) >> flogfs_read 1 10) followed)
flogfs_read-flog_commit_file_sector_example =
    flogfs_read-flog_commit_file_sector 4 1 (7 ∷ 8 ∷ []) (2 ∷ free_nodes) (1 ∷ []) (0 ∷ []) followed
      1 1 0 10 followed-IsReady (omega arith) (omega arith) (omega arith) reader-IsFollower
      (omega arith)
