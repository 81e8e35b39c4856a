-- ===== src/Tests/Reading.antt =====
-- The theorems on reading, at files with a few sectors of data in an otherwise erased chip.
use flog_fs.Base.{length, ◌||◌, ℕ, ◌≡◌, refl, arith, [], ◌∷◌, ◌++◌, ◌==◌, if◌then◌else◌, take}
use flog_fs.Bytes.{load_bytes}
use flog_fs.Structs.{read_spare, read_file_tail, read_file_init}
use flog_fs.Write.{flog_increment_sector}
use flog_fs.Read.Skipped.{IsAtEmpty, flogfs_read-Skipped}
use flog_fs.Flash.{get_offset}
use flog_fs.Fs.{Fs, ReadFile}
use flog_fs.Fs.Cache.{IsCoherent}
use flog_fs.Read.{flogfs_read}
use flog_fs.Read.Contents.{following, spare_of}
use flog_fs.Write.Order.{to_three, in_order}
use flog_fs.Read.Chain.{IsBefore, left_and, blank_next, same_block, new_block, Holds}
use flog_fs.Read.Stream.{IsReader}
use flog_fs.Read.Returned.{IsRead, flogfs_read_lem, flogfs_read-twice}
use flog_fs.Tests.Scenario.{power_on, blank_reader}
use flog_fs.Tests.Lists.{list, free_nodes, list-IsPrealloc}
use flog_fs.Open.{start_reading}
use flog_fs.Open.Start.{IsWhole, whole_file, flogfs_read-start_reading}
use flog_fs.Run.{◌>>◌, pure, ◌>>=◌}
use flog_fs.Run.Returns.{Returns}

-- The reader has a byte left in sector 4 of block 1, and sector 5 has two bytes of data.
abbrev reader : ReadFile
reader = record blank_reader { block = 1; sector = 4; offset = 500; sector_remaining_bytes = 1 }

abbrev reading : Fs
reading = record power_on {
  chip = record power_on.chip {
    mapped = λ x. if x == 9748 then 2 else if x == 9750 then 2 else if x == 9751 then 0 else 0xff;
  };
  prealloc = list;
  read_files = λ _. reader;
}

reading-IsCoherent : IsCoherent reading
reading-IsCoherent = record {
  block = λ p. ground arith;
  page = λ p. ground arith;
  result = λ p. ground arith;
}

reader-IsReader : IsReader reading.chip reading.params 4 1 reader
unfolding following read_spare load_bytes get_offset
reader-IsReader = record {
  block_in = omega arith;
  page_in = omega arith;
  fits = omega arith;
  head_in = omega arith;
  readable = (record { block_in = omega arith; page_in = omega arith; fits = omega arith }, refl);
}

-- The reader is in sector 7, the last but one. The last sector has a byte, 41, behind its header, and
-- names block 2, whose first sector has a byte, 42, behind its header.
abbrev two_blocks : ℕ → ℕ
two_blocks x =
    if x == 6656 || (x == 7220 || x == 12308)
    then 2
    else if x == 7222 || x == 12310
    then 1
    else if x == 6672
    then 41
    else if x == 10764
    then 42
    else if x == 6657
        || (x == 7223 || (x == 10760 || (x == 10761 || (x == 10762 || (x == 10763 || x == 12311)))))
    then 0
    else 0xff

abbrev crossing : Fs
crossing = record reading {
  chip = record reading.chip { mapped = two_blocks };
  read_files = λ _. record reader { sector = 7 };
}

in_first_sector : Holds crossing.chip crossing.params 0 4 1 1 3 (42 ∷ [])
unfolding read_spare load_bytes get_offset read_file_tail read_file_init
in_first_sector = (
  2,
  1,
  [],
  new_block refl refl refl refl (omega arith),
  record { block_in = omega arith; page_in = omega arith; fits = omega arith },
  refl,
  (
    blank_next 2 (omega arith) (in_order (omega arith) (omega arith) (omega arith) refl)
        (refl, refl),
    refl,
  ),
)

crossing-IsBefore :
    IsBefore crossing.chip crossing.params 4 2 (crossing.read_files 1) (41 ∷ 42 ∷ [])
unfolding read_spare load_bytes get_offset read_file_tail read_file_init
crossing-IsBefore = record {
  block_in = omega arith;
  page_in = omega arith;
  fits = omega arith;
  head_in = omega arith;
  holds = (
    1,
    3,
    42 ∷ [],
    same_block (omega arith) (to_three (omega arith) (omega arith) refl)
        (λ blank. omega (arith, blank.0)) refl,
    record { block_in = omega arith; page_in = omega arith; fits = omega arith },
    refl,
    in_first_sector,
  );
}

flogfs_read_lem_example :
    Returns
      (IsRead 1 10 (left_and crossing.chip (crossing.read_files 1) (41 ∷ 42 ∷ [])) crossing)
      (flogfs_read 1 10 crossing)
flogfs_read_lem_example =
    flogfs_read_lem 1 10 2 4 (41 ∷ 42 ∷ []) (2 ∷ free_nodes) (1 ∷ []) (0 ∷ []) crossing
      (omega arith)
      (record { block = λ p. ground arith; page = λ p. ground arith; result = λ p. ground arith })
      list-IsPrealloc crossing-IsBefore (omega arith) (omega arith)

flogfs_read-twice_example :
    Returns
      (λ one u.
        Returns
          (λ bytes t. (bytes ≡ one.1) × ((t.read_files 1).read_head ≡ (u.read_files 1).read_head))
          ((do first ← flogfs_read 1 2; second ← flogfs_read 1 3; pure (first.1 ++ second.1))
            reading))
      (flogfs_read 1 5 reading)
flogfs_read-twice_example =
    flogfs_read-twice 1 2 3 1 4 (2 ∷ free_nodes) (1 ∷ []) (0 ∷ []) reading (omega arith)
      reading-IsCoherent list-IsPrealloc reader-IsReader (omega arith) (omega arith)

-- Block 2 follows block 1. Its first sector is empty, and its second one has two bytes of data.
abbrev with_empty_sector : ℕ → ℕ
with_empty_sector x =
    if x == 6656 || (x == 12308 || (x == 12324 || x == 12326))
    then 2
    else if x == 6657
        || (x == 10760
            || (x == 10761
                || (x == 10762 || (x == 10763 || (x == 12310 || (x == 12311 || x == 12327))))))
    then 0
    else 0xff

abbrev before_empty : Fs
before_empty = record reading {
  chip = record reading.chip { mapped = with_empty_sector };
  read_files = λ _. record reader { sector = 3; offset = 16; sector_remaining_bytes = 0 };
}

spare_of_second :
    spare_of before_empty.chip 2 2 ≡ record { type_id = 2; nothing = 0xff; nbytes = 2 }
unfolding read_spare load_bytes get_offset
spare_of_second = refl

reader-IsAtEmpty : IsAtEmpty 4 2 2 (before_empty.read_files 1) before_empty
unfolding following read_spare load_bytes get_offset read_file_tail read_file_init
    flog_increment_sector
reader-IsAtEmpty = record {
  at_tail = refl;
  nothing_left = refl;
  start = omega arith;
  head_in = omega arith;
  block_in = omega arith;
  next_block = refl;
  next_in = omega arith;
  same_file = refl;
  first_empty = refl;
  second_is = refl;
  header = omega arith;
  second_in = omega arith;
  end = refl;
}

flogfs_read-Skipped_example :
    Returns (λ result _. (result.0 ≡ 0) × (result.1 ≡ [])) (flogfs_read 1 10 before_empty)
flogfs_read-Skipped_example =
    flogfs_read-Skipped 1 10 4 2 2 (2 ∷ free_nodes) (1 ∷ []) (0 ∷ []) before_empty (omega arith)
      (record { block = λ p. ground arith; page = λ p. ground arith; result = λ p. ground arith })
      list-IsPrealloc reader-IsAtEmpty (omega arith) (omega arith)

-- The first sector of block 1 has two bytes of data, and the rest of the block is erased.
abbrev opening : Fs
opening = record reading {
  chip = record reading.chip {
    mapped = λ x. if x == 7188 || x == 7190 then 2 else if x == 7191 then 0 else 0xff;
  };
  read_files = λ _. record blank_reader { block = 1 };
}

opening-IsWhole : IsWhole 4 0 (opening.read_files 1) [] opening
unfolding read_spare load_bytes get_offset
opening-IsWhole = record {
  block_in = omega arith;
  page_in = omega arith;
  some_data = omega arith;
  fits = omega arith;
  head_in = omega arith;
  holds = (
    blank_next 2 (omega arith) (in_order (omega arith) (omega arith) (omega arith) refl)
        (refl, refl),
    refl,
  );
}

flogfs_read-start_reading_example :
    Returns
      (λ result _.
        (result.1 ≡ take 10 (whole_file opening.chip (opening.read_files 1) []))
        × (result.0 ≡ length result.1))
      ((start_reading 1 >> flogfs_read 1 10) opening)
flogfs_read-start_reading_example =
    flogfs_read-start_reading 1 10 0 4 [] (2 ∷ free_nodes) (1 ∷ []) (0 ∷ []) opening (omega arith)
      (record { block = λ p. ground arith; page = λ p. ground arith; result = λ p. ground arith })
      list-IsPrealloc opening-IsWhole (omega arith) (omega arith)
