-- ===== src/Tests/Streams.antt =====
-- The theorems on writing to a file and reading from it, at the chip of the tests of a commit.
use flog_fs.Base.{◌++◌, refl, arith, [], ◌∷◌}
use flog_fs.Bytes.{load_bytes}
use flog_fs.Structs.{read_spare}
use flog_fs.Flash.{get_offset}
use flog_fs.Fs.{Fs}
use flog_fs.Write.{flog_increment_sector, flogfs_write}
use flog_fs.Read.{flogfs_read}
use flog_fs.Read.Contents.{following}
use flog_fs.Read.Vacant.{IsVacant}
use flog_fs.Read.Streaming.{IsStreaming, flowing}
use flog_fs.Read.Written.{ReadOf, flogfs_read-flogfs_write}
use flog_fs.Write.Grown.{Grown, flogfs_write-Grown}
use flog_fs.Run.{◌>>◌}
use flog_fs.Tests.Lists.{free_nodes, list-IsPrealloc}
use flog_fs.Run.Returns.{Returns}
use flog_fs.Tests.Sectors.{writer, followed}

-- The writer has room for two bytes more in its sector.
abbrev streamed : Fs
streamed = record followed {
  write_files = λ _. record writer { offset = 510; sector_remaining_bytes = 2 };
}

sector-IsVacant : IsVacant streamed.chip streamed.params 0 1 5
unfolding following read_spare load_bytes get_offset flog_increment_sector
sector-IsVacant = record {
  no_tail = omega arith;
  no_init = omega arith;
  positive = omega arith;
  word = omega arith;
  page_in = omega arith;
  erased = record { contents = λ x p q. refl; spare = λ x p q. refl };
  unwritten = refl;
  room = omega arith;
}

next-IsVacant : IsVacant streamed.chip streamed.params 0 1 6
unfolding following read_spare load_bytes get_offset flog_increment_sector
next-IsVacant = record {
  no_tail = omega arith;
  no_init = omega arith;
  positive = omega arith;
  word = omega arith;
  page_in = omega arith;
  erased = record { contents = λ x p q. refl; spare = λ x p q. refl };
  unwritten = refl;
  room = omega arith;
}

streamed-IsStreaming : IsStreaming 4 1 1 0 1 streamed
unfolding following read_spare load_bytes get_offset flog_increment_sector
streamed-IsStreaming = record {
  stream = record {
    geometry = omega arith;
    block_in = omega arith;
    vacant = sector-IsVacant;
    later = (next-IsVacant, omega arith, tt);
    reader = record {
      block_in = omega arith;
      page_in = omega arith;
      fits = omega arith;
      head_in = omega arith;
      readable = refl;
    };
    before = (refl, omega arith, refl);
    few = omega arith;
  };
  writer = record { full = omega arith; room = omega arith };
  coherent = record {
    block = λ p. ground arith;
    page = λ p. ground arith;
    result = λ p. ground arith;
  };
  lists = (2 ∷ free_nodes, 1 ∷ [], 0 ∷ [], list-IsPrealloc);
  byte = omega arith;
}

flogfs_write-Grown_example :
    Returns (Grown 4 1 1 0 1 0 (6 ∷ 7 ∷ 8 ∷ []) streamed) (flogfs_write 1 (6 ∷ 7 ∷ 8 ∷ []) streamed)
flogfs_write-Grown_example =
    flogfs_write-Grown 4 1 1 0 1 (6 ∷ 7 ∷ 8 ∷ []) streamed streamed-IsStreaming (omega arith)
      (omega arith)

flogfs_read-flogfs_write_example :
    Returns
      (λ result _. ReadOf (flowing 1 1 0 streamed ++ (6 ∷ 7 ∷ 8 ∷ [])) 600 result)
      ((flogfs_write 1 (6 ∷ 7 ∷ 8 ∷ []) >> flogfs_read 1 600) streamed)
flogfs_read-flogfs_write_example =
    flogfs_read-flogfs_write 4 1 1 0 1 600 (6 ∷ 7 ∷ 8 ∷ []) streamed streamed-IsStreaming
      (omega arith) (omega arith) (omega arith)
