-- ===== src/Tests/Files.antt =====
-- The theorems on open files and on the page cache, at small states.
use flog_fs.Base.{
  some, ℕ, ◌<◌, ◌≤◌, ◌≡◌, ◌↔◌, refl, inr, arith, true, List, [], ◌∷◌, ◌==◌, if◌then◌else◌,
}
use flog_fs.Structs.{SectorSpare, failure, success, tail_sector}
use flog_fs.Flash.{
  flash_erase_block, flash_block_is_bad, flash_read_sector, flash_write_sector, flash_commit,
  flash_write_spare,
}
use flog_fs.Fs.{flog_close_sector, Fs, WriteFile, flog_open_page}
use flog_fs.Fs.Cache.{IsCoherent}
use flog_fs.Fs.Returns.{Opened, flog_open_page_lem}
use flog_fs.Tests.Lists.{list, free_nodes, list-IsPrealloc}
use flog_fs.Write.{flogfs_write, flog_commit_file_sector, commit_depth}
use flog_fs.Write.Order.{
  IsBlock, nth_sector, nth_sector-onto, nth_sector-injective, nth_sector-inside,
}
use flog_fs.Write.Buffer.{IsWriter, Buffered, flogfs_write-Buffered}
use flog_fs.Write.Flushable.{flogfs_write-IsFlushable}
use flog_fs.FileWalk.{FileWalkState, FileSeek}
use flog_fs.Read.Seek.{Misplaced, file_seek_walk-Misplaced}
use flog_fs.Write.Depth.{IsFlushable, flog_commit_file_sector-depth}
use flog_fs.Open.Close.{write_and_close, write_and_close-lost}
use flog_fs.Api.{initialize, format, perform, Reachable, initialized, called}
use flog_fs.Api.Coherent.{Reachable-IsCoherent}
use flog_fs.Tests.Scenario.{params, power_on, blank_writer}
use flog_fs.Run.{Run, ok, panic, out_of_fuel}
use flog_fs.Run.Returns.{Returns}

abbrev block_of_two_pages : IsBlock params
block_of_two_pages = record { two_pages = omega arith; small = omega arith }

nth_sector-onto_example : (k : ℕ) × (k ≤ 6) × (nth_sector params k ≡ 4)
nth_sector-onto_example = nth_sector-onto params block_of_two_pages 4 (omega arith) (omega arith)

seventh : nth_sector params 6 ≡ nth_sector params 6
seventh = refl

nth_sector-injective_example : ◌≡◌ {A = ℕ} 6 6
nth_sector-injective_example =
    nth_sector-injective params block_of_two_pages 6 6 (omega arith) (omega arith) seventh

nth_sector-inside_example :
    (0 < nth_sector params 6)
    × (nth_sector params 6 < 8)
    × ((nth_sector params 6 ≡ tail_sector) ↔ (◌≡◌ {A = ℕ} 6 6))
nth_sector-inside_example = nth_sector-inside params block_of_two_pages 6 (omega arith)

-- The file at the tail sector of its block, with 4 bytes of data behind the header.
abbrev writer : WriteFile
writer = record blank_writer { sector = 3; offset = 20; sector_remaining_bytes = 492 }

abbrev writing : Fs
writing = record power_on { write_files = λ _. writer; write_head = 1 }

abbrev writer-IsWriter : IsWriter writer
writer-IsWriter = record { full = omega arith; room = omega arith }

abbrev three : List ℕ
three = 1 ∷ 2 ∷ 3 ∷ []

flogfs_write-Buffered_example :
    Returns (λ n s'. (n ≡ 3) × Buffered 1 three writing s') (flogfs_write 1 three writing)
flogfs_write-Buffered_example = flogfs_write-Buffered 1 three writing writer-IsWriter (omega arith)

write_and_close-lost_example :
    Returns (λ n s'. (n ≡ 3) × (s'.chip ≡ writing.chip)) (write_and_close 1 three writing)
write_and_close-lost_example =
    write_and_close-lost 1 three writing refl writer-IsWriter (omega arith) refl

-- Another file is dirty, at the first sector of its block.
abbrev dirty : Fs
dirty = record writing {
  dirty_block = record { block = 2; file = 2 };
  write_files =
      λ p. if p == 2 then record blank_writer { block = 2; sector = 1; offset = 12 } else writer;
}

flog_commit_file_sector-depth_example :
    flog_commit_file_sector commit_depth 1 three dirty ≡ flog_commit_file_sector 5 1 three dirty
flog_commit_file_sector-depth_example =
    flog_commit_file_sector-depth 3 1 three dirty (inr (refl, refl))

-- what a call leaves
unfoldable pub final : {A : Type 0} → Run Fs A → Fs
final (ok _ s) = s
final panic = power_on
final out_of_fuel = power_on

abbrev after_write : Fs
unfolding final flogfs_write
after_write = final (flogfs_write 1 three dirty)

after_write_lem : flogfs_write 1 three dirty ≡ ok 3 after_write
unfolding final flogfs_write
after_write_lem = refl

flogfs_write-IsFlushable_example : IsFlushable after_write
flogfs_write-IsFlushable_example =
    flogfs_write-IsFlushable 1 three 3 dirty after_write refl (inr (refl, refl)) after_write_lem

-- At the first sector of a block with 100 bytes of data, on the way to position 10.
abbrev spare : SectorSpare
spare = record { type_id = 2; nothing = 0; nbytes = 100 }

abbrev walk_state : FileWalkState
walk_state = record {
  block = 1;
  sector = 1;
  last_block = true;
  tail_header = record {
    universal = record { next_block = 0; padding = 0; next_age = 0; timestamp = 0 };
    bytes_in_block = 0;
  };
  sector_spare = some spare;
}

abbrev seek : FileSeek
seek = record {
  status = failure;
  position = 0;
  desired = 10;
  block = 1;
  sector = 1;
  offset = 0;
  bytes_remaining = 0;
}

file_seek_walk-Misplaced_example : Misplaced walk_state spare seek
file_seek_walk-Misplaced_example =
    file_seek_walk-Misplaced walk_state spare seek refl (omega arith) (omega arith) (omega arith)
      (omega arith) (omega arith)

-- the cache with page 1 of block 2 open
abbrev cached : Fs
cached = record power_on {
  chip = record power_on.chip { open_block = 2; open_page = 1 };
  prealloc = list;
  cache_status = record {
    current_open_block = 2;
    current_open_page = 1;
    page_open = true;
    page_open_result = success;
  };
}

cached-IsCoherent : IsCoherent cached
cached-IsCoherent = record { block = λ _. refl; page = λ _. refl; result = λ _. refl }

flog_open_page_lem_example :
    Returns (λ result s'. Opened 30 1 (1 ∷ []) cached result s') (flog_open_page 30 1 cached)
flog_open_page_lem_example =
    flog_open_page_lem 30 1 cached (2 ∷ free_nodes) (1 ∷ []) (0 ∷ []) list-IsPrealloc
      cached-IsCoherent

abbrev started : Fs
unfolding final perform
started = final (perform (initialize params) power_on)

abbrev pub formatted : Fs
unfolding final perform
formatted = final (perform format started)

started_lem : perform (initialize params) power_on ≡ ok tt started
unfolding final perform
started_lem = refl

formatted_lem : perform format started ≡ ok tt formatted
unfolding final perform flash_erase_block flash_block_is_bad flash_read_sector flog_close_sector
    flash_write_sector flash_commit flash_write_spare
formatted_lem = refl

pub formatted-Reachable : Reachable formatted
formatted-Reachable =
    called format started formatted (initialized params power_on started started_lem) formatted_lem

Reachable-IsCoherent_example : IsCoherent formatted
Reachable-IsCoherent_example = Reachable-IsCoherent formatted formatted-Reachable
