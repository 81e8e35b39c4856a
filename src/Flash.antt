-- ===== src/Flash.antt =====
-- The flash driver over a mapped file, backends/linux-mmap/flogfs_linux_mmap.cpp: one linear memory
-- in which a page takes five sectors, four of data and one that holds the spare areas.
-- `random()` of the C library is a parameter of the state, the values that it will return.
pub mod Address
pub mod Frame
pub mod Access
pub mod Erase
pub mod Wrote
use flog_fs.Base.{ℕ, ◌+◌, ◌*◌, ◌%◌, ◌^◌, Bool, List, length, if◌then◌else◌}
use flog_fs.Bytes.{Mem, load_bytes, store_bytes, fill, all_equal}
use flog_fs.Structs.{FlogResult, success, failure, erase_char, spare_size}
use flog_fs.Run.{Cmd, pure, panic}

abbrev pub fs_sector_size : ℕ
fs_sector_size = 512

abbrev pub fs_sectors_per_page : ℕ
fs_sectors_per_page = 4

-- FS_SECTORS_PER_PAGE_INTERNAL
abbrev pub internal_sectors_per_page : ℕ
internal_sectors_per_page = 5

pub record Chip : Type 0 where
  pub mapped : Mem
  pub open_block : ℕ
  pub open_page : ℕ
  pub pages_per_block : ℕ
  pub random : ℕ → ℕ
  pub draws : ℕ

abbrev pub sectors_per_block : ℕ → ℕ
sectors_per_block pages = internal_sectors_per_page * pages

-- uint32_t arithmetic
unfoldable pub get_offset : (pages block page sector offset : ℕ) → ℕ
get_offset pages block page sector offset =
    (block * sectors_per_block pages * fs_sector_size
      + page * internal_sectors_per_page * fs_sector_size
      + sector * fs_sector_size
      + offset)
    % 2 ^ 32

-- mapped_sector_ptr, as an address of the mapped memory
unfoldable pub mapped_sector_ptr : Chip → (sector offset : ℕ) → ℕ
unfolding get_offset
mapped_sector_ptr c sector offset =
    get_offset c.pages_per_block c.open_block c.open_page sector offset

-- where the spare area of a sector lies in its page
abbrev pub spare_offset : ℕ → ℕ
spare_offset sector = 0x804 + (sector % fs_sectors_per_page) * 0x10

unfoldable pub flash_open_page : ℕ → ℕ → Cmd Chip FlogResult
flash_open_page block page c = pure success (record c { open_block = block; open_page = page })

unfoldable pub flash_erase_block : ℕ → Cmd Chip FlogResult
unfolding get_offset fill
flash_erase_block block c =
    let start = get_offset c.pages_per_block block 0 0 0 in
    pure success (record c {
      mapped =
          fill c.mapped start erase_char (sectors_per_block c.pages_per_block * fs_sector_size);
    })

-- FLOG_RESULT(0)
unfoldable pub flash_block_is_bad : Cmd Chip FlogResult
flash_block_is_bad c = pure failure c

unfoldable pub flash_commit : Cmd Chip (Unit {0})
flash_commit c = pure tt c

-- the assertion in the loop holds if every byte of the target is erased
unfoldable pub verified_memcpy : ℕ → List ℕ → Cmd Chip (Unit {0})
unfolding all_equal store_bytes
verified_memcpy dst src c =
    if all_equal erase_char c.mapped dst (length src)
    then pure tt (record c { mapped = store_bytes c.mapped dst src })
    else panic

unfoldable pub flash_read_sector : (sector offset n : ℕ) → Cmd Chip (List ℕ)
unfolding mapped_sector_ptr load_bytes
flash_read_sector sector offset n c =
    pure (load_bytes c.mapped (mapped_sector_ptr c (sector % fs_sectors_per_page) offset) n) c

unfoldable pub flash_read_spare : ℕ → Cmd Chip (List ℕ)
unfolding mapped_sector_ptr load_bytes
flash_read_spare sector c =
    pure (load_bytes c.mapped (mapped_sector_ptr c 0 (spare_offset sector)) spare_size) c

unfoldable pub flash_write_sector : List ℕ → (sector offset : ℕ) → Cmd Chip (Unit {0})
unfolding mapped_sector_ptr verified_memcpy
flash_write_sector src sector offset c =
    verified_memcpy (mapped_sector_ptr c (sector % fs_sectors_per_page) offset) src c

unfoldable pub flash_write_spare : List ℕ → ℕ → Cmd Chip (Unit {0})
unfolding mapped_sector_ptr verified_memcpy
flash_write_spare src sector c = verified_memcpy (mapped_sector_ptr c 0 (spare_offset sector)) src c

unfoldable pub flash_random : ℕ → Cmd Chip ℕ
flash_random max c = pure (c.random c.draws % max) (record c { draws = c.draws + 1 })
