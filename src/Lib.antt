-- ===== src/Lib.antt =====
-- FLogFS, a log-structured file system for raw flash memory: one static state over a flash driver.
-- This library models src/flogfs.c with its headers src/flogfs.h and src/flogfs_private.h over the
-- driver backends/linux-mmap/flogfs_linux_mmap.cpp, in the configuration of
-- test/testall/flogfs_conf.h: sectors of 512 bytes, four to a page, eight preallocation nodes, and
-- erased bytes 0xff. The driver for SD cards, backends/arduino-sd, is modelled beside it. Functions
-- and types keep their names, without `flogfs_t` and the like for records.
--
-- The parts, from the bottom up:
--   Base, Run, Bytes: shared names, runs of stateful code (`ok`, `panic` for a failed assertion or a
--     NULL dereference, `out_of_fuel`), and byte memory.
--   Structs: constants and structs of the two headers, with the bytes that each struct has on flash.
--   Flash: the driver. One linear memory holds the blocks; a page takes five sectors, four of data
--     and one for the spare areas. Flash.Address, Frame, Access and Erase are about its layout.
--   Prealloc: the eight nodes of flog_prealloc_list_t in a free, an available and a pending list.
--     Prealloc.Chain says which nodes a pointer leads through; Append, Queue, Without, Removal and
--     Pending are about the operations.
--   Fs: flogfs_t with the files that applications hand over, the page cache (flog_open_page) and the
--     block statistics.
--   Alloc: flog_prealloc_prime and flog_allocate_block, which take blocks from Prealloc through Fs.
--   Write: flog_commit_file_sector, flog_flush_write, flog_flush_dirty_block and flogfs_write. A
--     commit at the end of a block flushes the dirty file and allocates the next block. Write.Order is
--     about the order of sectors, Write.Sector, Commit and Moved about a commit inside a block.
--   Inode: the iterator over the inode table, flog_inode_prepare_new and flog_find_file.
--   Read: flogfs_read. Read.Chain says which bytes a file holds behind a sector, by the layout of
--     sectors and blocks, where no block of it starts with an empty sector: after such a sector the
--     code goes on in the next one with 0 bytes, so that it does not read the data there. Read.Contents
--     says which sectors the code comes to, those included, and Read.Chain that they are the same
--     otherwise. Read.Quiet, Steps, Stream, Loop and Returned follow the code along them. Read.Following, Extended
--     and Committed are about a commit of Write behind it, Read.Vacant, Streaming, Written and
--     Write.Grown about a file that is written and read at once, inside a block.
--   FileWalk, Open, Remove, Mount, DiskWalk: the other functions that applications call, on top.
--   Api: those functions as calls in any order, and the states that they lead to.
--   Sd, SdFlash: backends/arduino-sd/sd_raw.cpp, the commands to a card over SPI, and
--     flogfs_arduino_sd.cpp, the driver on top, in the build without SD_RAW_WRITE_BLOCK_ERASE,
--     SD_RAW_CRC_SUPPORT and SD_PROTECT_BLOCK_ZERO. The Arduino library (SPI, pins, clock, random) is
--     a parameter, the record `Board` over a state of its own. Sd.Clock and Sd.Timed are about the
--     loops that poll the card, Sd.Completes about the commands made of them, Sd.Closed and Sd.Left
--     about the block that is being read.
--   Mmap: the rest of flogfs_linux_mmap.cpp around the mapped memory, opening and closing the file, and
--     the log of backends/linux-mmap/debug_log.h, which Flash leaves out (Mmap.Logged). The calls of
--     the operating system are a parameter, the record `Os`.
-- What the calls of an application keep is proved once for all properties: Alloc.Stable says when a
-- property of the state is kept by the parts (`IsStable`), each `Keeps` module that a component then
-- keeps it, and Api.Invariant that every call does. Each `Coherent` module is the instance for the
-- page cache, behind whose back parts of the code call the driver's flash_open_page, and each `Pool`
-- module the one for the preallocation list. `Held` and `Listed` modules say which blocks the list
-- holds, `Ends` modules that fuel is enough.
--
-- Words: numbers are natural numbers, and sums and differences of uint16_t and uint32_t wrap as
-- written out (`add16`, `sub16`, `add32`). Padding bytes and locals that the code does not initialise
-- come from a parameter of the state, `stack`; the values of random() from `random` of the chip.
-- A pointer to a file is a number, with 0 for NULL; a pointer to a node is an option.
--
-- Loops run on fuel. A walk along a preallocation list gets nine rounds, one more than its nodes. A
-- walk along the blocks of a file gets a round more than there are blocks, one over the inode table as
-- many as there are sectors; a chain of blocks on the flash that is a cycle makes the code loop for
-- ever, and the model run out of fuel. `flogfs_write` commits a byte in each round at least, so that
-- the length of the data is enough. A round of `flogfs_read` reads a byte or comes to another sector:
-- it gets as many as bytes are asked for and sectors there are. A walk along the open files gets
-- `open_bound`, a parameter of the state. A commit may flush another file, which is a commit again:
-- `commit_depth` is two levels. A loop that polls an SD card gets `polls` rounds, a parameter of the
-- state: it stops by the clock.
--
-- Not modelled: the locks (empty in this backend), printed text, a failing malloc in the log of the
-- backend, names of 32 bytes or more in flogfs_open_write (the code overruns a buffer),
-- flogfs_arduino_sd_close, which only fails, a card of the first version with a capacity so small that
-- the code shifts by a negative number, the examples and the tests. Devices of no block or of
-- more than 65,535 are outside the model too: the code counts blocks in 16 bits, which wrap, and
-- flog_allocate_block returns a block that it has not initialised where its loop does not run.
pub mod Base
pub mod Run
pub mod Bytes
pub mod Structs
pub mod Flash
pub mod Mmap
pub mod Sd
pub mod SdFlash
pub mod Prealloc
pub mod Fs
pub mod Alloc
pub mod Write
pub mod Inode
pub mod FileWalk
pub mod Read
pub mod Open
pub mod Remove
pub mod Mount
pub mod DiskWalk
pub mod Api
mod Tests
