-- ===== src/Read/Written.antt =====
-- `flogfs_write` followed by `flogfs_read` of src/flogfs.c, by a reader of the same file.
use flog_fs.Base.{ℕ, ◌+◌, ◌*◌, ◌^◌, ◌<◌, ◌≡◌, List, ◌++◌, take, length, arith}
use flog_fs.Bytes.RoundTrip.{length-load_bytes}
use flog_fs.Flash.{fs_sector_size}
use flog_fs.Fs.{Fs}
use flog_fs.Write.{flogfs_write}
use flog_fs.Write.Buffer.{buffered}
use flog_fs.Write.Grown.{flogfs_write-Grown}
use flog_fs.Read.{flogfs_read}
use flog_fs.Read.Stream.{unread}
use flog_fs.Read.Loop.{flogfs_read-unread}
use flog_fs.Read.Streaming.{IsStreaming, flowing}
use flog_fs.Run.{◌>>◌}
use flog_fs.Run.Returns
use flog_fs.Run.Returns.{Returns, returns}

-- What a read of `n` bytes returns of a stream whose end may still be buffered.
pub record ReadOf (stream : List ℕ) (n : ℕ) (result : ℕ × List ℕ) : Type 0 where
  pub visible : List ℕ
  pub pending : List ℕ
  pub whole : visible ++ pending ≡ stream
  pub less : length pending < fs_sector_size
  pub bytes_read : result.1 ≡ take n visible
  pub count : result.0 ≡ length result.1

-- Let the addresses of the chip fit 32 bits, the page cache be coherent and the preallocation list
-- be well formed; let the sector of a writer that has room in it and the `m` behind it, none of them
-- the first or the tail sector of the block, be erased, let them come next for a reader that is
-- inside a sector of the chip, behind which `k` sectors of the file follow at most, and let `k + m`
-- be less than the sectors of the device. A write of data for which these sectors have room,
-- followed by a read of `n` bytes, returns the first `n` bytes, or all if these are fewer, of what
-- the reader had still to read, what had been buffered and what is written, in this order, but for
-- less than a sector at the end.
pub flogfs_read-flogfs_write :
    (blocks file reader k m n : ℕ) (src : List ℕ) (s : Fs)
    → IsStreaming blocks file reader k m s
    → length src < (s.write_files file).sector_remaining_bytes + m * fs_sector_size
    → length src < 2 ^ 32
    → n < 2 ^ 32
    → Returns
        (λ result _. ReadOf (flowing file reader k s ++ src) n result)
        ((flogfs_write file src >> flogfs_read reader n) s)
flogfs_read-flogfs_write blocks file reader k m n src s h room small small' =
    Returns.bind (flogfs_write-Grown blocks file reader k m src s h room small) λ _ t w.
      let f = t.write_files file in
      let (free, avs, pending, lists) = w.streaming.lists in
      let some_room = w.streaming.writer.room in
      let full = w.streaming.writer.full in
      let few = w.streaming.stream.few in
      Returns.mono
        (flogfs_read-unread reader n w.left blocks free avs pending t w.streaming.stream.geometry
          w.streaming.coherent lists w.streaming.stream.reader (omega (arith, few)) small')
        (λ result u v. record {
          visible = unread t.chip t.params w.left (t.read_files reader);
          pending = buffered f;
          whole = w.grown;
          less = omega (arith, length-load_bytes f.sector_buffer 0 f.offset, some_room, full);
          bytes_read = v.bytes;
          count = v.count;
        })
