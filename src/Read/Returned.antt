-- ===== src/Read/Returned.antt =====
-- What a call of `flogfs_read` of src/flogfs.c returns, and what two calls return.
use flog_fs.Base.{
  ℕ, ◌+◌, ◌^◌, ◌<◌, ◌≤◌, ◌≡◌, ◌∙◌, sym, ap, List, ◌++◌, add32, length, take, take-drop, arith,
  length-append,
}
use mathlib.Core.Path.{ap₂}
use flog_fs.Flash.{Chip}
use flog_fs.Flash.Address.{IsGeometry}
use flog_fs.Fs.{Fs, Params}
use flog_fs.Fs.Cache.{IsCoherent}
use flog_fs.Prealloc.Queue.{IsPrealloc}
use flog_fs.Inode.{table_bound}
use flog_fs.Read.{flogfs_read}
use flog_fs.Read.Quiet.{IsQuiet}
use flog_fs.Read.Stream.{IsReader, unread}
use flog_fs.Read.Chain.{IsBefore, left_and, IsBefore-IsReader, IsBefore-unread}
use flog_fs.Read.Loop.{flogfs_read-Streamed, flogfs_read-unread, IsCoherent-IsQuiet}
use flog_fs.Run.{pure, ◌>>=◌}
use flog_fs.Run.Returns
use flog_fs.Run.Returns.{Returns, returns}

module _ (c : Chip) (params : Params) (blocks : ℕ) (geometry : IsGeometry c.pages_per_block blocks)
    (file : ℕ) where
  -- Reading twice.
  flogfs_read-Streamed-twice :
      (k m n : ℕ) (s : Fs)
      → IsQuiet c params s
      → IsReader c params blocks k (s.read_files file)
      → k ≤ table_bound params
      → m < 2 ^ 32
      → n < 2 ^ 32
      → Returns
          (λ bytes t.
            (bytes ≡ take (m + n) (unread c params k (s.read_files file)))
            × ((t.read_files file).read_head
                ≡ add32
                    (s.read_files file).read_head
                    (length (take (m + n) (unread c params k (s.read_files file))))))
          ((do first ← flogfs_read file m; second ← flogfs_read file n; pure (first.1 ++ second.1))
            s)
  flogfs_read-Streamed-twice k m n s q reader few small small' =
      let all = unread c params k (s.read_files file) in
      Returns.bind (flogfs_read-Streamed c params blocks geometry file k m s q reader few small)
        λ first t w.
          Returns.bind
            (flogfs_read-Streamed c params blocks geometry file w.left n t w.quiet w.reader
              (omega (arith, few, w.fewer)) small')
            λ second u w'.
              let got = w'.bytes ∙ ap (take n) w.rest in
              let both = ap₂ ◌++◌ w.bytes got ∙ take-drop m n all in
              let lengths = sym (length-append first.1 second.1) ∙ ap length both in
              returns (
                both,
                omega (arith, w.head, w'.head, ap length w.bytes, ap length w'.bytes, lengths),
              )

-- How a read of `n` bytes ends, from a file that has the bytes `all` before it.
pub record IsRead (file n : ℕ) (all : List ℕ) (from : Fs) (result : ℕ × List ℕ) (t : Fs)
    : Type 0 where
  pub bytes : result.1 ≡ take n all
  pub count : result.0 ≡ length result.1
  pub head :
      (t.read_files file).read_head ≡ add32 (from.read_files file).read_head (length (take n all))
  pub same_id : (t.read_files file).id ≡ (from.read_files file).id
  pub memory : t.chip.mapped ≡ from.chip.mapped
  pub configured : t.params ≡ from.params
  pub coherent : IsCoherent t

-- From a coherent state with a well-formed preallocation list, on a chip whose addresses fit 32
-- bits, let a file be inside a sector of the chip, and hold the bytes `later` behind it: its sectors
-- there are in the order of a block and then in the block that the last sector names, each with its
-- data behind its header, and none of them is an empty first sector of a block. Then a read of fewer
-- than 2 ^ 32 bytes returns the first `n` bytes of what is left of the sector and of `later`, or all
-- of them if these are fewer, with their number. The read head has advanced by their number modulo
-- 2 ^ 32, and the flash is as before.
pub flogfs_read_lem :
    (file n k blocks : ℕ) (later free avs pending : List ℕ) (s : Fs)
    → IsGeometry s.chip.pages_per_block blocks
    → IsCoherent s
    → IsPrealloc s.prealloc free avs pending
    → IsBefore s.chip s.params blocks k (s.read_files file) later
    → k ≤ table_bound s.params
    → n < 2 ^ 32
    → Returns (IsRead file n (left_and s.chip (s.read_files file) later) s) (flogfs_read file n s)
flogfs_read_lem file n k blocks later free avs pending s geometry coherent lists h few small =
    let f = s.read_files file in
    let all = IsBefore-unread s.chip s.params blocks k f later h in
    Returns.mono
      (flogfs_read-unread file n k blocks free avs pending s geometry coherent lists
        (IsBefore-IsReader s.chip s.params blocks k f later h) few small)
      λ result t w. record {
        bytes = w.bytes ∙ ap (take n) all;
        count = w.count;
        head = w.head ∙ ap (λ l. add32 f.read_head (length (take n l))) all;
        same_id = w.same_id;
        memory = w.quiet.memory;
        configured = w.quiet.configured;
        coherent = w.quiet.coherent;
      }

-- From a coherent state with a well-formed preallocation list, let a file be inside a sector of the
-- chip, and at most `k` sectors follow with their data inside. Reading `m` bytes and then `n` bytes
-- gives the bytes that one read of `m + n` bytes, fewer than 2 ^ 32, gives from the same state, and
-- leaves the read head where that one leaves it.
pub flogfs_read-twice :
    (file m n k blocks : ℕ) (free avs pending : List ℕ) (s : Fs)
    → IsGeometry s.chip.pages_per_block blocks
    → IsCoherent s
    → IsPrealloc s.prealloc free avs pending
    → IsReader s.chip s.params blocks k (s.read_files file)
    → k ≤ table_bound s.params
    → m + n < 2 ^ 32
    → Returns
        (λ one u.
          Returns
            (λ bytes t.
              (bytes ≡ one.1) × ((t.read_files file).read_head ≡ (u.read_files file).read_head))
            ((do
              first ← flogfs_read file m
              second ← flogfs_read file n
              pure (first.1 ++ second.1))
              s))
        (flogfs_read file (m + n) s)
flogfs_read-twice file m n k blocks free avs pending s geometry coherent lists reader few small =
    let q = IsCoherent-IsQuiet free avs pending s coherent lists in
    Returns.mono
      (flogfs_read-Streamed s.chip s.params blocks geometry file k (m + n) s q reader few small)
      λ one u w.
        Returns.mono
          (flogfs_read-Streamed-twice s.chip s.params blocks geometry file k m n s q reader few
            (omega arith) (omega arith))
          λ bytes t both. (both.0 ∙ sym w.bytes, both.1 ∙ sym w.head)
