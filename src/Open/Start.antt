-- ===== src/Open/Start.antt =====
-- Where `flogfs_open_read` of src/flogfs.c puts the read head, and reading from there.
use flog_fs.Base.{
  ℕ, ◌+◌, ◌^◌, ◌<◌, ◌≤◌, ◌≡◌, ◌≢◌, ◌∙◌, sym, ap, subst, List, ◌++◌, ◌==◌, not, take, length, arith,
}
use flog_fs.Structs.{init_sector, file_init_size}
use flog_fs.Flash.{Chip}
use flog_fs.Flash.Address.{IsGeometry}
use flog_fs.Prealloc.Queue.{IsPrealloc}
use flog_fs.Fs.{Fs, Params, ReadFile}
use flog_fs.Fs.Cache.{IsCoherent}
use flog_fs.Inode.{table_bound}
use flog_fs.Open.{start_reading}
use flog_fs.Read.{flogfs_read}
use flog_fs.Read.Contents.{bytes_of, spare_of}
use flog_fs.Read.Chain.{Holds, IsBefore, IsBefore-IsReader, IsBefore-unread}
use flog_fs.Read.Quiet.{IsQuiet, flog_open_sector-IsOpenAt, read_spare_of-IsOpenAt}
use flog_fs.Read.Steps.{IsReading, put_read_file-IsReading}
use flog_fs.Read.Stream.{IsReader, unread}
use flog_fs.Read.Loop.{flogfs_read-Streamed, IsCoherent-IsQuiet}
use flog_fs.Run.{◌>>◌}
use flog_fs.Run.Returns
use flog_fs.Run.Returns.{Returns, returns}

-- The fields of a file at its first sector, with the data of that sector left.
abbrev pub at_start : Chip → ReadFile → ReadFile
at_start c f = record f {
  sector = init_sector;
  offset = file_init_size;
  sector_remaining_bytes = (spare_of c f.block init_sector).nbytes;
}

-- What a file holds whose first sector has data behind its header of 12 bytes, and that holds the
-- bytes `later` behind that sector.
abbrev pub whole_file : Chip → ReadFile → List ℕ → List ℕ
whole_file c f later = bytes_of c f.block 1 12 (spare_of c f.block 1).nbytes ++ later

start_reading-IsReading :
    (c : Chip) (params : Params) (file : ℕ) (s : Fs)
    → IsQuiet c params s
    → (spare_of c (s.read_files file).block init_sector).nbytes ≢ 0
    → Returns
        (λ _ t. IsReading c params file (at_start c (s.read_files file)) t)
        (start_reading file s)
unfolding start_reading
start_reading-IsReading c params file s q some_data =
    let f = s.read_files file in
    Returns.bind (flog_open_sector-IsOpenAt c params f.block init_sector s q) λ _ t o.
      Returns.bind (read_spare_of-IsOpenAt c params s.read_files f.block init_sector t o)
        λ spare u (e, p). rw e (
          Returns.branch (not ((spare_of c f.block init_sector).nbytes == 0)) _ _ u
            (λ _.
              let same : u.read_files file ≡ f = ap (λ (fs : ℕ → ReadFile). fs file) p.same in
              let placed = λ (g : ReadFile). record g {
                sector = init_sector;
                offset = file_init_size;
                sector_remaining_bytes = (spare_of c f.block init_sector).nbytes;
              } in
              let at =
                put_read_file-IsReading c params file (placed (u.read_files file)) u p.quiet in
              returns (at.0, at.1 ∙ ap placed same))
            (λ z. absurd (ground (arith, z))))

-- The first sector of the file has data, and behind it the file holds the bytes `later`.
pub record IsWhole (blocks k : ℕ) (f : ReadFile) (later : List ℕ) (s : Fs) : Type 0 where
  pub block_in : f.block < blocks
  pub page_in : 0 < s.chip.pages_per_block
  pub some_data : (spare_of s.chip f.block 1).nbytes ≢ 0
  pub fits : 12 + (spare_of s.chip f.block 1).nbytes ≤ 512
  pub head_in : f.read_head < 2 ^ 32
  pub holds : Holds s.chip s.params f.id blocks k f.block 1 later

-- From a coherent state with a well-formed preallocation list, on a chip whose addresses fit 32 bits,
-- let the first sector of the block of a file have data, and let the file hold the bytes `later` in
-- the sectors behind it, none of which is an empty first sector of a block. Putting the read head at
-- the start as opening does, and then reading fewer than 2 ^ 32 bytes, returns the first `n` bytes of
-- the data of that sector and of `later`, or all of them if these are fewer, with their number.
pub flogfs_read-start_reading :
    (file n k blocks : ℕ) (later free avs pending : List ℕ) (s : Fs)
    → IsGeometry s.chip.pages_per_block blocks
    → IsCoherent s
    → IsPrealloc s.prealloc free avs pending
    → IsWhole blocks k (s.read_files file) later s
    → k ≤ table_bound s.params
    → n < 2 ^ 32
    → Returns
        (λ result _.
          (result.1 ≡ take n (whole_file s.chip (s.read_files file) later))
          × (result.0 ≡ length result.1))
        ((start_reading file >> flogfs_read file n) s)
flogfs_read-start_reading file n k blocks later free avs pending s geometry coherent lists h few
      small =
    let f = s.read_files file in
    Returns.bind
      (start_reading-IsReading s.chip s.params file s
        (IsCoherent-IsQuiet free avs pending s coherent lists) h.some_data)
      λ _ t (q, at).
        let before : IsBefore s.chip s.params blocks k (at_start s.chip f) later = record {
          block_in = h.block_in;
          page_in = let room = h.page_in in omega arith;
          fits = h.fits;
          head_in = h.head_in;
          holds = h.holds;
        } in
        let reader = IsBefore-IsReader s.chip s.params blocks k (at_start s.chip f) later before in
        let all = IsBefore-unread s.chip s.params blocks k (at_start s.chip f) later before in
        Returns.mono
          (flogfs_read-Streamed s.chip s.params blocks geometry file k n t q
            (subst (IsReader s.chip s.params blocks k) (sym at) reader) few small)
          (λ result u w. (
            w.bytes ∙ (ap (λ g. take n (unread s.chip s.params k g)) at ∙ ap (take n) all),
            w.count,
          ))
