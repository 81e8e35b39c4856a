-- ===== src/FileWalk.antt =====
-- Walking the sectors of a file with a callback, src/flogfs.c, and its two uses: the size of a file
-- and seeking. A callback gets the walk's state and its own, and returns its verdict.
pub mod Keeps
use flog_fs.Base.{
  ℕ, zero, suc, ◌+◌, ◌-◌, ◌%◌, ◌^◌, Bool, false, Option, none, some, [], ◌==◌, ltb, if◌then◌else◌,
  not, sub16, add32,
}
use flog_fs.Structs.{
  FlogResult, failure, success, succeeded, init_sector, tail_sector, FileTailHeader, file_tail_size,
  read_file_tail, invalid_file_tail, SectorSpare, invalid_sector_spare, is_mounted,
}
use flog_fs.Fs.{Fs, ReadFile, flog_open_sector, read_sector, read_spare_of, sectors_in_block}
use flog_fs.Write.{flog_increment_sector}
use flog_fs.Run.{Cmd, pure, panic, out_of_fuel, ◌>>=◌, ◌>>◌, fetch, modify}

-- flog_read_walk_file_result_t
pub data WalkResult : Type 0 where
  walk_failure walk_continue walk_stop walk_skip_block : WalkResult

-- flogfs_walk_file_state_t; the pointer to the spare is `none` for nullptr.
pub record FileWalkState : Type 0 where
  pub block : ℕ
  pub sector : ℕ
  pub last_block : Bool
  pub tail_header : FileTailHeader
  pub sector_spare : Option SectorSpare

-- file_walk_file_fn_t
abbrev pub Visitor : Type 0 → Type 0
Visitor A = FileWalkState → A → WalkResult × A

-- a `switch` over the verdict of a callback
pub on_verdict :
    {B : Type 0} → WalkResult → (failed continued stopped skipped : Cmd Fs B) → Cmd Fs B
on_verdict walk_failure failed continued stopped skipped = failed
on_verdict walk_continue failed continued stopped skipped = continued
on_verdict walk_stop failed continued stopped skipped = stopped
on_verdict walk_skip_block failed continued stopped skipped = skipped

module _ {A : Type 0} (walk : Visitor A) where
  pub walk_sectors_loop : ℕ → FileWalkState → A → Cmd Fs (WalkResult × FileWalkState × A)
  unfolding flog_open_sector flog_increment_sector on_verdict
  walk_sectors_loop zero state arg = λ _. out_of_fuel
  walk_sectors_loop (suc k) state arg = do
    flog_open_sector state.block state.sector
    spare ← read_spare_of state.sector
    s ← fetch
    let seen : FileWalkState = record state { sector_spare = some spare }
    let (verdict, arg') = walk seen arg
    let go_on : Cmd Fs (WalkResult × FileWalkState × A) =
        if seen.sector == tail_sector
        then pure (walk_continue, seen, arg')
        else walk_sectors_loop k
            (record seen { sector = flog_increment_sector s.params seen.sector }) arg'
    if invalid_sector_spare spare
        then pure (walk_continue, seen, arg)
        else on_verdict verdict (pure (walk_failure, seen, arg')) go_on
            (pure (walk_stop, seen, arg')) (pure (walk_continue, seen, arg'))

  -- flogfs_read_walk_sectors
  pub read_walk_sectors : FileWalkState → A → Cmd Fs (WalkResult × FileWalkState × A)
  unfolding walk_sectors_loop
  read_walk_sectors state arg = do
    s ← fetch
    walk_sectors_loop (sectors_in_block s.params) (record state { sector = init_sector }) arg

  pub walk_file_loop : ℕ → FileWalkState → A → Cmd Fs (FlogResult × A)
  unfolding read_walk_sectors flog_open_sector read_file_tail on_verdict
  walk_file_loop zero state arg = λ _. out_of_fuel
  walk_file_loop (suc k) state arg = do
    flog_open_sector state.block tail_sector
    bytes ← read_sector tail_sector 0 file_tail_size
    let header = read_file_tail bytes
    let seen : FileWalkState = record state {
      sector_spare = none;
      tail_header = header;
      last_block = invalid_file_tail header;
    }
    let (verdict, arg') = walk seen arg
    let next = λ (st : FileWalkState) (a : A).
        let rest = walk_file_loop k (record st { block = header.universal.next_block }) a in
        if st.last_block
        then pure (success, a)
        else if st.block == header.universal.next_block
        then pure (failure, a)
        else rest
    let sectors = (do
      (inner, st, a) ← read_walk_sectors seen arg'
      on_verdict inner (pure (failure, a)) (next st a) (pure (success, a)) (λ _. panic))
    on_verdict verdict (pure (failure, arg')) sectors (pure (success, arg')) (next seen arg')

  -- A file has at most as many blocks as there are.
  unfoldable pub flogfs_read_walk_file : ReadFile → A → Cmd Fs (FlogResult × A)
  unfolding walk_file_loop read_file_tail
  flogfs_read_walk_file file arg = do
    s ← fetch
    walk_file_loop (s.params.number_of_blocks + 1)
        (record {
          block = file.first_block;
          sector = s.stack 1;
          last_block = false;
          tail_header = read_file_tail [];
          sector_spare = none;
        })
        arg

unfoldable pub file_size_calculator_walk : Visitor ℕ
file_size_calculator_walk state size = elim (state.sector_spare) [
  | some spare ↦ (walk_continue, add32 size spare.nbytes)
  | none ↦
      if state.last_block
      then (walk_continue, size)
      else (walk_skip_block, add32 size state.tail_header.bytes_in_block)
]

abbrev pub put_read_file : ℕ → ReadFile → Fs → Fs
put_read_file file f s = record s { read_files = λ p. if p == file then f else s.read_files p }

unfoldable pub flogfs_read_calc_file_size : ℕ → Cmd Fs FlogResult
unfolding flogfs_read_walk_file file_size_calculator_walk
flogfs_read_calc_file_size file = do
  s ← fetch
  (result, size) ← flogfs_read_walk_file file_size_calculator_walk (s.read_files file) 0
  modify (λ s. put_read_file file (record (s.read_files file) { file_size = size }) s)
  pure result

-- file_seek_t
pub record FileSeek : Type 0 where
  pub status : FlogResult
  pub position : ℕ
  pub desired : ℕ
  pub block : ℕ
  pub sector : ℕ
  pub offset : ℕ
  pub bytes_remaining : ℕ

-- at the header of a block
pub seek_block : FileWalkState → FileSeek → WalkResult × FileSeek
seek_block state seek =
    let end_of_block = add32 seek.position state.tail_header.bytes_in_block in
    if state.last_block
    then (walk_continue, seek)
    else if ltb end_of_block seek.desired
    then (walk_skip_block, record seek { position = end_of_block })
    else (walk_continue, seek)

-- at a sector; the difference is stored in 16 bits
pub seek_sector : SectorSpare → FileSeek → WalkResult × FileSeek
seek_sector spare seek =
    let end_of_sector = add32 seek.position spare.nbytes in
    let offset = (seek.desired + 2 ^ 32 - seek.position) % 2 ^ 16 in
    if ltb end_of_sector seek.desired
    then (walk_continue, record seek { position = end_of_sector })
    else (
      walk_stop,
      record seek {
        status = success;
        offset = offset;
        bytes_remaining = sub16 spare.nbytes offset;
      },
    )

unfoldable pub file_seek_walk : Visitor FileSeek
unfolding seek_block seek_sector
file_seek_walk state old =
    let seek : FileSeek = record old { block = state.block; sector = state.sector } in
    elim (state.sector_spare) [ none ↦ seek_block state seek | some spare ↦ seek_sector spare seek ]

unfoldable pub flogfs_read_seek : ℕ → ℕ → Cmd Fs FlogResult
unfolding flogfs_read_walk_file file_seek_walk
flogfs_read_seek file position = do
  s ← fetch
  if not (is_mounted s.state) then pure failure else do
    let f = s.read_files file
    (walked, seek) ← flogfs_read_walk_file file_seek_walk f (record {
      status = failure;
      position = 0;
      desired = position;
      block = f.first_block;
      sector = init_sector;
      offset = s.stack 2;
      bytes_remaining = s.stack 3;
    })
    if not (succeeded walked) then pure failure else do
      modify (λ s.
          put_read_file file
            (record (s.read_files file) {
              block = seek.block;
              sector = seek.sector;
              offset = seek.offset;
              sector_remaining_bytes = seek.bytes_remaining;
            })
            s)
      pure seek.status
