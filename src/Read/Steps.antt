-- ===== src/Read/Steps.antt =====
-- One round of `flogfs_read` of src/flogfs.c: the step to the next sector with data, and what is read
-- from a sector.
use flog_fs.Base.{
  ◌≢◌, subst, ==_iff, ℕ, ◌+◌, ◌*◌, ◌/◌, ◌%◌, ◌<◌, ◌≤◌, ◌≡◌, ◌∙◌, refl, sym, ap, Bool, true, false,
  Option, none, some, ◌++◌, ◌==◌, if◌then◌else◌, not, add16, sub16, add32, arith,
}
use flog_fs.Bytes.{load_bytes}
use flog_fs.Bytes.RoundTrip.{load_bytes-split}
use flog_fs.Structs.{init_sector, tail_sector, file_init_size, file_tail_size}
use flog_fs.Flash.{Chip, fs_sector_size, fs_sectors_per_page}
use flog_fs.Flash.Address.{IsGeometry, flat}
use flog_fs.Flash.Access.{get_offset-address}
use flog_fs.Fs.{Fs, Params, ReadFile}
use flog_fs.FileWalk.{put_read_file}
use flog_fs.Read.{enter_sector, next_block_step, next_sector_step, refill, take_bytes}
use flog_fs.Read.Contents.{Position, bytes_of, next_block_position, next_sector_position, following}
use flog_fs.Read.Quiet.{
  IsQuiet, flog_open_sector-IsOpenAt, read_sector-IsOpenAt, read_spare_of-IsOpenAt,
}
use flog_fs.Run.{ok, pure, Cmd}
use flog_fs.Run.Returns
use flog_fs.Run.Returns.{Returns, returns}

-- The fields of a file from which `n` bytes of its sector have been read.
abbrev pub pass : ReadFile → ℕ → ReadFile
pass f n = record f {
  offset = add16 f.offset n;
  sector_remaining_bytes = sub16 f.sector_remaining_bytes n;
  read_head = add32 f.read_head n;
}

-- The bytes of a sector are those of its first part and those behind it.
pub bytes_of-split :
    (c : Chip) (blocks : ℕ)
    → IsGeometry c.pages_per_block blocks
    → (block sector offset n k : ℕ) → block < blocks
    → sector / fs_sectors_per_page < c.pages_per_block
    → offset + n ≤ fs_sector_size
    → bytes_of c block sector offset (n + k)
      ≡ bytes_of c block sector offset n ++ bytes_of c block sector (offset + n) k
bytes_of-split c blocks geometry block sector offset n k hb hp fits =
    let page = sector / fs_sectors_per_page in
    let row = sector % fs_sectors_per_page in
    rw
      (
        get_offset-address geometry block page row offset hb hp (omega arith),
        get_offset-address geometry block page row (offset + n) hb hp (omega arith),
      )
      (load_bytes-split c.mapped (flat c.pages_per_block block page (row * fs_sector_size + offset))
          n k
        ∙ ap
            (λ a.
              load_bytes c.mapped
                (flat c.pages_per_block block page (row * fs_sector_size + offset)) n
              ++ load_bytes c.mapped a k)
            (omega arith))

-- Inside a sector there is nothing to refill.
pub refill-nothing :
    (file : ℕ) (s : Fs) → (s.read_files file).sector_remaining_bytes ≢ 0 → refill file s ≡ ok true s
unfolding refill
refill-nothing file s some_left = ground arith

module _ (c : Chip) (params : Params) (file : ℕ) where
  -- A state in which the file has the given fields.
  abbrev pub IsReading : ReadFile → Fs → Type 0
  IsReading f s = IsQuiet c params s × (s.read_files file ≡ f)

  -- The step found what follows, and the file has come there.
  abbrev pub IsRefilled : ReadFile → Option Position → Bool → Fs → Type 0
  IsRefilled f none more t = (more ≡ false) × IsReading f t
  IsRefilled f (some p) more t =
      (more ≡ true) × IsReading (enter_sector f p.block p.sector p.nbytes) t

  pub put_read_file-IsReading :
      (f : ReadFile) (s : Fs) → IsQuiet c params s → IsReading f (put_read_file file f s)
  put_read_file-IsReading f s q = (
    record {
      memory = q.memory;
      pages = q.pages;
      configured = q.configured;
      coherent = record {
        block = q.coherent.block;
        page = q.coherent.page;
        result = q.coherent.result;
      };
      lists = q.lists;
    },
    ground arith,
  )

  -- The end of a step: nothing more, or the file comes to the sector.
  settle :
      (b : Bool) (p : Position) (f : ReadFile) (s : Fs) (m : Cmd Fs Bool)
      → IsReading f s
      → Returns (λ more t. IsRefilled f (some p) more t) (m s)
      → Returns
          (λ more t. IsRefilled f (if b then none else some p) more t)
          ((if b then pure false else m) s)
  settle true p f s m h h' = returns (refl, h)
  settle false p f s m h h' = h'

  -- One of two steps.
  either :
      (b : Bool) (p p' : Option Position) (f : ReadFile) (s : Fs) (m m' : Cmd Fs Bool)
      → Returns (λ more t. IsRefilled f p more t) (m s)
      → Returns (λ more t. IsRefilled f p' more t) (m' s)
      → Returns (λ more t. IsRefilled f (if b then p else p') more t) ((if b then m else m') s)
  either true p p' f s m m' h h' = h
  either false p p' f s m m' h h' = h'

  module _ (s : Fs) (q : IsQuiet c params s) where
    next_sector_step-IsRefilled :
        let f = s.read_files file in
        Returns
          (λ more t. IsRefilled f (next_sector_position c s.params f.id f.block f.sector) more t)
          (next_sector_step file s)
    unfolding next_sector_step next_sector_position
    next_sector_step-IsRefilled =
        let f = s.read_files file in
        Returns.bind (flog_open_sector-IsOpenAt c params f.block _ s q) λ _ t o.
          Returns.bind (read_spare_of-IsOpenAt c params s.read_files f.block _ t o)
            λ spare u (e, p). rw e (
              settle _ (record { block = f.block; sector = _; nbytes = _ }) f u _
                (p.quiet, ap (λ (fs : ℕ → ReadFile). fs file) p.same)
                (returns (refl, put_read_file-IsReading _ u p.quiet)))

    next_block_step-IsRefilled :
        let f = s.read_files file in
        Returns
          (λ more t. IsRefilled f (next_block_position c s.params f.id f.block) more t)
          (next_block_step file s)
    unfolding next_block_step next_block_position
    next_block_step-IsRefilled =
        let f = s.read_files file in
        Returns.bind (flog_open_sector-IsOpenAt c params f.block tail_sector s q) λ _ t o.
          Returns.bind
            (read_sector-IsOpenAt c params s.read_files f.block tail_sector t o 0 file_tail_size)
            λ tail u (e, p). rw e (
              Returns.bind (flog_open_sector-IsOpenAt c params _ init_sector u p.quiet) λ _ v o'.
                Returns.bind
                  (read_sector-IsOpenAt c params u.read_files _ init_sector v o' 0 file_init_size)
                  λ init w (e', p'). rw e' (
                    settle _ (record { block = _; sector = _; nbytes = _ }) f w _
                      (p'.quiet, ap (λ (fs : ℕ → ReadFile). fs file) (p'.same ∙ p.same))
                      (Returns.bind
                        (read_spare_of-IsOpenAt c params u.read_files _ init_sector w p')
                        λ spare x (e'', p'').
                          rw e'' (returns (refl, put_read_file-IsReading _ x p''.quiet)))))

    -- At the end of a sector, the file comes to what follows, or stays if nothing does.
    pub refill-IsRefilled :
        let f = s.read_files file in
        f.sector_remaining_bytes ≡ 0
        → Returns
            (λ more t. IsRefilled f (following c params f.id f.block f.sector) more t)
            (refill file s)
    unfolding refill following
    refill-IsRefilled none_left =
        let f = s.read_files file in
        subst
          (λ (by : Params).
            Returns (λ more t. IsRefilled f (following c by f.id f.block f.sector) more t)
              (refill file s))
          q.configured
          (subst
            (λ (b : Bool).
              Returns (λ more t. IsRefilled f (following c s.params f.id f.block f.sector) more t)
                ((if not b
                    then pure true
                    else if f.sector == tail_sector
                    then next_block_step file
                    else next_sector_step file)
                  s))
            (sym ((==_iff f.sector_remaining_bytes 0).1 none_left))
            (either (f.sector == tail_sector) _ _ f s _ _ next_block_step-IsRefilled
              next_sector_step-IsRefilled))

    pub take_bytes-IsReading :
        (n : ℕ)
        → let f = s.read_files file in
          Returns
            (λ bytes t. (bytes ≡ bytes_of c f.block f.sector f.offset n) × IsReading (pass f n) t)
            (take_bytes file n s)
    unfolding take_bytes
    take_bytes-IsReading n =
        let f = s.read_files file in
        Returns.bind (flog_open_sector-IsOpenAt c params f.block f.sector s q) λ _ t o.
          Returns.bind (read_sector-IsOpenAt c params s.read_files f.block f.sector t o f.offset n)
            λ bytes u (e, p). returns (e, put_read_file-IsReading (pass f n) u p.quiet)
