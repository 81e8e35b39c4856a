-- ===== src/Mmap/Session.antt =====
-- Opening and closing the mapped file of backends/linux-mmap/flogfs_linux_mmap.cpp.
use flog_fs.Base.{
  ℕ, ◌*◌, ◌%◌, ◌^◌, ◌≡◌, ◌∙◌, refl, sym, ap, Bool, true, false, not, Option, none, some, [], arith,
  subst,
}
use flog_fs.Bytes.{Mem}
use flog_fs.Structs.{FlogResult, success, failure}
use flog_fs.Flash.{fs_sector_size, sectors_per_block}
use flog_fs.Fs.{Params}
use flog_fs.Mmap.{
  Mmap, Os, log_entry, opened, add_entry, log_size, append, clear, map_file, flogfs_linux_open,
  flogfs_linux_close, flash_initialize,
}
use flog_fs.Mmap.Logged.{append_lem, recorded}
use flog_fs.Run.{Cmd, pure, assert, ◌>>◌, modify}
use flog_fs.Run.Returns
use flog_fs.Run.Returns.{Returns, returns}

-- No file is open.
pub record IsClosed (s : Mmap) : Type 0 where
  pub no_fd : s.fd ≡ none
  pub unmapped : s.mapped ≡ false

-- The memory is what the system has mapped, and the log has the one entry.
pub record IsFresh (os : Os) (s : Mmap) : Type 0 where
  pub fd : ℕ
  pub file : s.fd ≡ some fd
  pub memory : os.mmap s.mapped_size fd ≡ some s.chip.mapped
  pub one : log_size s.log ≡ 1

-- What opening a file answers, and whether the driver can be used then.
pub record Answered (os : Os) (result : FlogResult) (s : Mmap) : Type 0 where
  pub agreed : flash_initialize s ≡ result
  pub usable : result ≡ success → IsFresh os s

assert-Returns : (b : Bool) (s : Mmap) → b ≡ true → Returns (λ _ t. t ≡ s) (assert b s)
assert-Returns true s e = returns refl
assert-Returns false s e = absurd (ground (arith, e))

module _ (os : Os) where
  refused : (s : Mmap) → s.mapped ≡ false → Returns (Answered os) (pure failure s)
  unfolding flash_initialize
  refused s e = returns (record { agreed = rw e refl; usable = λ p. absurd (ground (arith, p)) })

  -- Once mmap has answered.
  map_answer :
      (size fd : ℕ) (answer : Option Mem) (s : Mmap)
      → s.mapped ≡ false
      → s.fd ≡ some fd
      → s.mapped_size ≡ size
      → os.mmap size fd ≡ answer
      → let rest : Cmd Mmap FlogResult = elim answer [
        | none ↦ pure failure
        | some bytes ↦ do
          modify (λ s. record s { mapped = true; chip = record s.chip { mapped = bytes } })
          clear
          append (log_entry opened)
          pure success
      ] in
        Returns (Answered os) (rest s)
  unfolding clear flash_initialize log_size
  map_answer size fd none s unmapped file same e = refused s unmapped
  map_answer size fd (some bytes) s unmapped file same e =
      let memory : os.mmap s.mapped_size fd ≡ some bytes =
        subst (λ (n : ℕ). os.mmap n fd ≡ some bytes) (sym same) e in
      let u : Mmap = record s {
        mapped = true;
        chip = record s.chip { mapped = bytes };
        log = record s.log { entries = [] };
      } in
      let entry = recorded s.log.copy_on_write (log_entry opened) u in
      rw (append_lem (log_entry opened) u refl) (
        returns {s = add_entry entry u} (record {
          agreed = refl;
          usable = λ _. record { fd = fd; file = file; memory = memory; one = refl };
        }))

  open_answer :
      (params : Params) (answer : Option ℕ) (s : Mmap)
      → s.mapped ≡ false
      → let rest : Cmd Mmap FlogResult = elim answer [
        | none ↦ pure failure
        | some fd ↦ map_file os params fd
      ] in
        Returns (Answered os) (rest (record s { fd = answer }))
  unfolding map_file
  open_answer params none s unmapped = refused _ unmapped
  open_answer params (some fd) s unmapped =
      let size =
        fs_sector_size
        * (sectors_per_block params.pages_per_block * params.number_of_blocks)
        % 2 ^ 32 in
      Returns.branch (not (os.lseek fd size)) _ _ _ (λ _. refused _ unmapped)
        λ _.
          Returns.branch (not (os.write fd)) _ _ _ (λ _. refused _ unmapped)
            λ _. map_answer size fd (os.mmap size fd) _ unmapped refl refl refl

  -- From a state in which no file is open.
  pub flogfs_linux_open-Answered :
      (truncate : Bool) (params : Params) (s : Mmap)
      → IsClosed s
      → Returns (Answered os) (flogfs_linux_open os truncate params s)
  unfolding flogfs_linux_open
  flogfs_linux_open-Answered truncate params s closed =
      Returns.bind
        (assert-Returns _ s
          (ap (λ (o : Option ℕ). elim o [ none ↦ true | some fd ↦ false ]) closed.no_fd))
        λ _ t e. Returns.bind (assert-Returns (not s.mapped) t (rw closed.unmapped refl)) λ _ u e'.
          open_answer params (os.open_file truncate) u
            (ap (λ (x : Mmap). x.mapped) (e' ∙ e) ∙ closed.unmapped)

-- Whatever the system answers when a file is opened, with no file open before, the call returns; the
-- file can then be closed and another one opened, and that call returns too: it answers success
-- exactly if the driver can be used, and then the memory is what the system has mapped and the log has
-- one entry.
pub flogfs_linux_open-flogfs_linux_close :
    (os os' : Os) (truncate truncate' : Bool) (params params' : Params) (s : Mmap)
    → IsClosed s
    → Returns (Answered os') (
        (flogfs_linux_open os truncate params
            >> flogfs_linux_close
            >> flogfs_linux_open os' truncate' params')
          s)
unfolding flogfs_linux_close
flogfs_linux_open-flogfs_linux_close os os' truncate truncate' params params' s closed =
    Returns.bind {P = λ _ u. IsClosed u}
      (Returns.bind (flogfs_linux_open-Answered os truncate params s closed)
        λ _ t w. returns (record { no_fd = refl; unmapped = refl }))
      λ _ u again. flogfs_linux_open-Answered os' truncate' params' u again
