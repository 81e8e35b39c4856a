-- ===== src/Write/Keeps.antt =====
-- Writing keeps the invariants of the file system.
use flog_fs.Base.{ℕ, zero, suc, List, ◌==◌}
use flog_fs.Structs.{FlogResult, SectorSpare, tail_sector}
use flog_fs.Prealloc.{BlockAlloc}
use flog_fs.Fs.{Fs, WriteFile}
use flog_fs.Write.{
  get_file, commit_by, write_file_sector, write_inner, commit_inner, commit_tail_into, commit_tail,
  flush_write_by, flush_dirty_by, flog_commit_file_sector, commit_depth, flog_flush_write,
  flog_flush_dirty_block, buffer_bytes, write_loop, flogfs_write,
}
use flog_fs.Run.{Cmd}
use flog_fs.Run.Keeps.{holds, Keeps-bind, Keeps-if, Keeps, Keeps-fail}
use flog_fs.Alloc.Stable.{
  IsStable, stable_rules, flog_block_statistics_read-Keeps, flog_block_statistics_write-Keeps,
  flog_allocate_block-Keeps, flog_prealloc_prime-Keeps,
}

module _ {I : Fs → Type 0} (st : IsStable I) where
  pub get_file-Keeps : (file : ℕ) → Keeps I (get_file file)
  get_file-Keeps file = record { at = λ s h. holds h }

  pub ruleset file_rules = (stable_rules, get_file-Keeps)

  write_file_sector-Keeps :
      (f : WriteFile) (bytes : List ℕ) (spare : SectorSpare)
      → Keeps I (write_file_sector f bytes spare)
  unfolding write_file_sector
  write_file_sector-Keeps f bytes spare = search file_rules depth 20

  write_inner-Keeps : (file : ℕ) (bytes : List ℕ) → Keeps I (write_inner file bytes)
  unfolding write_inner
  write_inner-Keeps file bytes = search (file_rules, write_file_sector-Keeps) depth 20

  commit_inner-Keeps : (file : ℕ) (bytes : List ℕ) → Keeps I (commit_inner file bytes)
  unfolding commit_inner
  commit_inner-Keeps file bytes = search (file_rules, write_inner-Keeps) depth 20

  commit_tail_into-Keeps :
      (next : BlockAlloc) (file : ℕ) (bytes : List ℕ) → Keeps I (commit_tail_into next file bytes)
  unfolding commit_tail_into
  commit_tail_into-Keeps next file bytes = search (file_rules, write_file_sector-Keeps) depth 20

  commit_tail-Keeps :
      (flush : Cmd Fs (Unit {0})) (file : ℕ) (bytes : List ℕ)
      → Keeps I flush
      → Keeps I (commit_tail flush file bytes)
  unfolding commit_tail
  commit_tail-Keeps flush file bytes h =
      search (file_rules, flog_allocate_block-Keeps, commit_tail_into-Keeps) depth 20

  module _ (commit : ℕ → List ℕ → Cmd Fs FlogResult)
      (h : (file : ℕ) (bytes : List ℕ) → Keeps I (commit file bytes)) where
    flush_write_by-Keeps : (file : ℕ) → Keeps I (flush_write_by commit file)
    unfolding flush_write_by
    flush_write_by-Keeps file = search (file_rules, h) depth 20

    flush_dirty_by-Keeps : Keeps I (flush_dirty_by commit)
    unfolding flush_dirty_by
    flush_dirty_by-Keeps = search (file_rules, flush_write_by-Keeps) depth 20

  module _ (commit : ℕ → List ℕ → Cmd Fs FlogResult)
      (h : (file : ℕ) (bytes : List ℕ) → Keeps I (commit file bytes)) where
    commit_by-Keeps : (file : ℕ) (bytes : List ℕ) → Keeps I (commit_by commit file bytes)
    unfolding commit_by
    commit_by-Keeps file bytes =
        let flush = flush_dirty_by-Keeps commit h in
        Keeps-bind (get_file file) _ (get_file-Keeps file) λ f.
          Keeps-if (f.sector == tail_sector) _ _ (commit_tail-Keeps _ file bytes flush)
            (commit_inner-Keeps file bytes)

  pub flog_commit_file_sector-Keeps :
      (depth file : ℕ) (bytes : List ℕ) → Keeps I (flog_commit_file_sector depth file bytes)
  unfolding flog_commit_file_sector
  flog_commit_file_sector-Keeps zero file bytes = Keeps-fail
  flog_commit_file_sector-Keeps (suc depth) file bytes =
      commit_by-Keeps (flog_commit_file_sector depth) (flog_commit_file_sector-Keeps depth) file
        bytes

  pub flog_flush_write-Keeps : (file : ℕ) → Keeps I (flog_flush_write file)
  unfolding flog_flush_write
  flog_flush_write-Keeps file =
      flush_write_by-Keeps (flog_commit_file_sector commit_depth)
        (flog_commit_file_sector-Keeps commit_depth) file

  pub flog_flush_dirty_block-Keeps : Keeps I flog_flush_dirty_block
  unfolding flog_flush_dirty_block
  flog_flush_dirty_block-Keeps =
      flush_dirty_by-Keeps (flog_commit_file_sector commit_depth)
        (flog_commit_file_sector-Keeps commit_depth)

  buffer_bytes-Keeps : (file : ℕ) (src : List ℕ) → Keeps I (buffer_bytes file src)
  unfolding buffer_bytes
  buffer_bytes-Keeps file src = search file_rules depth 20

  write_loop-Keeps : (k file : ℕ) (src : List ℕ) (count : ℕ) → Keeps I (write_loop k file src count)
  unfolding write_loop
  write_loop-Keeps zero file src count = search file_rules
  write_loop-Keeps (suc k) file src count =
      search (file_rules, flog_commit_file_sector-Keeps, buffer_bytes-Keeps, write_loop-Keeps k)
        depth 20

  pub flogfs_write-Keeps : (file : ℕ) (src : List ℕ) → Keeps I (flogfs_write file src)
  unfolding flogfs_write
  flogfs_write-Keeps file src = search (file_rules, write_loop-Keeps)
