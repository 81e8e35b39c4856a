-- ===== src/Open/Close.antt =====
-- Closing a file that has data in its sector buffer.
use flog_fs.Base.{ℕ, ◌<◌, ◌≡◌, refl, arith, false, List, ◌==◌, not, length, ◌∙◌}
use flog_fs.Structs.{tail_sector}
use flog_fs.Fs.{Fs}
use flog_fs.Write.{flogfs_write}
use flog_fs.Write.Buffer.{IsWriter, flogfs_write-Buffered}
use flog_fs.Open.{flogfs_close_write, close_flushes}
use flog_fs.Run.{Cmd, pure, ◌>>=◌, ◌>>◌}
use flog_fs.Run.Returns
use flog_fs.Run.Returns.{Returns, returns}

-- Closing the file at the head of the list, when the test for a flush fails.
pub flogfs_close_write-unflushed :
    (file : ℕ) (s : Fs)
    → s.write_head ≡ file
    → close_flushes (s.write_files file) ≡ false
    → Returns
        (λ _ s'. (s'.chip ≡ s.chip) × (s'.write_head ≡ (s.write_files file).next))
        (flogfs_close_write file s)
unfolding flogfs_close_write
flogfs_close_write-unflushed file s first none_flushed =
    let at_head : not (s.write_head == file) ≡ false = ground arith in
    rw (at_head, none_flushed) (returns (refl, refl))

-- an application that writes once and closes the file
unfoldable pub write_and_close : ℕ → List ℕ → Cmd Fs ℕ
unfolding flogfs_write flogfs_close_write
write_and_close file src = do n ← flogfs_write file src; flogfs_close_write file; pure n

-- Data that fits the buffered sector is reported as written, but where the file is at the tail
-- sector of its block, closing it leaves the chip as it was before the write: the data is lost.
pub write_and_close-lost :
    (file : ℕ) (src : List ℕ) (s : Fs)
    → s.write_head ≡ file
    → IsWriter (s.write_files file)
    → length src < (s.write_files file).sector_remaining_bytes
    → (s.write_files file).sector ≡ tail_sector
    → Returns (λ n s'. (n ≡ length src) × (s'.chip ≡ s.chip)) (write_and_close file src s)
unfolding write_and_close
write_and_close-lost file src s first h lt tail =
    Returns.bind (flogfs_write-Buffered file src s h lt) λ n t (e, b).
      Returns.bind
        (flogfs_close_write-unflushed file t (omega (arith, b.head)) (ground (arith, b.sector)))
        λ _ u same. returns (e, same.0 ∙ b.chip)
