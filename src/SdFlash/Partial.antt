-- ===== src/SdFlash/Partial.antt =====
-- Writes of less than a block, flash_write_sector of backends/arduino-sd/flogfs_arduino_sd.cpp with
-- sd_raw_write_data of backends/arduino-sd/sd_raw.cpp: what the card receives.
use flog_fs.Base.{
  ℕ, ◌+◌, ◌%◌, ◌<◌, ◌≤◌, ◌≡◌, ◌≢◌, ◌⊎◌, ◌∙◌, refl, ap, not, ==_iff, inl, inr, Bool, true, false,
  List, length, ◌==◌, arith,
}
use flog_fs.Structs.{erase_char}
use flog_fs.Bytes.{Mem, load_bytes, store_bytes}
use flog_fs.Bytes.RoundTrip.{
  store_bytes-before, store_bytes-after, store_bytes-load_bytes, load_bytes-cong,
  load_bytes-store_bytes, length-load_bytes,
}
use flog_fs.Flash.{fs_sectors_per_page}
use flog_fs.Sd.{Board, Port, sd_raw_block_size}
use flog_fs.Sd.Data.{
  ReadResult, bytes_read, overlaid, block_memory, sd_raw_read_block, sd_raw_write_block,
  sd_raw_write_data, write_over,
}
use flog_fs.SdFlash.{SdFlash, on_port, get_sd_block_in_open_page, flash_write_sector}
use flog_fs.Run.{Run, Cmd, ok, panic, out_of_fuel, pure, and_then, lift, ◌>>=◌, ◌>>◌}

block_memory-overlaid :
    (m : Mem) (offset : ℕ) (src : List ℕ) (x : ℕ)
    → x < sd_raw_block_size
    → block_memory (overlaid m offset src) x ≡ store_bytes m offset src x
unfolding block_memory
block_memory-overlaid m offset src x inside = store_bytes-load_bytes _ _ 0 _ x (omega arith) inside

-- A block with the bytes `src` at the offset, and otherwise those of `m`.
pub record IsOverlay (m : Mem) (offset : ℕ) (src bytes : List ℕ) : Type 0 where
  pub size_is : length bytes ≡ sd_raw_block_size
  pub new_are : load_bytes (block_memory bytes) offset (length src) ≡ src
  pub others_are :
      (x : ℕ)
      → x < sd_raw_block_size
      → (x < offset) ⊎ (offset + length src ≤ x)
      → block_memory bytes x ≡ m x

overlaid-IsOverlay :
    (m : Mem) (offset : ℕ) (src : List ℕ)
    → offset + length src ≤ sd_raw_block_size
    → IsOverlay m offset src (overlaid m offset src)
overlaid-IsOverlay m offset src fits = record {
  size_is = length-load_bytes _ 0 sd_raw_block_size;
  new_are =
      load_bytes-cong _ _ offset (length src)
        (λ x lo hi. block_memory-overlaid m offset src x (omega arith))
      ∙ load_bytes-store_bytes m offset src;
  others_are = λ x inside outside. block_memory-overlaid m offset src x inside ∙ kept x outside;
}
  where
    kept : (x : ℕ) → (x < offset) ⊎ (offset + length src ≤ x) → store_bytes m offset src x ≡ m x
    kept x (inl below) = store_bytes-before m offset src x below
    kept x (inr above) = store_bytes-after m offset src x above

module _ {D : Type 0} (board : Board D) (block offset : ℕ) (src : List ℕ) where
  is_part : length src ≢ sd_raw_block_size → (length src == sd_raw_block_size) ≡ false
  is_part part = ground arith

  sd_raw_write_data-erased :
      length src ≢ sd_raw_block_size
      → sd_raw_write_data board block offset src false
        ≡ sd_raw_write_block board block (overlaid (λ _. erase_char) offset src)
  unfolding sd_raw_write_data
  sd_raw_write_data-erased part = rw (is_part part) refl

  sd_raw_write_data-kept :
      length src ≢ sd_raw_block_size
      → sd_raw_write_data board block offset src true
        ≡ (sd_raw_read_block board block >>= (λ old. write_over board old block offset src))
  unfolding sd_raw_write_data
  sd_raw_write_data-kept part = rw (is_part part) refl

  write_over-bytes_read :
      (old : List ℕ)
      → write_over board (bytes_read old) block offset src
        ≡ sd_raw_write_block board block (overlaid (block_memory old) offset src)
  unfolding write_over
  write_over-bytes_read old = refl

module _ {D : Type 0} (board : Board D) (s : SdFlash D) (src : List ℕ) (sector offset : ℕ) where
  abbrev block_written : ℕ
  block_written = get_sd_block_in_open_page s (sector % fs_sectors_per_page)

  -- A command on the card, whose result is dropped.
  abbrev written : Cmd (Port D) Bool → Cmd (SdFlash D) (Unit {0})
  written m = on_port m >> pure tt

  abbrev lift_result : Run (Port D) Bool → Run (SdFlash D) (Unit {0})
  lift_result r = and_then (lift (λ (t : SdFlash D) p. record t { port = p }) r s) (λ _. pure tt)

  -- the state of the card before the command does not matter
  lift_result-record :
      (p : Port D) (r : Run (Port D) Bool)
      → lift_result r
        ≡ and_then
            (lift (λ (t : SdFlash D) q. record t { port = q }) r (record s { port = p }))
            (λ _. pure tt)
  lift_result-record p (ok a q) = refl
  lift_result-record p panic = refl
  lift_result-record p out_of_fuel = refl

  written-read :
      (old : List ℕ) (p : Port D)
      → sd_raw_read_block board block_written s.port ≡ ok (bytes_read old) p
      → (k : ReadResult → Cmd (Port D) Bool)
      → written (sd_raw_read_block board block_written >>= k) s
        ≡ written (k (bytes_read old)) (record s { port = p })
  written-read old p read k =
      ap (λ r. lift_result (and_then r k)) read ∙ lift_result-record p (k (bytes_read old) p)

  -- In the block of the file system erased last, writing less than a whole sector at an offset at which it
  -- fits writes one block of the card, with the new bytes in their place and erased bytes elsewhere.
  pub flash_write_sector-erased :
      s.last_block_erased ≡ s.open_block
      → length src ≢ sd_raw_block_size
      → offset + length src ≤ sd_raw_block_size
      → (bytes : List ℕ) × IsOverlay (λ _. erase_char) offset src bytes
        × (flash_write_sector board src sector offset s
            ≡ written (sd_raw_write_block board block_written bytes) s)
  unfolding flash_write_sector
  flash_write_sector-erased erased part fits = (
    overlaid (λ _. erase_char) offset src,
    overlaid-IsOverlay _ offset src fits,
    ap (λ b. written (sd_raw_write_data board block_written offset src (not b)) s)
          ((==_iff s.last_block_erased s.open_block).1 erased)
        ∙ ap (λ m. written m s) (sd_raw_write_data-erased board block_written offset src part),
  )

  -- If the block of the file system that is open is not the one erased last, and the block of the card
  -- that is written can be read, writing less than a sector, at an offset at which it fits, writes that
  -- block with the new bytes in their place and the bytes that were read elsewhere.
  pub flash_write_sector-kept :
      (old : List ℕ) (p : Port D)
      → s.last_block_erased ≢ s.open_block
      → length src ≢ sd_raw_block_size
      → offset + length src ≤ sd_raw_block_size
      → sd_raw_read_block board block_written s.port ≡ ok (bytes_read old) p
      → (bytes : List ℕ) × IsOverlay (block_memory old) offset src bytes
        × (flash_write_sector board src sector offset s
            ≡ written (sd_raw_write_block board block_written bytes) (record s { port = p }))
  unfolding flash_write_sector
  flash_write_sector-kept old p kept part fits read =
      let other : (s.last_block_erased == s.open_block) ≡ false = ground arith in
      (
        overlaid (block_memory old) offset src,
        overlaid-IsOverlay _ offset src fits,
        ap (λ b. written (sd_raw_write_data board block_written offset src (not b)) s) other
            ∙ ap (λ m. written m s) (sd_raw_write_data-kept board block_written offset src part)
            ∙ written-read old p read (λ read. write_over board read block_written offset src)
            ∙ ap (λ m. written m (record s { port = p }))
                (write_over-bytes_read board block_written offset src old),
      )
