-- ===== src/Tests/Sd.antt =====
-- Runs of the driver for SD cards, backends/arduino-sd, on boards that are written out.
use flog_fs.Base.{
  ℕ, zero, ◌+◌, ◌/◌, ◌%◌, ◌^◌, ◌≤◌, ◌≡◌, ◌⊎◌, ◌↔◌, refl, true, false, List, [], ◌∷◌, ◌++◌, some,
  arith,
}
use flog_fs.Structs.{erase_char, flog_result}
use flog_fs.Bytes.{load_bytes}
use flog_fs.Sd.{Board, Port, SdRaw}
use flog_fs.Sd.Card.{size_of, sd_raw_initialize}
use flog_fs.Sd.Clock.{IsClock, Patient}
use flog_fs.Sd.Data.{bytes_read, block_memory, sd_raw_read_block, sd_raw_write_block}
use flog_fs.SdFlash.{
  SdFlash, on_port, get_sd_block, flash_erase_block, flash_read_sector, flash_read_spare,
  flash_write_sector, flash_write_spare,
}
use flog_fs.SdFlash.Blocks.{erase_range, flash_erase_block-get_sd_block}
use flog_fs.SdFlash.Closed.{IsIdle, flash_driver_closes}
use flog_fs.Run.Keeps.{Holds}
use flog_fs.SdFlash.Partial.{IsOverlay, flash_write_sector-erased, flash_write_sector-kept}
use flog_fs.SdFlash.Returning.{flash_driver_answers}
use flog_fs.Run.{ok, pure, ◌>>=◌, ◌>>◌}
use flog_fs.Run.Returns.{Returns}

-- A card that is silent. The state is the time in microseconds.
abbrev silent : Board ℕ
silent = record {
  transfer = λ b d. (0xff, d + 1000);
  begin = λ d. d;
  set_clock_divider = λ n d. d;
  begin_transaction = λ d. d;
  end_transaction = λ d. d;
  pin_output = λ pin d. d;
  digital_write = λ pin high d. d;
  millis = λ d. (d / 1000 % 2 ^ 32, d);
  random = λ max d. (0, d);
}

silent-IsClock : IsClock silent (λ d. d)
silent-IsClock = record {
  millis = λ d. refl;
  millis_goes_on = λ d. omega arith;
  millis_is_short = λ d. omega arith;
  transfer_goes_on = λ b d. omega arith;
  transfer_is_short = λ b d. omega arith;
}

abbrev raw : SdRaw
raw = record { cs = 4; status = 0; card_type = 3; offset = 0; in_block = false; block = 0 }

abbrev driver : {D : Type 0} → D → (open_block last_block_erased : ℕ) → SdFlash D
driver d open_block last_block_erased = record {
  port = record { sd = raw; device = d; polls = 20_000_000 };
  open_block = open_block;
  last_block_erased = last_block_erased;
  open_page = 0;
  pages_per_block = 8;
}

flash_driver_answers_example :
    Returns (λ _ t. Patient t.port) (flash_erase_block silent 3 (driver 0 3 7))
    × Returns (λ _ t. Patient t.port) (flash_read_sector silent 1 4 16 (driver 0 3 7))
    × Returns (λ _ t. Patient t.port) (flash_read_spare silent 1 (driver 0 3 7))
    × Returns (λ _ t. Patient t.port) (flash_write_sector silent (5 ∷ []) 1 4 (driver 0 3 7))
    × Returns (λ _ t. Patient t.port) (flash_write_spare silent (5 ∷ []) 1 (driver 0 3 7))
flash_driver_answers_example =
    flash_driver_answers silent-IsClock (driver 0 3 7) 3 1 4 16 (5 ∷ []) (omega arith)

abbrev erased_block : ℕ
erased_block = 3

abbrev following : ℕ
following = 4

flash_erase_block-get_sd_block_example :
    (first : ℕ) × (last : ℕ) × (flash_erase_block silent 3 (driver 0 2 7)
      ≡ (on_port (erase_range silent first last) >>= (λ erased. pure (flog_result erased)))
          (driver 0 2 3))
    × (((first ≤ get_sd_block 8 4 0 0) × (get_sd_block 8 4 0 0 ≤ last))
        ↔ ((following ≡ erased_block) ⊎ ((following ≡ erased_block + 1) × (zero ≡ 0) × (zero ≡ 0))))
flash_erase_block-get_sd_block_example =
    flash_erase_block-get_sd_block silent (driver 0 2 7) 3 4 0 0 (omega arith) (omega arith)
      (omega arith) (omega arith) (omega arith)

flash_write_sector-erased_example :
    (bytes : List ℕ) × IsOverlay (λ _. erase_char) 4 (1 ∷ 2 ∷ []) bytes
    × (flash_write_sector silent (1 ∷ 2 ∷ []) 1 4 (driver 0 3 3)
        ≡ (on_port (sd_raw_write_block silent 121 bytes) >> pure tt) (driver 0 3 3))
unfolding get_sd_block
flash_write_sector-erased_example =
    flash_write_sector-erased silent (driver 0 3 3) (1 ∷ 2 ∷ []) 1 4 refl (λ e. omega (arith, e))
      (omega arith)

-- A card that answers the bytes of a script, and then always 0x55. The state is what is left of it.
abbrev answer : ℕ → List ℕ → ℕ × List ℕ
answer b [] = (0x55, [])
answer b (x ∷ xs) = (x, xs)

abbrev scripted : Board (List ℕ)
scripted = record {
  transfer = answer;
  begin = λ d. d;
  set_clock_divider = λ n d. d;
  begin_transaction = λ d. d;
  end_transaction = λ d. d;
  pin_output = λ pin d. d;
  digital_write = λ pin high d. d;
  millis = λ d. (0, d);
  random = λ max d. (0, d);
}

-- the card is ready, takes six bytes of a command, answers it, and starts a block
abbrev start_block : List ℕ
start_block = 0xff ∷ 0 ∷ 0 ∷ 0 ∷ 0 ∷ 0 ∷ 0 ∷ 0x00 ∷ 0xfe ∷ []

abbrev held : List ℕ
held = load_bytes (λ _. 0x55) 0 512

abbrev read_port : Port (List ℕ)
read_port = record {
  sd = record raw { status = 0xfe; offset = 515; block = 121 };
  device = [];
  polls = 20_000_000;
}

block_is_read :
    sd_raw_read_block scripted 121 (driver start_block 3 7).port ≡ ok (bytes_read held) read_port
unfolding sd_raw_read_block load_bytes
block_is_read = refl

flash_write_sector-kept_example :
    (bytes : List ℕ) × IsOverlay (block_memory held) 4 (1 ∷ 2 ∷ []) bytes
    × (flash_write_sector scripted (1 ∷ 2 ∷ []) 1 4 (driver start_block 3 7)
        ≡ (on_port (sd_raw_write_block scripted 121 bytes) >> pure tt)
            (record (driver start_block 3 7) { port = read_port }))
unfolding get_sd_block
flash_write_sector-kept_example =
    flash_write_sector-kept scripted (driver start_block 3 7) (1 ∷ 2 ∷ []) 1 4 held read_port
      (λ e. omega (arith, e)) (λ e. omega (arith, e)) (omega arith) block_is_read

flash_driver_closes_example :
    Holds IsIdle (flash_erase_block scripted 3 (driver start_block 3 7))
    × Holds IsIdle (flash_read_sector scripted 1 4 16 (driver start_block 3 7))
    × Holds IsIdle (flash_read_spare scripted 1 (driver start_block 3 7))
    × Holds IsIdle (flash_write_sector scripted (5 ∷ []) 1 4 (driver start_block 3 7))
    × Holds IsIdle (flash_write_spare scripted (5 ∷ []) 1 (driver start_block 3 7))
flash_driver_closes_example =
    flash_driver_closes scripted (driver start_block 3 7) 3 1 4 16 (5 ∷ [])
      (record { closed = refl })

-- The register of a card with 7,710,720 blocks, and of a card of the first version with 992,000.
abbrev high_capacity : List ℕ
high_capacity =
    0x40 ∷ 0x0e ∷ 0 ∷ 0x32 ∷ 0x5b ∷ 0x59 ∷ 0 ∷ 0 ∷ 0x1d ∷ 0x69 ∷ 0x7f ∷ 0x80 ∷ 0x0a ∷ 0x40 ∷ 0 ∷ 1
    ∷ []

abbrev standard_capacity : List ℕ
standard_capacity =
    0 ∷ 0x26 ∷ 0 ∷ 0x32 ∷ 0x5f ∷ 0x5a ∷ 0x83 ∷ 0xc8 ∷ 0xad ∷ 0xb6 ∷ 0xcf ∷ 0xff ∷ 0x16 ∷ 0x80 ∷ 0
    ∷ 1 ∷ []

size_of_high : size_of scripted (some high_capacity) read_port ≡ ok 7_710_720 read_port
unfolding size_of
size_of_high = refl

size_of_standard : size_of scripted (some standard_capacity) read_port ≡ ok 992_000 read_port
unfolding size_of
size_of_standard = refl

-- A card of high capacity is set up: each part is one command, with the bytes while it is sent.
abbrev commanded : List ℕ → List ℕ
commanded answers = 0xff ∷ 0 ∷ 0 ∷ 0 ∷ 0 ∷ 0 ∷ 0 ∷ answers

abbrev start_bytes : List ℕ
start_bytes = 0 ∷ 0 ∷ 0 ∷ 0 ∷ 0 ∷ 0 ∷ 0 ∷ 0 ∷ 0 ∷ 0 ∷ []

abbrev set_up : List ℕ
set_up =
    start_bytes
    ++ commanded (0x01 ∷ [])
    ++ commanded (0x01 ∷ 0 ∷ 0 ∷ 1 ∷ 0xaa ∷ [])
    ++ commanded (0x01 ∷ [])
    ++ commanded (0x00 ∷ [])
    ++ commanded (0x00 ∷ 0xc0 ∷ 0 ∷ 0 ∷ 0 ∷ [])

sd_raw_initialize_runs :
    sd_raw_initialize scripted 4
      (record { sd = record raw { card_type = 0 }; device = set_up; polls = 100 })
    ≡ ok true (record { sd = raw; device = []; polls = 100 })
unfolding sd_raw_initialize
sd_raw_initialize_runs = refl
