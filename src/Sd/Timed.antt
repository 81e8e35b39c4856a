-- ===== src/Sd/Timed.antt =====
-- The loops of backends/arduino-sd/sd_raw.cpp that count, and the ones that wait for the card, as
-- commands.
use flog_fs.Base.{
  ℕ, zero, suc, ◌+◌, ◌<◌, ◌≤◌, true, false, not, Bool-cases, inl, inr, ltb, ◌==◌, arith,
}
use flog_fs.Sd.{
  Board, Port, set_sd, on_board, from_board, sd_raw_spi_read, sd_raw_flush, read_end_loop,
  sd_raw_error, sd_raw_cs_high, sd_wait_start_block, sd_raw_block_size, data_start_block,
  sd_card_error_read,
}
use flog_fs.Sd.Data.{skip_loop, skip_to}
use flog_fs.Sd.Clock.{IsClock, Patient, flush_loop-Returns, wait_loop-Returns}
use flog_fs.Sd.Completes.{IsServed}
use flog_fs.Run.{pure}
use flog_fs.Run.Returns
use flog_fs.Run.Returns.{Returns, returns}
use flog_fs.Run.Completes.{Completes, Completes-if, Completes-pure}

module _ {D : Type 0} (board : Board D) where
  read_end_loop-Returns :
      (k : ℕ) (p : Port D)
      → Patient p
      → 0 < k
      → sd_raw_block_size + 2 < p.sd.offset + k
      → Returns (λ _ q. Patient q) (read_end_loop board k p)
  unfolding set_sd read_end_loop sd_raw_spi_read from_board
  read_end_loop-Returns zero p patient pos enough = absurd (omega arith)
  read_end_loop-Returns (suc k) p patient pos enough =
      elim (Bool-cases (ltb p.sd.offset (sd_raw_block_size + 2))) [
        | inr over ↦ rw over (returns patient)
        | inl more ↦ rw more (read_end_loop-Returns k _ patient (ground arith) (ground arith))
      ]

  Completes-read_end_loop : Completes Patient (read_end_loop board (sd_raw_block_size + 3))
  Completes-read_end_loop = record {
    at = λ p patient. read_end_loop-Returns _ p patient (omega arith) (omega arith);
  }

  skip_loop-Returns :
      (k offset : ℕ) (p : Port D)
      → Patient p
      → offset ≤ sd_raw_block_size
      → 0 < k
      → offset < p.sd.offset + k
      → Returns (λ _ q. Patient q) (skip_loop board k offset p)
  unfolding set_sd skip_loop sd_raw_spi_read from_board
  skip_loop-Returns zero offset p patient fits pos enough = absurd (omega arith)
  skip_loop-Returns (suc k) offset p patient fits pos enough =
      elim (Bool-cases (ltb p.sd.offset offset)) [
        | inr over ↦ rw over (returns patient)
        | inl more ↦
            rw more (skip_loop-Returns k offset _ patient fits (ground arith) (ground arith))
      ]

  Completes-skip_to :
      (offset : ℕ) → offset ≤ sd_raw_block_size → Completes Patient (skip_to board offset)
  unfolding skip_to
  Completes-skip_to offset fits = record {
    at = λ p patient. skip_loop-Returns _ offset p patient fits (omega arith) (omega arith);
  }

  module _ {time : D → ℕ} (clock : IsClock board time) where
    Completes-sd_raw_flush :
        (timeout : ℕ) → timeout ≤ 10_000 → Completes Patient (sd_raw_flush board timeout)
    unfolding sd_raw_flush from_board
    Completes-sd_raw_flush timeout short = record {
      at = λ p patient. rw (clock.millis p.device) (
          flush_loop-Returns clock p.polls (time p.device) timeout
            (record p { device = (board.millis p.device).1 }) short patient
            (clock.millis_goes_on p.device) (omega (arith, clock.millis_is_short p.device))
            (omega arith) (omega (arith, clock.millis_goes_on p.device)));
    }

    Completes-sd_wait_start_block : Completes Patient (sd_wait_start_block board)
    unfolding sd_wait_start_block from_board on_board set_sd sd_raw_error sd_raw_cs_high
    Completes-sd_wait_start_block = record {
      at = λ p patient. rw (clock.millis p.device) (
          Returns.bind
            (wait_loop-Returns clock p.polls (time p.device)
              (record p { device = (board.millis p.device).1 }) patient
              (clock.millis_goes_on p.device) (omega (arith, clock.millis_is_short p.device))
              (omega arith) (omega (arith, clock.millis_goes_on p.device)))
            (λ came.
              (Completes-if (not came) (pure false) _ (Completes-pure false) (record {
                at = λ q h.
                    (Completes-if (q.sd.status == data_start_block) (pure true)
                        (sd_raw_error board sd_card_error_read) (Completes-pure true)
                        (record { at = λ r i. returns i })).at
                      q h;
              })).at));
    }

    pub Patient-IsServed : IsServed board Patient
    unfolding set_sd on_board from_board
    Patient-IsServed = record {
      set_sd_is = λ f. record { at = λ p h. returns h };
      on_board_is = λ f. record { at = λ p h. returns h };
      from_board_is = λ f. record { at = λ p h. returns h };
      read_end_loop_is = Completes-read_end_loop;
      skip_to_is = Completes-skip_to;
      flush_is = Completes-sd_raw_flush;
      wait_is = Completes-sd_wait_start_block;
    }
