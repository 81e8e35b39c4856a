-- ===== src/Sd/Left.antt =====
-- The block that is being read, over reading, writing and erasing in
-- backends/arduino-sd/sd_raw.cpp.
use flog_fs.Base.{ℕ, ◌≡◌, refl, Bool, true, false, not, ◌||◌, ◌==◌, ltb, if◌then◌else◌, List}
use flog_fs.Sd.{
  Board, Port, set_sd, sd_raw_read_end, sd_raw_command, sd_wait_start_block, sd_card_error_cmd17,
  sd_card_error_general,
}
use flog_fs.Sd.Card.{
  card_address, read_bytes, sd_raw_read_register, sd_raw_read_csd,
  sd_raw_erase_single_block_enabled, erase_commands, sd_raw_erase,
}
use flog_fs.Sd.Data.{
  ReadResult, read_failed, bytes_read, moved_on, open_block, skip_to, read_within, overlaid,
  block_memory, sd_raw_read_data, sd_raw_read_block, write_token_data, programmed,
  sd_raw_write_block, write_over, sd_raw_write_data,
}
use flog_fs.Sd.Closed.{
  IsClosed, command_rules, Holds-any, Holds-sd_raw_read_end, Keeps-set_sd, Keeps-sd_raw_command,
  Keeps-sd_raw_error, Keeps-sd_wait_start_block,
}
use flog_fs.Run.{Run, Cmd, pure, and_then, fetch, ◌>>=◌, ◌>>◌}
use flog_fs.Run.Yields
use flog_fs.Run.Yields.{Yields, yields, none_stopped, none_spent}
use flog_fs.Run.Keeps.{Holds, holds, stopped, spent, Keeps, Keeps-pure, Keeps-fetch, Holds-bind}

-- From a state in which no block is being read, none is unless the result is `true`.
record Opens {D : Type 0} (m : Cmd (Port D) Bool) : Type 0 where
  pub at : (p : Port D) → IsClosed p → Yields (λ opened q. opened ≡ false → IsClosed q) (m p)

module _ {D : Type 0} where
  Opens-Keeps : (m : Cmd (Port D) Bool) → Keeps IsClosed m → Opens m
  Opens-Keeps m keeps = record { at = λ p h. still_closed (keeps.at p h) }
    where
      still_closed :
          {r : Run (Port D) Bool}
          → Holds IsClosed r
          → Yields (λ opened q. opened ≡ false → IsClosed q) r
      still_closed (holds h) = yields (λ _. h)
      still_closed stopped = none_stopped
      still_closed spent = none_spent

  Opens-bind :
      {A : Type 0} (m : Cmd (Port D) A) (k : A → Cmd (Port D) Bool)
      → Keeps IsClosed m
      → ((a : A) → Opens (k a))
      → Opens (m >>= k)
  Opens-bind m k keeps next = record {
    at = λ p h. Yields.after (keeps.at p h) (λ a q closed. (next a).at q closed);
  }

  Opens-then :
      {A : Type 0} (m : Cmd (Port D) A) (n : Cmd (Port D) Bool)
      → Keeps IsClosed m
      → Opens n
      → Opens (m >> n)
  Opens-then m n keeps next = record {
    at = λ p h. Yields.after (keeps.at p h) (λ a q closed. next.at q closed);
  }

  Opens-if : (b : Bool) (m n : Cmd (Port D) Bool) → Opens m → Opens n → Opens (if b then m else n)
  Opens-if true m n h k = h
  Opens-if false m n h k = k

  Opens-true : Opens {D = D} (pure true)
  Opens-true = record { at = λ p h. yields (λ e. cc) }

  Opens-any : {A : Type 0} (m : Cmd (Port D) A) → Opens (m >> pure true)
  Opens-any m = record { at = λ p h. Yields.after (Holds-any (m p)) (λ _ q _. yields (λ e. cc)) }

-- From any state, none is being read.
record Closes {D A : Type 0} (m : Cmd (Port D) A) : Type 0 where
  pub at : (p : Port D) → Holds IsClosed (m p)

module _ {D A B : Type 0} where
  Closes-bind :
      (m : Cmd (Port D) A) (k : A → Cmd (Port D) B) → ((a : A) → Closes (k a)) → Closes (m >>= k)
  Closes-bind m k next = record { at = λ p. Holds-bind (Holds-any (m p)) (λ a q _. (next a).at q) }

  Closes-then : (m : Cmd (Port D) A) (n : Cmd (Port D) B) → Closes n → Closes (m >> n)
  Closes-then m n next = record { at = λ p. Holds-bind (Holds-any (m p)) (λ a q _. next.at q) }

Keeps-after_opening :
    {D A : Type 0} (m : Cmd (Port D) Bool) (k : Bool → Cmd (Port D) A)
    → Opens m
    → Keeps IsClosed (k false)
    → Closes (k true)
    → Keeps IsClosed (m >>= k)
Keeps-after_opening {D} {A} m k opens keeps closes = record { at = λ p h. after (opens.at p h) }
  where
    continued :
        (opened : Bool) (q : Port D) → (opened ≡ false → IsClosed q) → Holds IsClosed (k opened q)
    continued true q h = closes.at q
    continued false q h = keeps.at q (h refl)

    after :
        {r : Run (Port D) Bool}
        → Yields (λ opened q. opened ≡ false → IsClosed q) r
        → Holds IsClosed (and_then r k)
    after (yields h) = continued _ _ h
    after none_stopped = stopped
    after none_spent = spent

module _ {D : Type 0} (board : Board D) where
  pub Keeps-sd_raw_read_register :
      (command : ℕ) → Keeps IsClosed (sd_raw_read_register board command)
  unfolding sd_raw_read_register
  Keeps-sd_raw_read_register command = search command_rules depth 40

  Keeps-sd_raw_erase_single_block_enabled : Keeps IsClosed (sd_raw_erase_single_block_enabled board)
  unfolding sd_raw_erase_single_block_enabled sd_raw_read_csd
  Keeps-sd_raw_erase_single_block_enabled =
      search (command_rules, Keeps-sd_raw_read_register) depth 40

  Keeps-erase_commands : (first last : ℕ) → Keeps IsClosed (erase_commands board first last)
  unfolding erase_commands
  Keeps-erase_commands first last = search command_rules depth 40

  pub Keeps-sd_raw_erase : (first last : ℕ) → Keeps IsClosed (sd_raw_erase board first last)
  unfolding sd_raw_erase
  Keeps-sd_raw_erase first last =
      search (command_rules, Keeps-sd_raw_erase_single_block_enabled, Keeps-erase_commands) depth 40

  Keeps-write_token_data :
      (token : ℕ) (source : List ℕ) → Keeps IsClosed (write_token_data board token source)
  unfolding write_token_data
  Keeps-write_token_data token source = search command_rules depth 40

  Keeps-programmed : Keeps IsClosed (programmed board)
  unfolding programmed
  Keeps-programmed = search command_rules depth 40

  Keeps-sd_raw_write_block :
      (block : ℕ) (source : List ℕ) → Keeps IsClosed (sd_raw_write_block board block source)
  unfolding sd_raw_write_block
  Keeps-sd_raw_write_block block source =
      search (command_rules, Keeps-write_token_data, Keeps-programmed) depth 40

  Opens-open_block : (block offset : ℕ) → Opens (open_block board block offset)
  unfolding open_block
  Opens-open_block block offset = Opens-bind fetch _ Keeps-fetch (λ p.
      Opens-if (not (not p.sd.in_block || (not (block == p.sd.block) || ltb offset p.sd.offset))) _
        _ Opens-true
        (Opens-then (set_sd (λ sd. record sd { block = block })) _ (Keeps-set_sd _ (λ sd k. k)) (
          Opens-bind (sd_raw_command board 0x11 (card_address p.sd block)) _
            (Keeps-sd_raw_command board 0x11 _)
            (λ status.
              Opens-if (not (status == 0)) _ _
                (Opens-Keeps _ (Keeps-sd_raw_error board sd_card_error_cmd17))
                (Opens-bind (sd_wait_start_block board) _ (Keeps-sd_wait_start_block board)
                  (λ started.
                    Opens-if (not started) _ _
                      (Opens-Keeps _ (Keeps-sd_raw_error board sd_card_error_general))
                      (Opens-any (set_sd (λ sd. record sd { offset = 0; in_block = true })))))))))

  Closes-end : {A : Type 0} (a : A) → Closes (sd_raw_read_end board >> pure a)
  Closes-end a = record { at = λ p. Holds-bind (Holds-sd_raw_read_end board p) (λ _ q h. holds h) }

  Keeps-read_within : (block offset size : ℕ) → Keeps IsClosed (read_within board block offset size)
  unfolding read_within
  Keeps-read_within block offset size =
      Keeps-after_opening (open_block board block offset) _ (Opens-open_block block offset)
        (Keeps-pure read_failed)
        (Closes-then (skip_to board offset) _ (
          Closes-bind (read_bytes board size) _
            (λ bytes. Closes-then (set_sd (moved_on size)) _ (Closes-end (bytes_read bytes)))))

  pub Keeps-sd_raw_read_data :
      (block offset size : ℕ) → Keeps IsClosed (sd_raw_read_data board block offset size)
  unfolding sd_raw_read_data
  Keeps-sd_raw_read_data block offset size = search (command_rules, Keeps-read_within) depth 40

  Keeps-write_over :
      (old : ReadResult) (block offset : ℕ) (source : List ℕ)
      → Keeps IsClosed (write_over board old block offset source)
  unfolding write_over
  Keeps-write_over read_failed block offset source = Keeps-pure false
  Keeps-write_over (bytes_read old) block offset source =
      Keeps-sd_raw_write_block block (overlaid (block_memory old) offset source)

  pub Keeps-sd_raw_write_data :
      (block offset : ℕ) (source : List ℕ) (preserve_partial_write : Bool)
      → Keeps IsClosed (sd_raw_write_data board block offset source preserve_partial_write)
  unfolding sd_raw_write_data sd_raw_read_block
  Keeps-sd_raw_write_data block offset source preserve_partial_write =
      search (command_rules, Keeps-sd_raw_read_data, Keeps-write_over, Keeps-sd_raw_write_block)
        depth 40
