-- ===== src/Sd/Closed.antt =====
-- The field `inBlock` of sd_raw_t, over the commands of backends/arduino-sd/sd_raw.cpp.
use Prim.Native.Nat.{bit_and}
use flog_fs.Base.{
  ℕ, zero, suc, ◌≡◌, refl, Bool, true, false, not, List, [], ◌∷◌, ltb, if◌then◌else◌, ◌==◌, sub32,
}
use flog_fs.Sd.{
  Board, SdRaw, Port, set_sd, set_status, on_board, from_board, sd_raw_cs_high, sd_raw_cs_low,
  sd_raw_spi_read, sd_raw_spi_write, flush_loop, sd_raw_flush, read_end_loop, sd_raw_read_end,
  response_loop, sd_raw_command, sd_raw_error, wait_loop, sd_wait_start_block, sd_raw_read_timeout,
  sd_card_error_read_timeout,
}
use flog_fs.Sd.Card.{read_bytes}
use flog_fs.Sd.Data.{write_bytes}
use flog_fs.Run.{Run, ok, panic, Cmd, out_of_fuel}
use flog_fs.Run.Keeps.{
  Holds, holds, stopped, spent, Keeps, Keeps-pure, Keeps-bind, Keeps-then, Keeps-if, Keeps-fail,
  Holds-bind, Holds-mono, keeps_rules,
}

pub record IsClosed {D : Type 0} (p : Port D) : Type 0 where
  pub closed : p.sd.in_block ≡ false

-- A change of the driver's record that does not begin to read a block.
pub Keeps-set_sd :
    {D : Type 0} (f : SdRaw → SdRaw)
    → ((sd : SdRaw) → sd.in_block ≡ false → (f sd).in_block ≡ false)
    → Keeps (IsClosed {D = D}) (set_sd f)
unfolding set_sd
Keeps-set_sd f keep = record { at = λ p h. holds (record { closed = keep p.sd h.closed }) }

pub Keeps-set_status : {D : Type 0} (v : ℕ) → Keeps (IsClosed {D = D}) (set_status v)
Keeps-set_status v = Keeps-set_sd _ (λ sd h. h)

pub Keeps-on_board : {D : Type 0} (f : D → D) → Keeps IsClosed (on_board f)
unfolding on_board
Keeps-on_board f = record { at = λ p h. holds (record { closed = h.closed }) }

pub Keeps-from_board : {D A : Type 0} (f : D → A × D) → Keeps IsClosed (from_board f)
unfolding from_board
Keeps-from_board f = record { at = λ p h. holds (record { closed = h.closed }) }

pub ruleset closed_rules = (keeps_rules, Keeps-set_status, Keeps-on_board, Keeps-from_board)

pub Holds-any : {S A : Type 0} (r : Run S A) → Holds (λ _. Unit {0}) r
Holds-any (ok a s) = holds tt
Holds-any panic = stopped
Holds-any out_of_fuel = spent

pub Holds-if :
    {S A : Type 0} {P : S → Type 0} (b : Bool) (m n : Cmd S A) (s : S)
    → (b ≡ true → Holds P (m s))
    → (b ≡ false → Holds P (n s))
    → Holds P ((if b then m else n) s)
Holds-if true m n s first other = first refl
Holds-if false m n s first other = other refl

not-true : (b : Bool) → not b ≡ true → b ≡ false
not-true true e = cc
not-true false e = refl

module _ {D : Type 0} (board : Board D) where
  pub Keeps-sd_raw_spi_read : Keeps IsClosed (sd_raw_spi_read board)
  unfolding sd_raw_spi_read
  Keeps-sd_raw_spi_read = search closed_rules depth 20

  pub Keeps-sd_raw_spi_write : (v : ℕ) → Keeps IsClosed (sd_raw_spi_write board v)
  unfolding sd_raw_spi_write
  Keeps-sd_raw_spi_write v = search closed_rules depth 20

  pub Keeps-sd_raw_cs_low : Keeps IsClosed (sd_raw_cs_low board)
  unfolding sd_raw_cs_low
  Keeps-sd_raw_cs_low = search closed_rules depth 20

  pub Keeps-sd_raw_cs_high : Keeps IsClosed (sd_raw_cs_high board)
  unfolding sd_raw_cs_high
  Keeps-sd_raw_cs_high = search closed_rules depth 20

  pub ruleset bus_rules = (
    closed_rules, Keeps-sd_raw_spi_read, Keeps-sd_raw_spi_write, Keeps-sd_raw_cs_low,
    Keeps-sd_raw_cs_high,
  )

  pub Keeps-sd_raw_error : (error : ℕ) → Keeps IsClosed (sd_raw_error board error)
  unfolding sd_raw_error
  Keeps-sd_raw_error error = search bus_rules depth 20

  Keeps-flush_loop : (k t0 timeout : ℕ) → Keeps IsClosed (flush_loop board k t0 timeout)
  unfolding flush_loop
  Keeps-flush_loop zero t0 timeout = Keeps-fail
  Keeps-flush_loop (suc k) t0 timeout =
      Keeps-bind (sd_raw_spi_read board) _ Keeps-sd_raw_spi_read (λ byte.
        Keeps-if (byte == 0xff) _ _ (Keeps-pure true) (
          Keeps-bind (from_board board.millis) _ (Keeps-from_board _) (λ now.
            Keeps-if (ltb (sub32 now t0) timeout) _ _ (Keeps-flush_loop k t0 timeout)
              (Keeps-pure false))))

  pub Keeps-sd_raw_flush : (timeout : ℕ) → Keeps IsClosed (sd_raw_flush board timeout)
  unfolding sd_raw_flush
  Keeps-sd_raw_flush timeout = search (bus_rules, Keeps-flush_loop) depth 20

  Keeps-response_loop : (k : ℕ) → Keeps IsClosed (response_loop board k)
  unfolding response_loop
  Keeps-response_loop zero = search bus_rules depth 20
  Keeps-response_loop (suc k) =
      Keeps-bind (sd_raw_spi_read board) _ Keeps-sd_raw_spi_read (λ status.
        Keeps-then (set_status status) _ (Keeps-set_status status)
          (Keeps-if (bit_and status 0x80 == 0) _ _ (Keeps-pure tt) (Keeps-response_loop k)))

  Keeps-wait_loop : (k t0 : ℕ) → Keeps IsClosed (wait_loop board k t0)
  unfolding wait_loop
  Keeps-wait_loop zero t0 = Keeps-fail
  Keeps-wait_loop (suc k) t0 = Keeps-bind (sd_raw_spi_read board) _ Keeps-sd_raw_spi_read (λ status.
      Keeps-then (set_status status) _ (Keeps-set_status status) (
        Keeps-if (not (status == 0xff)) _ _ (Keeps-pure true) (
          Keeps-bind (from_board board.millis) _ (Keeps-from_board _) (λ now.
            Keeps-if (ltb sd_raw_read_timeout (sub32 now t0)) _ _
              (Keeps-sd_raw_error sd_card_error_read_timeout) (Keeps-wait_loop k t0)))))

  pub Keeps-sd_wait_start_block : Keeps IsClosed (sd_wait_start_block board)
  unfolding sd_wait_start_block
  Keeps-sd_wait_start_block = search (bus_rules, Keeps-wait_loop, Keeps-sd_raw_error) depth 30

  -- A block that is being read is left.
  pub Holds-sd_raw_read_end : (p : Port D) → Holds IsClosed (sd_raw_read_end board p)
  unfolding sd_raw_read_end set_sd on_board sd_raw_cs_high
  Holds-sd_raw_read_end p =
      Holds-if (not p.sd.in_block) _ _ p
        (λ out. holds (record { closed = not-true p.sd.in_block out }))
        (λ inside.
          Holds-bind (Holds-any (read_end_loop board 515 p))
            (λ _ q _. holds (record { closed = refl })))

  pub Keeps-sd_raw_read_end : Keeps IsClosed (sd_raw_read_end board)
  Keeps-sd_raw_read_end = record { at = λ p h. Holds-sd_raw_read_end p }

  pub Keeps-sd_raw_command : (command arg : ℕ) → Keeps IsClosed (sd_raw_command board command arg)
  unfolding sd_raw_command
  Keeps-sd_raw_command command arg =
      search (bus_rules, Keeps-sd_raw_read_end, Keeps-sd_raw_flush, Keeps-response_loop) depth 40

  pub Keeps-read_bytes : (n : ℕ) → Keeps IsClosed (read_bytes board n)
  unfolding read_bytes
  Keeps-read_bytes zero = Keeps-pure []
  Keeps-read_bytes (suc n) = Keeps-bind (sd_raw_spi_read board) _ Keeps-sd_raw_spi_read (λ byte.
      Keeps-bind (read_bytes board n) _ (Keeps-read_bytes n) (λ rest. Keeps-pure (byte ∷ rest)))

  pub Keeps-write_bytes : (bs : List ℕ) → Keeps IsClosed (write_bytes board bs)
  unfolding write_bytes
  Keeps-write_bytes [] = Keeps-pure tt
  Keeps-write_bytes (b ∷ bs) =
      Keeps-then (sd_raw_spi_write board b) _ (Keeps-sd_raw_spi_write b) (Keeps-write_bytes bs)

  pub ruleset command_rules = (
    bus_rules, Keeps-sd_raw_read_end, Keeps-sd_raw_flush, Keeps-sd_raw_error,
    Keeps-sd_wait_start_block, Keeps-sd_raw_command, Keeps-read_bytes, Keeps-write_bytes,
  )
