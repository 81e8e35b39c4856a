-- ===== src/Sd/Clock.antt =====
-- The board's clock, and the loops of backends/arduino-sd/sd_raw.cpp that poll the card until a
-- time-out.
use flog_fs.Base.{
  ℕ, zero, suc, ◌+◌, ◌-◌, ◌*◌, ◌/◌, ◌%◌, ◌^◌, ◌<◌, ◌≤◌, ◌≡◌, Bool-cases, inl, inr, subst, ltb→lt,
  ltb-false→le, ◌==◌, ltb, sub32, arith,
}
use flog_fs.Sd.{
  Board, Port, set_sd, on_board, from_board, sd_raw_cs_high, sd_raw_spi_read, flush_loop,
  sd_raw_error, wait_loop, sd_raw_read_timeout,
}
use flog_fs.Run.Returns.{Returns, returns}

-- The clock of the board counts milliseconds in 32 bits. By a time in microseconds, exchanging a byte
-- takes one at least, and neither that nor reading the clock takes more than a second.
pub record IsClock {D : Type 0} (board : Board D) (time : D → ℕ) : Type 0 where
  pub millis : (d : D) → (board.millis d).0 ≡ time d / 1000 % 2 ^ 32
  pub millis_goes_on : (d : D) → time d ≤ time (board.millis d).1
  pub millis_is_short : (d : D) → time (board.millis d).1 ≤ time d + 1000_000
  pub transfer_goes_on : (b : ℕ) (d : D) → time d < time (board.transfer b d).1
  pub transfer_is_short : (b : ℕ) (d : D) → time (board.transfer b d).1 ≤ time d + 1000_000

-- The bound on the rounds of a polling loop is enough for the longest time-out.
abbrev pub Patient : {D : Type 0} → Port D → Type 0
Patient p = 10_000 * 1000 < p.polls

-- The clock has not come round within a time-out.
pub elapsed_lem :
    (start now : ℕ)
    → start ≤ now
    → now ≤ start + 12_000_000
    → sub32 (now / 1000 % 2 ^ 32) (start / 1000 % 2 ^ 32) ≡ now / 1000 - start / 1000
elapsed_lem start now lo hi = omega arith

module _ {D : Type 0} {board : Board D} {time : D → ℕ} (clock : IsClock board time) where
  -- `start` is the time at which the clock was read first.
  pub flush_loop-Returns :
      (k start timeout : ℕ) (p : Port D)
      → timeout ≤ 10_000
      → Patient p
      → start ≤ time p.device
      → time p.device ≤ start + timeout * 1000 + 1000_000
      → 0 < k
      → start + timeout * 1000 < time p.device + k
      → Returns (λ _ q. Patient q) (flush_loop board k (start / 1000 % 2 ^ 32) timeout p)
  unfolding flush_loop sd_raw_spi_read from_board
  flush_loop-Returns zero start timeout p short patient lo hi pos enough = absurd (omega arith)
  flush_loop-Returns (suc k) start timeout p short patient lo hi pos enough =
      let d = p.device in
      let e = (board.transfer 0xff d).1 in
      let now = time e in
      elim (Bool-cases ((board.transfer 0xff d).0 % 2 ^ 8 == 0xff)) [
        | inl ready ↦ rw ready (returns patient)
        | inr busy ↦
            elim (Bool-cases (ltb (sub32 (now / 1000 % 2 ^ 32) (start / 1000 % 2 ^ 32)) timeout)) [
              | inr over ↦ rw (busy, clock.millis e, over) (returns patient)
              | inl waiting ↦
                  let goes = clock.transfer_goes_on 0xff d in
                  let brief = clock.transfer_is_short 0xff d in
                  let early : now / 1000 - start / 1000 < timeout =
                    subst (λ v. v < timeout)
                      (elapsed_lem start now (omega (arith, goes)) (omega (arith, brief)))
                      (ltb→lt _ _ waiting) in
                  rw (busy, clock.millis e, waiting)
                    (flush_loop-Returns k start timeout (record p { device = (board.millis e).1 })
                      short patient (omega (arith, goes, clock.millis_goes_on e))
                      (omega (arith, early, clock.millis_is_short e)) (omega (arith, early, goes))
                      (omega (arith, early, goes, clock.millis_goes_on e)))
            ]
      ]

  pub wait_loop-Returns :
      (k start : ℕ) (p : Port D)
      → Patient p
      → start ≤ time p.device
      → time p.device ≤ start + 1302_000
      → 0 < k
      → start + 302_000 < time p.device + k
      → Returns (λ _ q. Patient q) (wait_loop board k (start / 1000 % 2 ^ 32) p)
  unfolding set_sd on_board wait_loop sd_raw_spi_read sd_raw_error sd_raw_cs_high from_board
  wait_loop-Returns zero start p patient lo hi pos enough = absurd (omega arith)
  wait_loop-Returns (suc k) start p patient lo hi pos enough =
      let d = p.device in
      let e = (board.transfer 0xff d).1 in
      let now = time e in
      elim (Bool-cases ((board.transfer 0xff d).0 % 2 ^ 8 == 0xff)) [
        | inr came ↦ rw came (returns patient)
        | inl idle ↦
            elim (Bool-cases
              (ltb sd_raw_read_timeout (sub32 (now / 1000 % 2 ^ 32) (start / 1000 % 2 ^ 32)))) [
                | inl over ↦ rw (idle, clock.millis e, over) (returns patient)
                | inr waiting ↦
                    let goes = clock.transfer_goes_on 0xff d in
                    let brief = clock.transfer_is_short 0xff d in
                    let early : now / 1000 - start / 1000 ≤ 300 =
                      subst (λ v. v ≤ 300)
                        (elapsed_lem start now (omega (arith, goes)) (omega (arith, brief)))
                        (ltb-false→le _ _ waiting) in
                    rw (idle, clock.millis e, waiting)
                      (wait_loop-Returns k start _ patient
                        (omega (arith, goes, clock.millis_goes_on e))
                        (omega (arith, early, clock.millis_is_short e)) (omega (arith, early, goes))
                        (omega (arith, early, goes, clock.millis_goes_on e)))
              ]
      ]
