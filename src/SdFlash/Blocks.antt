-- ===== src/SdFlash/Blocks.antt =====
-- Where the sectors of the file system are on the card, backends/arduino-sd/flogfs_arduino_sd.cpp, and
-- which of them an erase reaches.
use flog_fs.Base.{
  ℕ, ◌+◌, ◌*◌, ◌%◌, ◌^◌, ◌<◌, ◌≤◌, ◌≡◌, ◌⊎◌, ◌↔◌, refl, subst, ap, inl, inr, Bool, true, false,
  Bool-cases, ltb, ltb→lt, ltb-false→le, ◌==◌, if◌then◌else◌, not, add16, arith,
}
use native.Mathlib.Nat.{mul-le-mul_right}
use flog_fs.Structs.{flog_result}
use flog_fs.Flash.{internal_sectors_per_page}
use flog_fs.Sd.{
  Board, Port, SdRaw, sd_raw_command, sd_raw_flush, sd_raw_error, sd_raw_cs_high,
  sd_card_error_erase, sd_card_error_erase_single_block, sd_card_error_erase_timeout,
}
use flog_fs.Sd.Card.{sd_raw_erase, erase_commands, sd_raw_erase_single_block_enabled}
use flog_fs.SdFlash.{SdFlash, on_port, get_sd_block, flash_erase_block}
use flog_fs.Run.{Cmd, pure, ◌>>=◌, ◌>>◌, fetch}

-- The pages before a block are at least one block's fewer than those before a later one.
pages_before : (pages block other : ℕ) → block < other → block * pages + pages ≤ other * pages
pages_before pages block other earlier =
    subst (λ n. n ≤ other * pages) (pages_of_next pages block)
      (mul-le-mul_right {m = block + 1} {n = other} pages (omega arith))
  where
    pages_of_next : (pages block : ℕ) → (block + 1) * pages ≡ block * pages + pages
    pages_of_next pages block = omega arith

-- The blocks of the card from the first of a block of the file system to the first of the next one.
module _ (pages block other page sector : ℕ) (in_page : page < pages) (in_sector : sector < 5) where
  abbrev Spanned : Type 0
  Spanned =
      (block * pages * 5 ≤ other * pages * 5 + page * 5 + sector)
      × (other * pages * 5 + page * 5 + sector ≤ (block + 1) * pages * 5)

  abbrev OwnOrNext : Type 0
  OwnOrNext = (other ≡ block) ⊎ ((other ≡ block + 1) × (page ≡ 0) × (sector ≡ 0))

  Spanned-OwnOrNext : Spanned → OwnOrNext
  Spanned-OwnOrNext (lo, hi) = elim (Bool-cases (ltb other block)) [
    | inl earlier ↦ absurd (omega (arith, pages_before pages other block (ltb→lt _ _ earlier)))
    | inr from ↦ elim (Bool-cases (ltb block other)) [
      | inr to ↦ inl (omega (arith, ltb-false→le _ _ from, ltb-false→le _ _ to))
      | inl after ↦ elim (Bool-cases (ltb (block + 1) other)) [
        | inl later ↦
            absurd (omega (arith, pages_before pages (block + 1) other (ltb→lt _ _ later)))
        | inr up ↦
            let next : other ≡ block + 1 = omega (arith, ltb→lt _ _ after, ltb-false→le _ _ up) in
            let start : other * pages ≡ (block + 1) * pages = ap (λ n. n * pages) next in
            inr (next, omega (arith, start), omega (arith, start))
      ]
    ]
  ]

  OwnOrNext-Spanned : OwnOrNext → Spanned
  OwnOrNext-Spanned (inl same) =
      let start : other * pages ≡ block * pages = ap (λ n. n * pages) same in
      (omega (arith, start), omega (arith, start))
  OwnOrNext-Spanned (inr (next, first, zeroth)) =
      let start : other * pages ≡ (block + 1) * pages = ap (λ n. n * pages) next in
      (omega (arith, start), omega (arith, start))

-- Cards of type 3, those of high capacity, are told the number of a block, others that of its first
-- byte, modulo 2 ^ 32.
abbrev address : SdRaw → ℕ → ℕ
address sd block = if sd.card_type == 3 then block else block * 512 % 2 ^ 32

module _ {D : Type 0} (board : Board D) (first last : ℕ) where
  -- Command 32 tells a card the first block of a range, 33 the last, and 38 has it erase them, each
  -- only if the card has answered the one before with 0.
  abbrev range_commands : SdRaw → Cmd (Port D) Bool
  range_commands sd = do
    status ← sd_raw_command board 32 (address sd first)
    if not (status == 0) then pure false else do
      status ← sd_raw_command board 33 (address sd last)
      if not (status == 0)
          then pure false
          else do status ← sd_raw_command board 38 0; pure (status == 0)

  -- a range, if the card erases single blocks, with ten seconds to do it
  abbrev pub erase_range : Cmd (Port D) Bool
  erase_range = do
    enabled ← sd_raw_erase_single_block_enabled board
    if not enabled then sd_raw_error board sd_card_error_erase_single_block else do
      p ← fetch
      erased ← range_commands p.sd
      if not erased then sd_raw_error board sd_card_error_erase else do
        flushed ← sd_raw_flush board 10_000
        if not flushed
            then sd_raw_error board sd_card_error_erase_timeout
            else do sd_raw_cs_high board; pure true

module _ {D : Type 0} (board : Board D) (s : SdFlash D) (block other page sector : ℕ) where
  -- Let a block of the file system, the one after it, which 16 bits can number, and the places of any
  -- block have addresses that do not exceed 32 bits. Then there are two blocks of the card, such that an erase of the block
  -- tells the card the one as the first with command 32 and the other as the last with command 33, in
  -- blocks or bytes by the type of the card, then has it erase with command 38, stopping at the first
  -- answer that is not 0; and a place lies from the one to the other, both included, exactly if it is
  -- one of the erased block or the first one of the block after it.
  pub flash_erase_block-get_sd_block :
      block + 1 < 2 ^ 16
      → page < s.pages_per_block
      → sector < internal_sectors_per_page
      → (block + 1) * s.pages_per_block * internal_sectors_per_page < 2 ^ 32
      → (other + 1) * s.pages_per_block * internal_sectors_per_page < 2 ^ 32
      → (first : ℕ) × (last : ℕ) × (flash_erase_block board block s
          ≡ (on_port (erase_range board first last) >>= (λ erased. pure (flog_result erased)))
              (record s { last_block_erased = block }))
        × (((first ≤ get_sd_block s.pages_per_block other page sector)
              × (get_sd_block s.pages_per_block other page sector ≤ last))
            ↔ ((other ≡ block) ⊎ ((other ≡ block + 1) × (page ≡ 0) × (sector ≡ 0))))
  unfolding flash_erase_block get_sd_block sd_raw_erase erase_commands
  flash_erase_block-get_sd_block in_range in_page in_sector fits other_fits =
      let pages = s.pages_per_block in
      let next : add16 block 1 ≡ block + 1 = omega (arith, in_range) in
      let first : (block * pages * 5 + 0 + 0) % 2 ^ 32 ≡ block * pages * 5 = omega (arith, fits) in
      let last : ((block + 1) * pages * 5 + 0 + 0) % 2 ^ 32 ≡ (block + 1) * pages * 5 =
        omega (arith, fits) in
      let at : (other * pages * 5 + page * 5 + sector) % 2 ^ 32
          ≡ other * pages * 5 + page * 5 + sector =
        omega (arith, other_fits, in_page, in_sector) in
      (
        get_sd_block pages block 0 0,
        get_sd_block pages (add16 block 1) 0 0,
        refl,
        rw (next, first, last, at)
            (
              Spanned-OwnOrNext pages block other page sector in_page in_sector,
              OwnOrNext-Spanned pages block other page sector in_page in_sector,
            ),
      )
