-- ===== src/Read/Chain.antt =====
-- What a file holds behind a sector, by the layout of sectors and blocks on the flash, where no block
-- starts with an empty sector; and that `flogfs_read` of src/flogfs.c then comes to just these sectors.
use flog_fs.Base.{
  ℕ, zero, suc, ◌+◌, ◌/◌, ◌^◌, ◌<◌, ◌≤◌, ◌≡◌, ◌≢◌, ◌∙◌, refl, sym, ap, true, false, none, some,
  List, [], ◌++◌, ◌==◌, if◌then◌else◌, arith, subst,
}
use flog_fs.Structs.{read_file_init, tail_sector, read_file_tail, invalid_sector_spare}
use flog_fs.Flash.{Chip}
use flog_fs.Fs.{Params, ReadFile}
use flog_fs.Write.Order.{Follows, Follows-flog_increment_sector}
use flog_fs.Read.{data_offset}
use flog_fs.Read.Contents.{
  bytes_of, spare_of, following, behind, next_block_position, next_sector_position, IsPlaced,
  IsReadable,
}
use flog_fs.Read.Stream.{IsReader, unread}

-- the header of the last sector of a block, of the first one, and of the others
abbrev pub header_bytes : ℕ → ℕ
header_bytes sector = if sector == 3 then 16 else if sector == 1 then 12 else 0

module _ (c : Chip) where
  abbrev pub nbytes_of : (block sector : ℕ) → ℕ
  nbytes_of block sector = (spare_of c block sector).nbytes

  -- the bytes behind the header, as many as the spare area says
  abbrev pub data_in : (block sector : ℕ) → List ℕ
  data_in block sector = bytes_of c block sector (header_bytes sector) (nbytes_of block sector)

  abbrev IsBlank : (block sector : ℕ) → Type 0
  IsBlank block sector =
      ((spare_of c block sector).type_id ≡ 0xff) × (nbytes_of block sector ≡ 0xffff)

  -- the block that the last sector of a block names, and the file of a block
  abbrev named : ℕ → ℕ
  named block = (read_file_tail (bytes_of c block 3 0 16)).universal.next_block

  abbrev file_of : ℕ → ℕ
  file_of block = (read_file_init (bytes_of c block 1 0 12)).file_id

  module _ (params : Params) (id : ℕ) where
    -- The file ends with a sector: the next one is blank, or the next block is of another file.
    pub data Ends (block sector : ℕ) : Type 0 where
      blank_next :
          (next : ℕ)
          → sector ≢ 3
          → Follows params sector next
          → IsBlank block next
          → Ends block sector
      other_file : sector ≡ 3 → file_of (named block) ≢ id → Ends block sector

    -- The file goes on in the same block, or in the first sector of the next one, which has data.
    pub data GoesOn (block sector next_block next : ℕ) : Type 0 where
      same_block :
          sector ≢ 3
          → Follows params sector next
          → ¬ IsBlank block next
          → next_block ≡ block
          → GoesOn block sector next_block next
      new_block :
          sector ≡ 3
          → next_block ≡ named block
          → file_of next_block ≡ id
          → next ≡ 1
          → nbytes_of next_block 1 ≢ 0
          → GoesOn block sector next_block next

    module _ (blocks : ℕ) where
      pub record IsInside (block sector : ℕ) : Type 0 where
        pub block_in : block < blocks
        pub page_in : sector / 4 < c.pages_per_block
        pub fits : header_bytes sector + nbytes_of block sector ≤ 512

      -- Behind a sector, the file has the bytes in `k` sectors.
      abbrev pub Holds : ℕ → (block sector : ℕ) → List ℕ → Type 0
      Holds zero block sector bytes = Ends block sector × (bytes ≡ [])
      Holds (suc k) block sector bytes =
          (next_block : ℕ) × (next : ℕ) × (rest : List ℕ) × GoesOn block sector next_block next
          × IsInside next_block next
          × (bytes ≡ data_in next_block next ++ rest)
          × Holds k next_block next rest

pub data_offset-header_bytes : (sector : ℕ) → data_offset sector ≡ header_bytes sector
data_offset-header_bytes sector = ground arith

module _ (c : Chip) (params : Params) (id : ℕ) (block sector : ℕ) where
  Ends-following : Ends c params id block sector → following c params id block sector ≡ none
  unfolding following next_block_position next_sector_position
  Ends-following (blank_next next inside follows (type, nbytes)) =
      let elsewhere : (sector == tail_sector) ≡ false = ground (arith, inside) in
      let step = Follows-flog_increment_sector params sector next follows in
      let blank : invalid_sector_spare (spare_of c block next) ≡ true =
        ground (arith, type, nbytes) in
      rw (elsewhere, step, blank) refl
  Ends-following (other_file last other) =
      let there : (sector == tail_sector) ≡ true = ground (arith, last) in
      let differs : (file_of c (named c block) == id) ≡ false = ground (arith, other) in
      rw (there, differs) refl

  GoesOn-following :
      (next_block next : ℕ)
      → GoesOn c params id block sector next_block next
      → following c params id block sector
        ≡ some (record { block = next_block; sector = next; nbytes = nbytes_of c next_block next })
  unfolding following next_block_position next_sector_position
  GoesOn-following next_block next (same_block inside follows written e) =
      let elsewhere : (sector == tail_sector) ≡ false = ground (arith, inside) in
      let step = Follows-flog_increment_sector params sector next follows in
      let not_blank : invalid_sector_spare (spare_of c block next) ≡ false =
        ground (arith, written) in
      rw (elsewhere, step, not_blank, e) refl
  GoesOn-following next_block next (new_block last e same first some_data) =
      let there : (sector == tail_sector) ≡ true = ground (arith, last) in
      let own : (file_of c (named c block) == id) ≡ true =
        ground (arith, subst (λ b. file_of c b ≡ id) e same) in
      let full : (nbytes_of c (named c block) 1 == 0) ≡ false =
        ground (arith, subst (λ b. nbytes_of c b 1 ≢ 0) e some_data) in
      rw (there, own, full, e, first) refl

module _ (c : Chip) (params : Params) (id blocks : ℕ) where
  placed :
      (block sector : ℕ)
      → IsInside c params id blocks block sector
      → IsPlaced c params id blocks
          (record { block = block; sector = sector; nbytes = nbytes_of c block sector })
  placed block sector h = record {
    block_in = h.block_in;
    page_in = h.page_in;
    fits =
        subst (λ o. o + nbytes_of c block sector ≤ 512) (sym (data_offset-header_bytes sector))
          h.fits;
  }

  -- What a file holds behind a sector is what the loop of `flogfs_read` comes to.
  pub Holds-IsReadable :
      (k block sector : ℕ) (bytes : List ℕ)
      → Holds c params id blocks k block sector bytes
      → IsReadable c params id blocks k block sector
  Holds-IsReadable zero block sector bytes h = Ends-following c params id block sector h.0
  Holds-IsReadable (suc k) block sector bytes (next_block, next, rest, on, inside, e, h) =
      rw (GoesOn-following c params id block sector next_block next on, IsReadable)
        (placed next_block next inside, Holds-IsReadable k next_block next rest h)

  pub Holds-behind :
      (k block sector : ℕ) (bytes : List ℕ)
      → Holds c params id blocks k block sector bytes
      → behind c params id k block sector ≡ bytes
  unfolding behind
  Holds-behind zero block sector bytes h = sym h.1
  Holds-behind (suc k) block sector bytes (next_block, next, rest, on, inside, e, h) =
      let found = GoesOn-following c params id block sector next_block next on in
      rw (found, behind)
        (ap
            (λ o.
              bytes_of c next_block next o (nbytes_of c next_block next)
              ++ behind c params id k next_block next)
            (data_offset-header_bytes next)
          ∙ (ap (λ l. data_in c next_block next ++ l) (Holds-behind k next_block next rest h)
              ∙ sym e))

-- The file has a sector to read from in the chip, and then the bytes in `k` sectors.
pub record IsBefore (c : Chip) (params : Params) (blocks k : ℕ) (f : ReadFile) (later : List ℕ)
    : Type 0 where
  pub block_in : f.block < blocks
  pub page_in : f.sector / 4 < c.pages_per_block
  pub fits : f.offset + f.sector_remaining_bytes ≤ 512
  pub head_in : f.read_head < 2 ^ 32
  pub holds : Holds c params f.id blocks k f.block f.sector later

-- what is left of its sector, and then those bytes
abbrev pub left_and : Chip → ReadFile → List ℕ → List ℕ
left_and c f later = bytes_of c f.block f.sector f.offset f.sector_remaining_bytes ++ later

module _ (c : Chip) (params : Params) (blocks k : ℕ) (f : ReadFile) (later : List ℕ)
    (h : IsBefore c params blocks k f later) where
  pub IsBefore-IsReader : IsReader c params blocks k f
  IsBefore-IsReader = record {
    block_in = h.block_in;
    page_in = h.page_in;
    fits = h.fits;
    head_in = h.head_in;
    readable = Holds-IsReadable c params f.id blocks k f.block f.sector later h.holds;
  }

  pub IsBefore-unread : unread c params k f ≡ left_and c f later
  IsBefore-unread =
      ap (λ l. bytes_of c f.block f.sector f.offset f.sector_remaining_bytes ++ l)
        (Holds-behind c params f.id blocks k f.block f.sector later h.holds)
