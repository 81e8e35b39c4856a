-- ===== src/Read/Loop.antt =====
-- The loop of `flogfs_read` of src/flogfs.c, along the stream of the file.
use flog_fs.Base.{
  ℕ, zero, suc, ◌+◌, ◌-◌, ◌^◌, ◌<◌, ◌≤◌, ◌≡◌, ◌∙◌, refl, sym, ap, subst, Option-cases, Bool-cases,
  inl, inr, List, [], ◌++◌, ◌==◌, not, if◌then◌else◌, min, add32, length, take, drop, take-nil,
  drop-nil, arith, length-append,
}
use flog_fs.Flash.{Chip}
use flog_fs.Flash.Address.{IsGeometry}
use flog_fs.Bytes.RoundTrip.{length-load_bytes}
use flog_fs.Fs.{Fs, Params, ReadFile}
use flog_fs.Fs.Cache.{IsCoherent}
use flog_fs.Prealloc.Queue.{IsPrealloc}
use flog_fs.Inode.{table_bound}
use flog_fs.Read.{flogfs_read, refill, take_bytes, read_loop, enter_sector}
use flog_fs.Read.Contents.{following}
use flog_fs.Read.Quiet.{IsQuiet}
use flog_fs.Read.Steps.{refill-IsRefilled, refill-nothing, take_bytes-IsReading}
use flog_fs.Read.Stream.{
  IsReader, unread, Streamed, unread-none, unread-some, pass-IsReader, stay, entered, joined,
}
use flog_fs.Run.{pure, ◌>>=◌, fetch}
use flog_fs.Run.Returns
use flog_fs.Run.Returns.{Returns, returns}

module _ (c : Chip) (params : Params) (blocks : ℕ) (geometry : IsGeometry c.pages_per_block blocks)
    (file : ℕ) where
  -- What is known of the reads on less fuel.
  abbrev Streams : ℕ → Type 0
  Streams fuel =
      (k n count : ℕ) (dst : List ℕ) (s : Fs)
      → IsQuiet c params s
      → IsReader c params blocks k (s.read_files file)
      → count ≡ length dst
      → count + n < 2 ^ 32
      → n + k < fuel
      → Returns (Streamed c params blocks file k (s.read_files file) n dst)
          (read_loop fuel file n count dst s)

  module _ (fuel : ℕ) (ih : Streams fuel) where
    drain :
        (k n count : ℕ) (dst : List ℕ) (s : Fs)
        → IsQuiet c params s
        → IsReader c params blocks k (s.read_files file)
        → count ≡ length dst
        → count + n < 2 ^ 32
        → let to_read = min n (s.read_files file).sector_remaining_bytes in
          n + k < fuel + to_read
          → Returns (Streamed c params blocks file k (s.read_files file) n dst) (
              (if to_read == 0 then read_loop fuel file n count dst else do
                bytes ← take_bytes file to_read
                read_loop fuel file (n - to_read) (add32 count to_read) (dst ++ bytes))
                s)
    drain k n count dst s q h e small enough =
        let f = s.read_files file in
        let to_read = min n f.sector_remaining_bytes in
        Returns.branch (to_read == 0) _ _ s (λ z. ih k n count dst s q h e small (ground arith))
          (λ z. Returns.bind (take_bytes-IsReading c params file s q to_read) λ got t (eg, at).
            Returns.mono
              (ih k (n - to_read) (add32 count to_read) (dst ++ got) t at.0
                (subst (IsReader c params blocks k) (sym at.1)
                  (pass-IsReader c params blocks geometry file k to_read f h (omega arith)))
                (omega (arith, length-append dst got, ap length eg, length-load_bytes _ _ to_read))
                (omega arith) (ground arith))
              (λ r u w.
                joined c params blocks geometry file k n to_read dst got f r u h (omega arith)
                  (omega arith) eg
                  (subst
                    (λ (g : ReadFile).
                      Streamed c params blocks file k g (n - to_read) (dst ++ got) r u)
                    at.1 w)))

    -- A round at the end of a sector.
    next_round :
        (k n count : ℕ) (dst : List ℕ) (s : Fs)
        → IsQuiet c params s
        → IsReader c params blocks k (s.read_files file)
        → count ≡ length dst
        → count + n < 2 ^ 32
        → n + k < suc fuel
        → (s.read_files file).sector_remaining_bytes ≡ 0
        → Returns (Streamed c params blocks file k (s.read_files file) n dst) (
            (do
              more ← refill file
              if not more then pure (count, dst) else do
                s ← fetch
                let to_read = min n (s.read_files file).sector_remaining_bytes
                if to_read == 0 then read_loop fuel file n count dst else do
                  bytes ← take_bytes file to_read
                  read_loop fuel file (n - to_read) (add32 count to_read) (dst ++ bytes))
              s)
    unfolding enter_sector
    next_round k n count dst s q h e small enough z =
        let f = s.read_files file in
        let step = refill-IsRefilled c params file s q z in
        elim (Option-cases (following c params f.id f.block f.sector)) [
          | inl en ↦ Returns.bind (rw en at step) λ more t (m, at).
              Returns.branch (not more) _ _ t
                (λ _. returns (
                  let nothing = unread-none c params blocks k f z en in
                  stay c params blocks geometry file k n count dst f t at h e
                    (ap (take n) nothing ∙ take-nil n)
                    (ap (drop n) nothing ∙ (drop-nil n ∙ sym nothing))))
                (λ y. absurd (ground (arith, m, y)))
          | inr (p, es) ↦ Returns.bind (rw es at step) λ more t (m, at).
              Returns.branch (not more) _ _ t (λ y. absurd (ground (arith, m, y)))
                (λ _.
                  let i = unread-some c params blocks k f p h z es in
                  Returns.mono
                    (drain i.left n count dst t at.0
                      (subst (IsReader c params blocks i.left) (sym at.1) i.reader) e small
                      (omega (arith, enough, i.fewer)))
                    (λ r u w. entered c params blocks geometry file k n dst f p r u i (
                      subst (λ (g : ReadFile). Streamed c params blocks file i.left g n dst r u)
                        at.1 w)))
        ]

    -- A round.
    read_loop-Streamed-suc : Streams (suc fuel)
    unfolding read_loop
    read_loop-Streamed-suc k n count dst s q h e small enough =
        let f = s.read_files file in
        Returns.branch (n == 0) _ _ s
          (λ z.
            let none_asked : n ≡ 0 = ground arith in
            returns (
              stay c params blocks geometry file k n count dst f s (q, refl) h e
                (ap (λ j. take j (unread c params k f)) none_asked)
                (ap (λ j. drop j (unread c params k f)) none_asked)))
          (λ more_asked. elim (Bool-cases (f.sector_remaining_bytes == 0)) [
            | inl z ↦ next_round k n count dst s q h e small enough (ground arith)
            | inr left ↦
                rw (refill-nothing file s (ground arith))
                  (drain k n count dst s q h e small (ground arith))
          ])

  -- With enough fuel, the loop returns.
  pub read_loop-Streamed : (fuel : ℕ) → Streams fuel
  read_loop-Streamed zero = λ k n count dst s q h e small enough. absurd (omega arith)
  read_loop-Streamed (suc fuel) = read_loop-Streamed-suc fuel (read_loop-Streamed fuel)

  pub flogfs_read-Streamed :
      (k n : ℕ) (s : Fs)
      → IsQuiet c params s
      → IsReader c params blocks k (s.read_files file)
      → k ≤ table_bound params
      → n < 2 ^ 32
      → Returns (Streamed c params blocks file k (s.read_files file) n []) (flogfs_read file n s)
  unfolding flogfs_read
  flogfs_read-Streamed k n s q reader few small =
      read_loop-Streamed _ k n 0 [] s q reader refl (omega arith)
        (let same = ap table_bound q.configured in omega (arith, few, same))

pub IsCoherent-IsQuiet :
    (free avs pending : List ℕ) (s : Fs)
    → IsCoherent s
    → IsPrealloc s.prealloc free avs pending
    → IsQuiet s.chip s.params s
IsCoherent-IsQuiet free avs pending s coherent lists = record {
  memory = refl;
  pages = refl;
  configured = refl;
  coherent = coherent;
  lists = (free, avs, pending, lists);
}

-- A read along the sectors that the loop comes to.
pub flogfs_read-unread :
    (file n k blocks : ℕ) (free avs pending : List ℕ) (s : Fs)
    → IsGeometry s.chip.pages_per_block blocks
    → IsCoherent s
    → IsPrealloc s.prealloc free avs pending
    → IsReader s.chip s.params blocks k (s.read_files file)
    → k ≤ table_bound s.params
    → n < 2 ^ 32
    → Returns
        (λ result t. Streamed s.chip s.params blocks file k (s.read_files file) n [] result t)
        (flogfs_read file n s)
flogfs_read-unread file n k blocks free avs pending s geometry coherent lists reader few small =
    flogfs_read-Streamed s.chip s.params blocks geometry file k n s
      (IsCoherent-IsQuiet free avs pending s coherent lists) reader few small
