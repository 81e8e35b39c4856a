-- ===== src/Write/Wrote.antt =====
-- Writes by the driver one after the other, as a commit of src/flogfs.c makes them.
use mathlib.Core.Path.{ap₂}
use flog_fs.Base.{
  ℕ, ◌+◌, ◌≤◌, ◌≡◌, ◌∙◌, inl, refl, sym, ap, arith, Bool, true, false, List, [], ◌∷◌, ◌++◌,
  if◌then◌else◌, length,
}
use flog_fs.Bytes.{load_bytes}
use flog_fs.Bytes.RoundTrip.{load_bytes-split, load_bytes-cong}
use flog_fs.Flash.{Chip}
use flog_fs.Flash.Wrote.{Wrote, Wrote-nothing}
use flog_fs.Fs.{Fs, CacheStatus, on_chip}
use flog_fs.Fs.Cache.{IsCoherent}
use flog_fs.Run.{Cmd, pure}
use flog_fs.Run.Returns
use flog_fs.Run.Returns.{Returns, returns}

-- Two writes one behind the other and one further on can all be read.
pub three_writes :
    (c c₁ c₂ c₃ : Chip) (base sp : ℕ) (d₁ d₂ marks : List ℕ)
    → base + (length d₁ + length d₂) ≤ sp
    → Wrote c base d₁ c₁
    → Wrote c₁ (base + length d₁) d₂ c₂
    → Wrote c₂ sp marks c₃
    → (load_bytes c₃.mapped base (length d₁ + length d₂) ≡ d₁ ++ d₂)
      × (load_bytes c₃.mapped sp (length marks) ≡ marks)
three_writes c c₁ c₂ c₃ base sp d₁ d₂ marks far w₁ w₂ w₃ = (
  load_bytes-split c₃.mapped base (length d₁) (length d₂)
      ∙ ap₂ ◌++◌
          (load_bytes-cong c₃.mapped c₁.mapped base (length d₁)
              (λ x p q. w₃.outside x (inl (omega arith)) ∙ w₂.outside x (inl q))
            ∙ w₁.inside)
          (load_bytes-cong c₃.mapped c₂.mapped (base + length d₁) (length d₂)
              (λ x p q. w₃.outside x (inl (omega arith)))
            ∙ w₂.inside),
  w₃.inside,
)

-- A write by the driver, seen from the file system: the rest of the state stays.
pub record FsWrote (u : Fs) (dst : ℕ) (src : List ℕ) (v : Fs) : Type 0 where
  pub chip : Wrote u.chip dst src v.chip
  pub cache : v.cache_status ≡ u.cache_status
  pub prealloc : v.prealloc ≡ u.prealloc
  pub readers : v.read_files ≡ u.read_files
  pub configured : v.params ≡ u.params
  pub stack : v.stack ≡ u.stack

pub on_chip-FsWrote :
    (u : Fs) (dst : ℕ) (src : List ℕ) (m : Cmd Chip (Unit {0}))
    → Returns (λ _ c'. Wrote u.chip dst src c') (m u.chip)
    → Returns (λ _ v. FsWrote u dst src v) (on_chip m u)
on_chip-FsWrote u dst src m h =
    Returns.lifted (λ (t : Fs) c. record t { chip = c }) u h
      (λ a c' w. record {
        chip = w;
        cache = refl;
        prealloc = refl;
        readers = refl;
        configured = refl;
        stack = refl;
      })

-- A write that is skipped where there is nothing to write.
pub if-FsWrote :
    (b : Bool) (u : Fs) (dst : ℕ) (src : List ℕ) (m : Cmd Fs (Unit {0}))
    → (b ≡ true → length src ≡ 0)
    → Returns (λ _ v. FsWrote u dst src v) (m u)
    → Returns (λ _ v. FsWrote u dst src v) ((if b then pure tt else m) u)
if-FsWrote true u dst [] m skip h = returns (record {
  chip = Wrote-nothing u.chip dst;
  cache = refl;
  prealloc = refl;
  readers = refl;
  configured = refl;
  stack = refl;
})
if-FsWrote true u dst (x ∷ xs) m skip h = absurd (omega (arith, skip refl))
if-FsWrote false u dst src m skip h = h

pub FsWrote-IsCoherent :
    (u : Fs) (dst : ℕ) (src : List ℕ) (v : Fs) → FsWrote u dst src v → IsCoherent u → IsCoherent v
FsWrote-IsCoherent u dst src v w h =
    let still = ap (λ (c : CacheStatus). c.page_open) w.cache in
    record {
      block = λ p.
          w.chip.block
          ∙ (h.block (sym still ∙ p)
              ∙ sym (ap (λ (c : CacheStatus). c.current_open_block) w.cache));
      page = λ p.
          w.chip.page
          ∙ (h.page (sym still ∙ p) ∙ sym (ap (λ (c : CacheStatus). c.current_open_page) w.cache));
      result = λ p. ap (λ (c : CacheStatus). c.page_open_result) w.cache ∙ h.result (sym still ∙ p);
    }
