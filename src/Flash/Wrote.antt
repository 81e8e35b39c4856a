-- ===== src/Flash/Wrote.antt =====
-- What one successful write of the driver does to the memory, and that a write to erased bytes is
-- successful.
use flog_fs.Base.{ℕ, ◌+◌, ◌<◌, ◌≤◌, ◌≡◌, ◌⊎◌, inl, inr, refl, List, [], length}
use flog_fs.Bytes.{load_bytes}
use flog_fs.Bytes.RoundTrip.{
  store_bytes-before, store_bytes-after, load_bytes-store_bytes, all_equal_iff,
}
use flog_fs.Structs.{erase_char}
use flog_fs.Flash.{Chip, verified_memcpy}
use flog_fs.Run.Returns.{Returns, returns}

pub record Wrote (c : Chip) (dst : ℕ) (src : List ℕ) (c' : Chip) : Type 0 where
  pub inside : load_bytes c'.mapped dst (length src) ≡ src
  pub outside : (x : ℕ) → (x < dst) ⊎ (dst + length src ≤ x) → c'.mapped x ≡ c.mapped x
  pub block : c'.open_block ≡ c.open_block
  pub page : c'.open_page ≡ c.open_page
  pub pages : c'.pages_per_block ≡ c.pages_per_block

pub Wrote-nothing : (c : Chip) (dst : ℕ) → Wrote c dst [] c
unfolding load_bytes
Wrote-nothing c dst = record {
  inside = refl;
  outside = λ x apart. refl;
  block = refl;
  page = refl;
  pages = refl;
}

pub verified_memcpy-Wrote :
    (dst : ℕ) (src : List ℕ) (c : Chip)
    → ((x : ℕ) → dst ≤ x → x < dst + length src → c.mapped x ≡ erase_char)
    → Returns (λ _ c'. Wrote c dst src c') (verified_memcpy dst src c)
unfolding verified_memcpy
verified_memcpy-Wrote dst src c erased =
    let e = (all_equal_iff erase_char c.mapped dst (length src)).1 erased in
    rw e (
      returns (record {
        inside = load_bytes-store_bytes c.mapped dst src;
        outside = λ x apart. elim apart [
          | inl h ↦ store_bytes-before c.mapped dst src x h
          | inr h ↦ store_bytes-after c.mapped dst src x h
        ];
        block = refl;
        page = refl;
        pages = refl;
      }))
