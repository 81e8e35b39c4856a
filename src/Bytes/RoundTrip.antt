-- ===== src/Bytes/RoundTrip.antt =====
-- Reading back what was stored, for memory and for integers.
use native.Mathlib.Nat.{pow-suc}
use native.Mathlib.Decide.{ℕ_discrete}
use mathlib.Core.Path.{ap₂, ◌∙◌}
use mathlib.Core.Logic.{◌↔◌}
use flog_fs.Base.{
  ℕ, zero, suc, ◌+◌, ◌/◌, ◌^◌, ◌≤◌, ◌<◌, ◌≡◌, refl, ap, true, List, [], ◌∷◌, ◌++◌, arith, length,
  Bool-cases, ==_iff, ◌==◌, inl, inr,
}
use flog_fs.Bytes.{Mem, load_bytes, store_bytes, all_equal, encode, decode}

pub length-encode : (k v : ℕ) → length (encode k v) ≡ k
unfolding encode
length-encode zero v = refl
length-encode (suc k) v = ap suc (length-encode k (v / 256))

pub decode-encode : (k v : ℕ) → v < 256 ^ k → decode (encode k v) ≡ v
unfolding encode decode
decode-encode zero v h = omega (arith, h)
decode-encode (suc k) v h =
    omega (arith, pow-suc 256 k, decode-encode k (v / 256) (omega (arith, pow-suc 256 k)))

-- A store does not change the bytes before its start.
pub store_bytes-before :
    (m : Mem) (a : ℕ) (bs : List ℕ) (x : ℕ) → x < a → store_bytes m a bs x ≡ m x
unfolding store_bytes
store_bytes-before m a [] x h = refl
store_bytes-before m a (b ∷ bs) x h = ground (arith, store_bytes-before m (a + 1) bs x)

-- Nor those behind its end.
pub store_bytes-after :
    (m : Mem) (a : ℕ) (bs : List ℕ) (x : ℕ) → a + length bs ≤ x → store_bytes m a bs x ≡ m x
unfolding store_bytes
store_bytes-after m a [] x h = refl
store_bytes-after m a (b ∷ bs) x h = ground (arith, store_bytes-after m (a + 1) bs x)

-- Loads agree where the memories do.
pub load_bytes-cong :
    (m m' : Mem) (a n : ℕ)
    → ((x : ℕ) → a ≤ x → x < a + n → m x ≡ m' x)
    → load_bytes m a n ≡ load_bytes m' a n
unfolding load_bytes
load_bytes-cong m m' a zero h = refl
load_bytes-cong m m' a (suc n) h =
    ap₂ ◌∷◌ (h a (omega arith) (omega arith))
      (load_bytes-cong m m' (a + 1) n (λ x p q. h x (omega arith) (omega arith)))

-- What was stored is loaded again.
pub load_bytes-store_bytes :
    (m : Mem) (a : ℕ) (bs : List ℕ) → load_bytes (store_bytes m a bs) a (length bs) ≡ bs
unfolding load_bytes store_bytes
load_bytes-store_bytes m a [] = refl
load_bytes-store_bytes m a (b ∷ bs) = ap₂ ◌∷◌ (ground arith) (
    load_bytes-cong (store_bytes m a (b ∷ bs)) (store_bytes m (a + 1) bs) (a + 1) (length bs)
      (λ x p q. ground arith)
    ∙ load_bytes-store_bytes m (a + 1) bs)

-- A range is erased exactly when each of its bytes is.
pub all_equal_iff :
    (v : ℕ) (m : Mem) (a n : ℕ)
    → (all_equal v m a n ≡ true) ↔ ((x : ℕ) → a ≤ x → x < a + n → m x ≡ v)
unfolding all_equal
all_equal_iff v m a zero = (λ _ x p q. absurd (omega arith), λ _. refl)
all_equal_iff v m a (suc n) = (
  λ e x p q. elim (ℕ_discrete x a) [
    | yes same ↦ ground arith
    | no other ↦ (all_equal_iff v m (a + 1) n).0 (ground arith) x (omega arith) (omega arith)
  ],
  λ h.
      let first : m a ≡ v = h a (omega arith) (omega arith) in
      let later = (all_equal_iff v m (a + 1) n).1 (λ x p q. h x (omega arith) (omega arith)) in
      ground arith,
)

pub load_bytes-split :
    (m : Mem) (a n k : ℕ) → load_bytes m a (n + k) ≡ load_bytes m a n ++ load_bytes m (a + n) k
unfolding load_bytes
load_bytes-split m a zero k =
    let e : 0 + k ≡ k = omega arith in
    let d : a ≡ a + 0 = omega arith in ap (λ x. load_bytes m a x) e ∙ ap (λ x. load_bytes m x k) d
load_bytes-split m a (suc n) k =
    let e : suc n + k ≡ suc (n + k) = omega arith in
    let d : (a + 1) + n ≡ a + suc n = omega arith in
    ap (λ x. load_bytes m a x) e
    ∙ (ap (λ l. m a ∷ l) (load_bytes-split m (a + 1) n k)
        ∙ ap (λ x. (m a ∷ load_bytes m (a + 1) n) ++ load_bytes m x k) d)

-- A store behind the bytes that are there makes them longer.
pub load_bytes-append :
    (m : Mem) (a n at : ℕ) (bs : List ℕ)
    → at ≡ a + n
    → load_bytes (store_bytes m at bs) a (n + length bs) ≡ load_bytes m a n ++ bs
load_bytes-append m a n at bs e =
    load_bytes-split (store_bytes m at bs) a n (length bs)
    ∙ ap₂ ◌++◌
        (load_bytes-cong (store_bytes m at bs) m a n
          (λ x p q. store_bytes-before m at bs x (omega arith)))
        (rw (← e) (load_bytes-store_bytes m at bs))

pub length-load_bytes : (m : Mem) (a n : ℕ) → length (load_bytes m a n) ≡ n
unfolding load_bytes
length-load_bytes m a zero = refl
length-load_bytes m a (suc n) = ap suc (length-load_bytes m (a + 1) n)

-- Memory to which bytes of another were copied reads as the other there.
pub store_bytes-load_bytes :
    (m m' : Mem) (a n x : ℕ) → a ≤ x → x < a + n → store_bytes m a (load_bytes m' a n) x ≡ m' x
unfolding load_bytes store_bytes
store_bytes-load_bytes m m' a zero x lo hi = absurd (omega arith)
store_bytes-load_bytes m m' a (suc n) x lo hi = elim (Bool-cases (x == a)) [
  | inl here ↦ rw here (ap m' (omega (arith, (==_iff x a).0 here)))
  | inr elsewhere ↦
      rw elsewhere (store_bytes-load_bytes m m' (a + 1) n x (ground arith) (omega arith))
]
