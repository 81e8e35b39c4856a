-- ===== src/Open/Names.antt =====
-- The names of files: what `flogfs_open_write` stores, and what `flog_find_file` compares.
use flog_fs.Base.{
  ℕ, zero, suc, ◌≤◌, ◌<◌, ◌≡◌, ◌↔◌, refl, arith, true, false, Bool-cases, inl, inr, List, [], ◌∷◌,
  ◌++◌, ◌==◌, if◌then◌else◌, take, length,
}
use flog_fs.Structs.{max_fname_len}
use flog_fs.Fs.{Fs}
use flog_fs.Inode.{strncmp_equal}
use flog_fs.Open.{name_field, junk_bytes}

-- The bytes of a string before its terminator.
abbrev pub IsString : List ℕ → Type 0
IsString [] = Unit {0}
IsString (b ∷ bs) = (0 < b) × IsString bs

-- a field of `k` bytes and the terminator that the code puts at its end
abbrev field_of : ℕ → List ℕ → List ℕ → List ℕ
field_of k b junk = take k (b ++ (0 ∷ junk)) ++ (0 ∷ [])

strncmp_equal-cons :
    (n x y : ℕ) (xs ys : List ℕ)
    → 0 < x
    → strncmp_equal (suc n) (x ∷ xs) (y ∷ ys) ≡ (if x == y then strncmp_equal n xs ys else false)
unfolding strncmp_equal
strncmp_equal-cons n x y xs ys h = let more : (x == 0) ≡ false = ground arith in rw more refl

strncmp_equal-field_of :
    (k : ℕ) (a b junk : List ℕ)
    → IsString a
    → IsString b
    → length b ≤ k
    → (strncmp_equal (suc k) a (field_of k b junk) ≡ true) ↔ (a ≡ b)
unfolding strncmp_equal
strncmp_equal-field_of zero [] [] junk ha hb le = (λ _. refl, λ _. refl)
strncmp_equal-field_of zero (x ∷ xs) [] junk ha hb le = (λ e. ground arith, λ e. ground arith)
strncmp_equal-field_of zero a (y ∷ ys) junk ha hb le = absurd (omega arith)
strncmp_equal-field_of (suc k) [] [] junk ha hb le = (λ _. refl, λ _. refl)
strncmp_equal-field_of (suc k) (x ∷ xs) [] junk ha hb le = (λ e. ground arith, λ e. ground arith)
strncmp_equal-field_of (suc k) [] (y ∷ ys) junk ha hb le = (λ e. ground arith, λ e. ground arith)
strncmp_equal-field_of (suc k) (x ∷ xs) (y ∷ ys) junk ha hb le =
    let rest = strncmp_equal-field_of k xs ys junk ha.1 hb.1 (omega arith) in
    rw (strncmp_equal-cons (suc k) x y xs (field_of k ys junk) ha.0) (elim (Bool-cases (x == y)) [
      | inl e ↦ rw e (λ h. let same = rest.0 h in ground arith, λ h. rest.1 (ground arith))
      | inr e ↦ rw e (λ h. ground arith, λ h. ground arith)
    ])

-- A name is found in an entry of the inode table exactly if the entry was made for that name, for
-- names that fit the field with their terminator.
pub strncmp_equal-name_field :
    (s : Fs) (filename stored : List ℕ)
    → IsString filename
    → IsString stored
    → length stored < max_fname_len
    → (strncmp_equal max_fname_len filename (name_field s stored) ≡ true) ↔ (filename ≡ stored)
unfolding name_field
strncmp_equal-name_field s filename stored ha hb short =
    strncmp_equal-field_of 31 filename stored (junk_bytes s 8 max_fname_len) ha hb (omega arith)
