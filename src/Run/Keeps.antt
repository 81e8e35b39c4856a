-- ===== src/Run/Keeps.antt =====
-- Commands that keep an invariant whenever they return, with a rule for each way to build one.
use flog_fs.Base.{Bool, true, false, if◌then◌else◌}
use flog_fs.Run.{
  Run, ok, panic, out_of_fuel, Cmd, pure, and_then, ◌>>=◌, ◌>>◌, fetch, modify, assert, lift,
}

-- A run that ends in a state, ends in one with `P`.
pub data Holds {S A : Type 0} (P : S → Type 0) : Run S A → Type 0 where
  holds : {a : A} {s : S} → P s → Holds P (ok a s)
  stopped : Holds P panic
  spent : Holds P out_of_fuel

pub record Keeps {S A : Type 0} (P : S → Type 0) (m : Cmd S A) : Type 0 where
  pub at : (s : S) → P s → Holds P (m s)

pub Holds-ok : {S A : Type 0} {P : S → Type 0} {a : A} {s : S} → Holds P (ok a s) → P s
Holds-ok (holds h) = h

pub Holds-and_then :
    {S A B : Type 0} {P : S → Type 0} {r : Run S A} {k : A → Cmd S B}
    → Holds P r
    → ((a : A) → Keeps P (k a))
    → Holds P (and_then r k)
Holds-and_then (holds h) next = (next _).at _ h
Holds-and_then stopped next = stopped
Holds-and_then spent next = spent

-- The same where the second part brings another property about.
pub Holds-bind :
    {S A B : Type 0} {P Q : S → Type 0} {r : Run S A} {k : A → Cmd S B}
    → Holds P r
    → ((a : A) (s : S) → P s → Holds Q (k a s))
    → Holds Q (and_then r k)
Holds-bind (holds h) next = next _ _ h
Holds-bind stopped next = stopped
Holds-bind spent next = spent

pub Holds-mono :
    {S A : Type 0} {P Q : S → Type 0} {r : Run S A} → ((s : S) → P s → Q s) → Holds P r → Holds Q r
Holds-mono weaken (holds h) = holds (weaken _ h)
Holds-mono weaken stopped = stopped
Holds-mono weaken spent = spent

module _ {S : Type 0} {P : S → Type 0} where
  pub Keeps-pure : {A : Type 0} (a : A) → Keeps P (pure a)
  Keeps-pure a = record { at = λ s h. holds h }

  pub Keeps-fetch : Keeps {A = S} P fetch
  Keeps-fetch = record { at = λ s h. holds h }

  pub Keeps-modify : (f : S → S) → ((s : S) → P s → P (f s)) → Keeps P (modify f)
  Keeps-modify f keep = record { at = λ s h. holds (keep s h) }

  pub Keeps-assert : (b : Bool) → Keeps P (assert b)
  Keeps-assert true = record { at = λ s h. holds h }
  Keeps-assert false = record { at = λ s h. stopped }

  pub Keeps-fail : {A : Type 0} → Keeps {A = A} P (λ _. out_of_fuel)
  Keeps-fail = record { at = λ s h. spent }

  pub Keeps-panic : {A : Type 0} → Keeps {A = A} P (λ _. panic)
  Keeps-panic = record { at = λ s h. stopped }

  pub Keeps-bind :
      {A B : Type 0} (m : Cmd S A) (k : A → Cmd S B)
      → Keeps P m
      → ((a : A) → Keeps P (k a))
      → Keeps P (m >>= k)
  Keeps-bind m k first next = record { at = λ s h. Holds-and_then (first.at s h) next }

  pub Keeps-then :
      {A B : Type 0} (m : Cmd S A) (n : Cmd S B) → Keeps P m → Keeps P n → Keeps P (m >> n)
  Keeps-then m n first next = record { at = λ s h. Holds-and_then (first.at s h) (λ _. next) }

  pub Keeps-if :
      {A : Type 0} (b : Bool) (m n : Cmd S A) → Keeps P m → Keeps P n → Keeps P (if b then m else n)
  Keeps-if true m n h k = h
  Keeps-if false m n h k = k

pub ruleset keeps_rules = (
  Keeps-pure, Keeps-fetch, Keeps-assert, Keeps-fail, Keeps-panic, Keeps-bind, Keeps-then, Keeps-if,
)

-- A command on a part of the state keeps what does not depend on that part.
pub Holds-lift :
    {S T A : Type 0} {P : T → Type 0} (put : T → S → T) (t : T) (r : Run S A)
    → ((s : S) → P (put t s))
    → Holds P (lift put r t)
Holds-lift put t (ok a s) keep = holds (keep s)
Holds-lift put t panic keep = stopped
Holds-lift put t out_of_fuel keep = spent
