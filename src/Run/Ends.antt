-- ===== src/Run/Ends.antt =====
-- Commands that do not run out of rounds: they return, or an assertion fails.
use flog_fs.Base.{◌≢◌, Bool, true, false, if◌then◌else◌}
use flog_fs.Run.{Run, ok, panic, out_of_fuel, Cmd, pure, and_then, ◌>>=◌, ◌>>◌, fetch, assert, lift}
use flog_fs.Run.Returns.{Returns, returns}
use flog_fs.Run.Keeps.{Holds, holds, stopped}

pub data Ends {S A : Type 0} (P : A → S → Type 0) : Run S A → Type 0 where
  ends : {a : A} {s : S} → P a s → Ends P (ok a s)
  failed : Ends P panic

pub Ends-ne-out_of_fuel :
    {S A : Type 0} {P : A → S → Type 0} {r : Run S A} → Ends P r → r ≢ out_of_fuel
Ends-ne-out_of_fuel (ends p) e = cc
Ends-ne-out_of_fuel failed e = cc

pub bind :
    {S A B : Type 0} {P : A → S → Type 0} {Q : B → S → Type 0} {r : Run S A} {k : A → S → Run S B}
    → Ends P r
    → ((a : A) (s : S) → P a s → Ends Q (k a s))
    → Ends Q (and_then r k)
bind (ends p) next = next _ _ p
bind failed next = failed

pub mono :
    {S A : Type 0} {P Q : A → S → Type 0} {r : Run S A}
    → Ends P r
    → ((a : A) (s : S) → P a s → Q a s)
    → Ends Q r
mono (ends p) weaken = ends (weaken _ _ p)
mono failed weaken = failed

pub from_total :
    {S A : Type 0} {P Q : A → S → Type 0} {r : Run S A}
    → Returns P r
    → ((a : A) (s : S) → P a s → Q a s)
    → Ends Q r
from_total (returns p) weaken = ends (weaken _ _ p)

-- What holds of the state whenever the command returns can be added.
pub adding :
    {S A : Type 0} {P : A → S → Type 0} {Q : S → Type 0} {r : Run S A}
    → Ends P r
    → Holds Q r
    → Ends (λ a s. P a s × Q s) r
adding (ends p) (holds q) = ends (p, q)
adding failed stopped = failed

pub lifted :
    {S T A : Type 0} {P : A → S → Type 0} {Q : A → T → Type 0} {r : Run S A} (put : T → S → T)
    (t : T)
    → Ends P r
    → ((a : A) (s : S) → P a s → Q a (put t s))
    → Ends Q (lift put r t)
lifted put t (ends p) next = ends (next _ _ p)
lifted put t failed next = failed

-- The command ends from each state with `P`, in one with `P` if it returns.
pub record Lasts {S A : Type 0} (P : S → Type 0) (m : Cmd S A) : Type 0 where
  pub at : (s : S) → P s → Ends (λ _ t. P t) (m s)

module _ {S : Type 0} {P : S → Type 0} where
  pub Lasts-pure : {A : Type 0} (a : A) → Lasts P (pure a)
  Lasts-pure a = record { at = λ s h. ends h }

  pub Lasts-fetch : Lasts {A = S} P fetch
  Lasts-fetch = record { at = λ s h. ends h }

  pub Lasts-assert : (b : Bool) → Lasts P (assert b)
  Lasts-assert true = record { at = λ s h. ends h }
  Lasts-assert false = record { at = λ s h. failed }

  pub Lasts-bind :
      {A B : Type 0} (m : Cmd S A) (k : A → Cmd S B)
      → Lasts P m
      → ((a : A) → Lasts P (k a))
      → Lasts P (m >>= k)
  Lasts-bind m k first next = record { at = λ s h. bind (first.at s h) (λ a t p. (next a).at t p) }

  pub Lasts-then :
      {A B : Type 0} (m : Cmd S A) (n : Cmd S B) → Lasts P m → Lasts P n → Lasts P (m >> n)
  Lasts-then m n first next = record { at = λ s h. bind (first.at s h) (λ a t p. next.at t p) }

  pub Lasts-if :
      {A : Type 0} (b : Bool) (m n : Cmd S A) → Lasts P m → Lasts P n → Lasts P (if b then m else n)
  Lasts-if true m n h k = h
  Lasts-if false m n h k = k

pub ruleset lasts_rules = (Lasts-pure, Lasts-fetch, Lasts-assert, Lasts-bind, Lasts-then, Lasts-if)
