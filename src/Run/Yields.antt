-- ===== src/Run/Yields.antt =====
-- Commands whose result and final state are related, if they return.
use flog_fs.Base.{◌≡◌, subst}
use flog_fs.Run.{Run, ok, panic, out_of_fuel, and_then, lift}
use flog_fs.Run.Returns.{Returns, returns}
use flog_fs.Run.Keeps.{Holds, holds, stopped, spent}

pub data Yields {S A : Type 0} (P : A → S → Type 0) : Run S A → Type 0 where
  yields : {a : A} {s : S} → P a s → Yields P (ok a s)
  none_stopped : Yields P panic
  none_spent : Yields P out_of_fuel

pub Yields-ok :
    {S A : Type 0} {P : A → S → Type 0} {r : Run S A} {a : A} {s : S}
    → Yields P r
    → r ≡ ok a s
    → P a s
Yields-ok {P} {a} {s} y e = inside (subst (Yields P) e y)
  where
    inside : Yields P (ok a s) → P a s
    inside (yields p) = p

pub bind :
    {S A B : Type 0} {P : A → S → Type 0} {Q : B → S → Type 0} {r : Run S A} {k : A → S → Run S B}
    → Yields P r
    → ((a : A) (s : S) → P a s → Yields Q (k a s))
    → Yields Q (and_then r k)
bind (yields p) next = next _ _ p
bind none_stopped next = none_stopped
bind none_spent next = none_spent

-- From what holds of the state alone.
pub after :
    {S A B : Type 0} {P : S → Type 0} {Q : B → S → Type 0} {r : Run S A} {k : A → S → Run S B}
    → Holds P r
    → ((a : A) (s : S) → P s → Yields Q (k a s))
    → Yields Q (and_then r k)
after (holds p) next = next _ _ p
after stopped next = none_stopped
after spent next = none_spent

pub from_total :
    {S A : Type 0} {P Q : A → S → Type 0} {r : Run S A}
    → Returns P r
    → ((a : A) (s : S) → P a s → Q a s)
    → Yields Q r
from_total (returns p) weaken = yields (weaken _ _ p)

pub lifted :
    {S T A : Type 0} {P : A → S → Type 0} {Q : A → T → Type 0} {r : Run S A} (put : T → S → T)
    (t : T)
    → Yields P r
    → ((a : A) (s : S) → P a s → Q a (put t s))
    → Yields Q (lift put r t)
lifted put t (yields p) next = yields (next _ _ p)
lifted put t none_stopped next = none_stopped
lifted put t none_spent next = none_spent
