-- ===== src/Run/Returns.antt =====
-- Total correctness of a run: no failed assertion, enough fuel, and a postcondition.
use flog_fs.Base.{Bool, true, false, ◌≡◌, refl, if◌then◌else◌}
use flog_fs.Run.{Run, ok, Cmd, and_then, lift}

pub data Returns {S A : Type 0} (P : A → S → Type 0) : Run S A → Type 0 where
  returns : {a : A} {s : S} → P a s → Returns P (ok a s)

pub bind :
    {S A B : Type 0} {P : A → S → Type 0} {Q : B → S → Type 0} {r : Run S A} {k : A → Cmd S B}
    → Returns P r
    → ((a : A) (s : S) → P a s → Returns Q (k a s))
    → Returns Q (and_then r k)
bind (returns p) next = next _ _ p

pub mono :
    {S A : Type 0} {P Q : A → S → Type 0} {r : Run S A}
    → Returns P r
    → ((a : A) (s : S) → P a s → Q a s)
    → Returns Q r
mono (returns p) weaken = returns (weaken _ _ p)

pub lifted :
    {S T A : Type 0} {P : A → S → Type 0} {Q : A → T → Type 0} {r : Run S A} (put : T → S → T)
    (t : T)
    → Returns P r
    → ((a : A) (s : S) → P a s → Q a (put t s))
    → Returns Q (lift put r t)
lifted put t (returns p) next = returns (next _ _ p)

-- A test is followed to the branch that it selects.
pub branch :
    {S A : Type 0} {Q : A → S → Type 0} (b : Bool) (m m' : Cmd S A) (s : S)
    → (b ≡ true → Returns Q (m s))
    → (b ≡ false → Returns Q (m' s))
    → Returns Q ((if b then m else m') s)
branch true m m' s h h' = h refl
branch false m m' s h h' = h' refl
