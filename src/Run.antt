-- ===== src/Run.antt =====
-- Stateful C code: a command takes the state and returns a value and the new state, or ends the
-- program in a failed `assert` (`flog_assert`, whose panic exits), or meets the bound on its rounds.
pub mod Returns
pub mod Keeps
pub mod Yields
pub mod Ends
pub mod Completes
use flog_fs.Base.{ℕ, Bool, true, false}

pub data Run (S A : Type 0) : Type 0 where
  ok : A → S → Run S A
  panic : Run S A
  out_of_fuel : Run S A

abbrev pub Cmd : Type 0 → Type 0 → Type 0
Cmd S A = S → Run S A

abbrev pub pure : {S A : Type 0} → A → Cmd S A
pure a s = ok a s

abbrev pub and_then : {S A B : Type 0} → Run S A → (A → Cmd S B) → Run S B
and_then (ok a s) k = k a s
and_then panic k = panic
and_then out_of_fuel k = out_of_fuel

infixl 5 ◌>>=◌ ◌>>◌
abbrev pub ◌>>=◌ : {S A B : Type 0} → Cmd S A → (A → Cmd S B) → Cmd S B
◌>>=◌ m k s = and_then (m s) k

abbrev pub ◌>>◌ : {S A B : Type 0} → Cmd S A → Cmd S B → Cmd S B
◌>>◌ m n s = and_then (m s) (λ _. n)

abbrev pub fetch : {S : Type 0} → Cmd S S
fetch s = ok s s

abbrev pub store : {S : Type 0} → S → Cmd S (Unit {0})
store s _ = ok tt s

abbrev pub modify : {S : Type 0} → (S → S) → Cmd S (Unit {0})
modify f s = ok tt (f s)

-- `assert(EX)` of flogfs.c.
abbrev pub assert : {S : Type 0} → Bool → Cmd S (Unit {0})
assert true s = ok tt s
assert false s = panic

-- A command on a part of the state.
abbrev pub lift : {S T A : Type 0} → (T → S → T) → Run S A → T → Run T A
lift put (ok a s) t = ok a (put t s)
lift put panic t = panic
lift put out_of_fuel t = out_of_fuel
