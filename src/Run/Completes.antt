-- ===== src/Run/Completes.antt =====
-- Commands that return whenever a property of the state holds, and keep it.
use flog_fs.Base.{Bool, true, false, if◌then◌else◌}
use flog_fs.Run.{Cmd, pure, ◌>>=◌, ◌>>◌, fetch}
use flog_fs.Run.Returns.{Returns, returns, bind}

pub record Completes {S A : Type 0} (P : S → Type 0) (m : Cmd S A) : Type 0 where
  pub at : (s : S) → P s → Returns (λ _ t. P t) (m s)

module _ {S : Type 0} {P : S → Type 0} where
  pub Completes-pure : {A : Type 0} (a : A) → Completes P (pure a)
  Completes-pure a = record { at = λ s h. returns h }

  pub Completes-fetch : Completes {A = S} P fetch
  Completes-fetch = record { at = λ s h. returns h }

  pub Completes-bind :
      {A B : Type 0} (m : Cmd S A) (k : A → Cmd S B)
      → Completes P m
      → ((a : A) → Completes P (k a))
      → Completes P (m >>= k)
  Completes-bind m k first next = record {
    at = λ s h. bind (first.at s h) (λ a t p. (next a).at t p);
  }

  pub Completes-then :
      {A B : Type 0} (m : Cmd S A) (n : Cmd S B)
      → Completes P m
      → Completes P n
      → Completes P (m >> n)
  Completes-then m n first next = record { at = λ s h. bind (first.at s h) (λ a t p. next.at t p) }

  pub Completes-if :
      {A : Type 0} (b : Bool) (m n : Cmd S A)
      → Completes P m
      → Completes P n
      → Completes P (if b then m else n)
  Completes-if true m n h k = h
  Completes-if false m n h k = k

pub ruleset completes_rules =
    (Completes-pure, Completes-fetch, Completes-bind, Completes-then, Completes-if)
