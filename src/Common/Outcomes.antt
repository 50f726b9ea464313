-- ===== src/Common/Outcomes.antt =====
-- Functions that may panic: a result, an error value, or a run-time panic that nothing recovers.
use federation.Common.Results.{Result, ok, err, Error, wrap}
use federation.Common.Texts.{Text}

pub data Outcome {ℓ} (A : Type ℓ) : Type ℓ where
  done : A → Outcome A
  fail : Error → Outcome A
  panic : Outcome A

infixl 5 ◌>>=◌
abbrev pub ◌>>=◌ {ℓ κ} : {A : Type ℓ} {B : Type κ} → Outcome A → (A → Outcome B) → Outcome B
done a >>= f = f a
fail e >>= f = fail e
panic >>= f = panic

-- A call that cannot panic.
abbrev pub lift {ℓ} : {A : Type ℓ} → Result A → Outcome A
lift (ok a) = done a
lift (err e) = fail e

-- `if err != nil { return fmt.Errorf(context, err) }`
abbrev pub in_context {ℓ} : {A : Type ℓ} → Text → Outcome A → Outcome A
in_context c (done a) = done a
in_context c (fail e) = fail (wrap c e)
in_context c panic = panic
