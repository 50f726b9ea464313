-- ===== src/Common/Results.antt =====
-- Go's `(value, error)` results as a sum, with the errors that the code builds.
use mathlib.Core.Path.{◌≡◌, refl}
use mathlib.Core.Bool.{Bool, true, false}
use mathlib.Core.Option.{Option, none, some}
use mathlib.Core.List.{List, [], ◌∷◌}
use federation.Common.Texts.{Text}

-- `not_found` and `conflict` are statuses of the API server, `failure` any other error of a library,
-- `wrap` an `fmt.Errorf` with `%w`, and `joined` a result of `errors.Join`.
pub data Error : Type 0 where
  not_found : Error
  conflict : Error
  failure : Text → Error
  wrap : Text → Error → Error
  joined : Error → Error → Error

-- `IsNotFound` of an error as a library call returned it.
abbrev pub is_not_found : Error → Bool
is_not_found not_found = true
is_not_found _ = false

-- `err e` is a nil value with a non-nil error.
pub data Result {ℓ} (V : Type ℓ) : Type ℓ where
  err : Error → Result V
  ok : V → Result V

-- `if err != nil { return nil, fmt.Errorf(context, err) }`
abbrev pub with_context {ℓ} : {A : Type ℓ} → Text → Result A → Result A
with_context c (ok a) = ok a
with_context c (err e) = err (wrap c e)

-- `errors.Join`: nil if every error is.
unfoldable pub join_errors : List (Option Error) → Option Error
join_errors [] = none
join_errors (none ∷ es) = join_errors es
join_errors (some e ∷ es) = elim (join_errors es) [ none ↦ some e | some r ↦ some (joined e r) ]

-- A call, an early return on its error, and what follows.
module _ {ℓ κ} {V : Type ℓ} {W : Type κ} where
  infixl 5 ◌>>=◌
  abbrev pub ◌>>=◌ : Result V → (V → Result W) → Result W
  err e >>= next = err e
  ok v >>= next = next v

  -- A sequence that succeeded had a first call that succeeded.
  pub >>=-eq-ok :
      (first : Result V) (next : V → Result W) {w : W}
      → (first >>= next) ≡ ok w
      → (v : V) × (first ≡ ok v) × (next v ≡ ok w)
  >>=-eq-ok (err e) next h = cc
  >>=-eq-ok (ok v) next h = (v, refl, h)
