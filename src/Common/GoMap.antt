-- ===== src/Common/GoMap.antt =====
-- A Go map as an association list. A range over a map visits its entries in an order that the
-- language leaves open: code that ranges takes that order as an argument.
use mathlib.Core.Path.{◌≡◌, refl}
use mathlib.Core.Bool.{Bool, true}
use mathlib.Core.Logic.{◌↔◌}
use mathlib.Core.Option.{Option, none, some}
use mathlib.Core.List.{List, [], ◌∷◌}
use native.Mathlib.Omega.{arith}
use federation.Common.Tests.{if◌then◌else◌}
use federation.Common.Texts.{Text, text_eq, text_eq_iff}

-- Keys with the `==` of their Go type.
pub record Key {ℓ} (K : Type ℓ) : Type ℓ where
  pub same : K → K → Bool
  pub same_iff : (a b : K) → (same a b ≡ true) ↔ (a ≡ b)

instance abbrev pub text_key : Key Text
text_key = record { same = text_eq; same_iff = text_eq_iff }

module _ {ℓ} {K V : Type ℓ} ⦃k : Key K⦄ where
  -- `m[key]`, with whether it is there.
  unfoldable pub lookup : K → List (K × V) → Option V
  lookup a [] = none
  lookup a ((b, v) ∷ m) = if k.same b a then some v else lookup a m

  -- `m[key] = v`.
  unfoldable pub insert : K → V → List (K × V) → List (K × V)
  insert a v [] = (a, v) ∷ []
  insert a v ((b, w) ∷ m) = if k.same b a then (a, v) ∷ m else (b, w) ∷ insert a v m

  -- `delete(m, key)`.
  unfoldable pub remove : K → List (K × V) → List (K × V)
  remove a [] = []
  remove a ((b, w) ∷ m) = let rest = remove a m in if k.same b a then rest else (b, w) ∷ rest

  pub lookup-insert :
      (a c : K) (v : V) (m : List (K × V))
      → lookup c (insert a v m) ≡ (if k.same a c then some v else lookup c m)
  unfolding lookup insert
  lookup-insert a c v [] = refl
  lookup-insert a c v ((b, w) ∷ m) =
      ground (arith, k.same_iff a c, k.same_iff b a, k.same_iff b c, lookup-insert a c v m)

  pub lookup-remove :
      (a c : K) (m : List (K × V))
      → lookup c (remove a m) ≡ (if k.same a c then none else lookup c m)
  unfolding lookup remove
  lookup-remove a c [] = ground arith
  lookup-remove a c ((b, w) ∷ m) =
      ground (arith, k.same_iff a c, k.same_iff b a, k.same_iff b c, lookup-remove a c m)
