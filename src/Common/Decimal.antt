-- ===== src/Common/Decimal.antt =====
-- `%d`: decimal digits of a number, and of a signed one.
use Prim.Native.Nat.{ℕ, zero, suc, ◌+◌, ◌*◌, ◌-◌, ◌/◌, ◌%◌, ◌^◌, ◌≤◌, ◌<◌}
use mathlib.Core.Path.{◌≡◌, sym, ap, ◌∙◌}
use mathlib.Core.List.{[], ◌∷◌}
use native.Mathlib.Omega.{arith}
use federation.Common.Tests.{ltb, if◌then◌else◌, Bool-cases}
use federation.Common.Texts.{Text}
use federation.Common.Lists.{All}
use mathlib.Core.Logic.{inl, inr}

-- The last digit goes in front of what is written already; fuel bounds the digits.
unfoldable pub digits : ℕ → ℕ → Text → Text
digits zero n out = out
digits (suc fuel) n out =
    let out' : Text = (48 + n % 10) ∷ out in
    let rest = digits fuel (n / 10) out' in if ltb n 10 then out' else rest

-- `n + 1` rounds are enough, since each divides the number by ten.
unfoldable pub format : ℕ → Text
unfolding digits
format n = digits (suc n) n []

-- The number that a text of digits stands for, read from the left.
abbrev pub value : ℕ → Text → ℕ
value acc [] = acc
value acc (c ∷ s) = value (acc * 10 + (c - 48)) s

value-digits : (fuel n : ℕ) (out : Text) → n < fuel → value 0 (digits fuel n out) ≡ value n out
unfolding digits
value-digits zero n out h = elim h [ ]
value-digits (suc fuel) n out h = elim (Bool-cases (ltb n 10)) [
  | inl small ↦ rw small (ap (λ k. value k out) (ground arith))
  | inr large ↦ rw large (
      value-digits fuel (n / 10) ((48 + n % 10) ∷ out) (ground arith)
      ∙ ap (λ k. value k out) (omega arith))
]

-- What is printed reads back as the number, so enough digits were printed.
pub value-format : (n : ℕ) → value 0 (format n) ≡ n
unfolding format
value-format n = value-digits (suc n) n [] (omega arith)

-- Different numbers print differently.
pub format_inj : (m n : ℕ) → format m ≡ format n → m ≡ n
format_inj m n e = sym (value-format m) ∙ ap (value 0) e ∙ value-format n

-- Every byte that is printed is a digit.
abbrev pub IsDigit : ℕ → Type 0
IsDigit c = (48 ≤ c) × (c ≤ 57)

digits-IsDigit : (fuel n : ℕ) (out : Text) → All IsDigit out → All IsDigit (digits fuel n out)
unfolding digits
digits-IsDigit zero n out h = h
digits-IsDigit (suc fuel) n out h = elim (Bool-cases (ltb n 10)) [
  | inl small ↦ rw small ((omega arith, omega arith), h)
  | inr large ↦ rw large (digits-IsDigit fuel (n / 10) _ ((omega arith, omega arith), h))
]

pub format-IsDigit : (n : ℕ) → All IsDigit (format n)
unfolding format
format-IsDigit n = digits-IsDigit (suc n) n [] tt

-- An `int32`: `negsuc n` is -(n + 1).
pub data ℤ : Type 0 where
  pos : ℕ → ℤ
  negsuc : ℕ → ℤ

unfoldable pub format_int : ℤ → Text
format_int (pos n) = format n
format_int (negsuc n) = b'-' ∷ format (suc n)

-- Go's conversion `uint32(x)` of an `int32`: two's complement.
unfoldable pub uint32 : ℤ → ℕ
uint32 (pos n) = n % 2 ^ 32
uint32 (negsuc n) = 2 ^ 32 - 1 - n % 2 ^ 32
