-- ===== src/Common/Lists.antt =====
-- Lists: lengths by native numbers, predicates over all entries, membership without truncation.
use Prim.Native.Nat.{ℕ, suc, ◌+◌}
use mathlib.Core.Path.{◌≡◌, refl, ap}
use mathlib.Core.Logic.{◌⊎◌, inl, inr}
use mathlib.Core.List.{List, [], ◌∷◌, ◌++◌, map, append_assoc, Memᴰ}
use native.Mathlib.Omega.{arith}

module _ {ℓ} {A : Type ℓ} where
  abbrev pub length : List A → ℕ
  length [] = 0
  length (x ∷ xs) = suc (length xs)

  pub length-append : (xs ys : List A) → length (xs ++ ys) ≡ length xs + length ys
  length-append [] ys = omega arith
  length-append (x ∷ xs) ys = omega (arith, length-append xs ys)

module _ {ℓ κ} {A : Type ℓ} (P : A → Type κ) where
  -- `P` holds of every entry.
  abbrev pub All : List A → Type κ
  All [] = Unit
  All (x ∷ xs) = P x × All xs

  pub All-append : (xs ys : List A) → All xs → All ys → All (xs ++ ys)
  All-append [] ys hx hy = hy
  All-append (x ∷ xs) ys hx hy = (hx.0, All-append xs ys hx.1 hy)

  pub All-at : {a : A} (xs : List A) → All xs → Memᴰ a xs → P a
  All-at [] h m = elim m [ ]
  All-at (x ∷ xs) h (Memᴰ.head e) = subst_at e h.0
    where
      subst_at : {a b : A} → a ≡ b → P b → P a
      subst_at e p = rw e p
  All-at (x ∷ xs) h (Memᴰ.tail m) = All-at xs h.1 m

-- `for x := range xs { for y := range f(x) { out = append(out, y) } }`
module _ {ℓ κ} {A : Type ℓ} {B : Type κ} (f : A → List B) where
  unfoldable pub concat_map : List A → List B
  concat_map [] = []
  concat_map (x ∷ xs) = f x ++ concat_map xs

  pub concat_map-append : (xs ys : List A) → concat_map (xs ++ ys) ≡ concat_map xs ++ concat_map ys
  unfolding concat_map
  concat_map-append [] ys = refl
  concat_map-append (x ∷ xs) ys = simp (concat_map-append xs ys, append_assoc)

module _ {ℓ} {A : Type ℓ} where
  pub Memᴰ-append_left : {a : A} {xs : List A} → Memᴰ a xs → (ys : List A) → Memᴰ a (xs ++ ys)
  Memᴰ-append_left (Memᴰ.head e) ys = Memᴰ.head e
  Memᴰ-append_left (Memᴰ.tail m) ys = Memᴰ.tail (Memᴰ-append_left m ys)

  pub Memᴰ-append_right : {a : A} (xs : List A) {ys : List A} → Memᴰ a ys → Memᴰ a (xs ++ ys)
  Memᴰ-append_right [] m = m
  Memᴰ-append_right (x ∷ xs) m = Memᴰ.tail (Memᴰ-append_right xs m)

pub Memᴰ-map {ℓ κ} :
    {A : Type ℓ} {B : Type κ} (f : A → B) {a : A} {xs : List A} → Memᴰ a xs → Memᴰ (f a) (map f xs)
Memᴰ-map f (Memᴰ.head e) = Memᴰ.head (ap f e)
Memᴰ-map f (Memᴰ.tail m) = Memᴰ.tail (Memᴰ-map f m)

module _ {ℓ} {A : Type ℓ} where
  pub Memᴰ-append_cases :
      {a : A} (xs : List A) {ys : List A} → Memᴰ a (xs ++ ys) → Memᴰ a xs ⊎ Memᴰ a ys
  Memᴰ-append_cases [] m = inr m
  Memᴰ-append_cases (x ∷ xs) (Memᴰ.head e) = inl (Memᴰ.head e)
  Memᴰ-append_cases (x ∷ xs) (Memᴰ.tail m) = elim (Memᴰ-append_cases xs m) [
    | inl l ↦ inl (Memᴰ.tail l)
    | inr r ↦ inr r
  ]
