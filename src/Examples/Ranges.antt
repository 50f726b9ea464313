-- ===== src/Examples/Ranges.antt =====
-- A concrete order in which to visit a map: that of the list it is, with each key's value looked up.
use mathlib.Core.List.{Memᴰ}
use federation.Common.{
  ◌≡◌, refl, ap, map, Bool-cases, inl, inr, Option, none, some, List, [], ◌∷◌, ◌++◌,
  Memᴰ-append_right, Memᴰ-append_cases,
}
use federation.Common.GoMap.{Key, lookup}

module _ {K V : Type 0} ⦃keys : Key K⦄ where
  abbrev entry_at : K → Option V → List (K × V)
  entry_at k none = []
  entry_at k (some v) = (k, v) ∷ []

  -- The entries of a map at the keys of a list.
  abbrev at_keys : List (K × V) → List (K × V) → List (K × V)
  at_keys m [] = []
  at_keys m ((k, v) ∷ rest) = entry_at k (lookup k m) ++ at_keys m rest

  abbrev pub in_order : List (K × V) → List (K × V)
  in_order m = at_keys m m

  entry_at_only :
      (j k : K) (o : Option V) (v : V) → Memᴰ (k, v) (entry_at j o) → (j ≡ k) × (o ≡ some v)
  entry_at_only j k none v m = elim m [ ]
  entry_at_only j k (some p) v (Memᴰ.head e) = (cc, cc)
  entry_at_only j k (some p) v (Memᴰ.tail m) = elim m [ ]

  at_keys_only :
      (m rest : List (K × V)) (k : K) (v : V) → Memᴰ (k, v) (at_keys m rest) → lookup k m ≡ some v
  at_keys_only m [] k v h = elim h [ ]
  at_keys_only m ((j, p) ∷ rest) k v h = elim (Memᴰ-append_cases (entry_at j (lookup j m)) h) [
    | inl here ↦ let (e, q) = entry_at_only j k (lookup j m) v here in rw (← e) q
    | inr later ↦ at_keys_only m rest k v later
  ]

  at_keys_each :
      (m rest : List (K × V)) (k : K) (v w : V)
      → lookup k rest ≡ some w
      → lookup k m ≡ some v
      → Memᴰ (k, v) (at_keys m rest)
  unfolding lookup
  at_keys_each m [] k v w h there = cc
  at_keys_each m ((j, p) ∷ rest) k v w h there = elim (Bool-cases (keys.same j k)) [
    | inl here ↦ let e : j ≡ k = (keys.same_iff j k).0 here in rw e (rw there (Memᴰ.head refl))
    | inr other ↦
        Memᴰ-append_right (entry_at j (lookup j m))
          (at_keys_each m rest k v w (rw other at h) there)
  ]

  pub in_order_only :
      (m : List (K × V)) (k : K) (v : V) → Memᴰ (k, v) (in_order m) → lookup k m ≡ some v
  in_order_only m k v h = at_keys_only m m k v h

  pub in_order_each :
      (m : List (K × V)) (k : K) (v : V) → lookup k m ≡ some v → Memᴰ (k, v) (in_order m)
  in_order_each m k v h = at_keys_each m m k v v h h

module _ {K V : Type 0} where
  pub mapped :
      (es : List (K × V)) (k : K) (v : V) → Memᴰ (k, v) es → Memᴰ v (map (λ (e : K × V). e.1) es)
  mapped [] k v m = elim m [ ]
  mapped (e ∷ es) k v (Memᴰ.head same) = Memᴰ.head (ap (λ (x : K × V). x.1) same)
  mapped (e ∷ es) k v (Memᴰ.tail m) = Memᴰ.tail (mapped es k v m)

  pub unmapped :
      (es : List (K × V)) (v : V) → Memᴰ v (map (λ (e : K × V). e.1) es) → (k : K) × Memᴰ (k, v) es
  unmapped [] v m = elim m [ ]
  unmapped ((k, w) ∷ es) v (Memᴰ.head same) = (k, Memᴰ.head (ap (λ (x : V). (k, x)) same))
  unmapped ((k, w) ∷ es) v (Memᴰ.tail m) = let (j, n) = unmapped es v m in (j, Memᴰ.tail n)
