-- ===== src/Examples/Places.antt =====
-- An API server that admits objects under two names, and gives each the controller's label.
use federation.Common.{
  ◌≡◌, ◌≢◌, refl, sym, ap, ◌∙◌, Bool, true, Bool-cases, inl, inr, Option, none, some, List, [], ◌∷◌,
  ◌++◌, codes, if◌then◌else◌, arith, Result, ok, err, Error, not_found, failure,
}
use federation.Common.GoMap.{lookup, insert}
use federation.Config.{Labels}
use federation.Kubernetes.{Object, peer_label}
use federation.Kube.Api.{
  Api, Documented, NamespacedName, name_key, same_name, same_name_iff, key, to_map, add_all,
  labelled, is_gone,
}
use federation.Examples.Server.{matches}

abbrev pub Places : Type 0 → Type 0
Places Spec = Option Spec × Option Spec

module _ {Spec : Type 0} (p q : NamespacedName) (apart : p ≢ q) where
  abbrev pub stored : NamespacedName → Spec → Object Spec
  stored k spec = record { name = k.1; namespace = k.0; labels = peer_label; spec = spec }

  abbrev pub shown : NamespacedName → Option Spec → Option (Object Spec)
  shown k none = none
  shown k (some spec) = some (stored k spec)

  abbrev pub view : Places Spec → NamespacedName → Option (Object Spec)
  view s k = if same_name p k then shown p s.0 else (if same_name q k then shown q s.1 else none)

  abbrev pub there : NamespacedName → Option Spec → List (Object Spec)
  there k none = []
  there k (some spec) = stored k spec ∷ []

  abbrev pub listing : Labels → Places Spec → List (Object Spec)
  listing selector s = if matches selector peer_label then there p s.0 ++ there q s.1 else []

  abbrev pub put : Object Spec → Places Spec → Places Spec × Option Error
  put o s =
      if same_name p (key o)
      then ((some o.spec, s.1), none)
      else (if same_name q (key o)
          then ((s.0, some o.spec), none)
          else (s, some (failure (codes "forbidden"))))

  abbrev pub take_out : NamespacedName → Places Spec → Places Spec × Option Error
  take_out k s =
      if same_name p k
      then ((none, s.1), none)
      else (if same_name q k then ((s.0, none), none) else (s, some not_found))

  abbrev pub server : (Spec → Spec → Bool) → Api (Places Spec) Spec
  server equal = record {
    list = λ selector s. ok (listing selector s);
    apply = put;
    delete = take_out;
    deep_equal = equal;
  }

  pub listing_lem :
      (selector : Labels) (s : Places Spec) (k : NamespacedName)
      → lookup k (to_map (listing selector s)) ≡ labelled matches selector (view s k)
  unfolding to_map lookup add_all insert
  listing_lem selector (none, none) k = ground (arith, same_name_iff p k, same_name_iff q k)
  listing_lem selector (some a, none) k = ground (arith, same_name_iff p k, same_name_iff q k)
  listing_lem selector (none, some b) k =
      ground (arith, same_name_iff p k, same_name_iff q k, apart)
  listing_lem selector (some a, some b) k =
      ground (arith, same_name_iff p k, same_name_iff q k, same_name_iff p q, apart)

  pub put_lem :
      (o : Object Spec) (s : Places Spec)
      → (put o s).1 ≡ none
      → (x : Object Spec) × (view (put o s).0 (key o) ≡ some x) × (x.spec ≡ o.spec)
  put_lem o s h = elim (Bool-cases (same_name p (key o))) [
    | inl first ↦ (stored p o.spec, rw first refl, refl)
    | inr other ↦ elim (Bool-cases (same_name q (key o))) [
      | inl second ↦ (stored q o.spec, rw other (rw second refl), refl)
      | inr neither ↦ absurd (let clash = rw other at h in let worse = rw neither at clash in cc)
    ]
  ]

  pub put_else :
      (o : Object Spec) (s : Places Spec) (k : NamespacedName)
      → key o ≢ k
      → view (put o s).0 k ≡ view s k
  put_else o s k ne = ground (
    arith,
    same_name_iff p (key o),
    same_name_iff q (key o),
    same_name_iff p k,
    same_name_iff q k,
  )

  pub take_out_lem :
      (k : NamespacedName) (s : Places Spec)
      → is_gone (take_out k s).1 ≡ true
      → view (take_out k s).0 k ≡ none
  take_out_lem k s h = ground (arith, same_name_iff p k, same_name_iff q k)

  pub take_out_else :
      (j k : NamespacedName) (s : Places Spec) → j ≢ k → view (take_out j s).0 k ≡ view s k
  take_out_else j k s ne =
      ground (arith, same_name_iff p j, same_name_iff q j, same_name_iff p k, same_name_iff q k)

  values_of : Result (List (Object Spec)) → List (Object Spec)
  values_of (ok os) = os
  values_of (err e) = []

  pub listed_lem :
      (selector : Labels) (s : Places Spec) (os : List (Object Spec)) (k : NamespacedName)
      → Path (Result (List (Object Spec))) (ok (listing selector s)) (ok os)
      → lookup k (to_map os) ≡ labelled matches selector (view s k)
  unfolding values_of
  listed_lem selector s os k e =
      ap (λ (r : Result (List (Object Spec))). lookup k (to_map (values_of r))) (sym e)
      ∙ listing_lem selector s k

  abbrev pub documented :
      (equal : Spec → Spec → Bool)
      → ((a b : Spec) → equal a b ≡ true → a ≡ b)
      → Documented (server equal)
  documented equal equal_specs = record {
    view = view;
    matches = matches;
    listed = listed_lem;
    applied = put_lem;
    apply_else = put_else;
    deleted = take_out_lem;
    delete_else = take_out_else;
    equal_specs = equal_specs;
  }
