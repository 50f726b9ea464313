-- ===== src/Examples/Server.antt =====
-- An API server that admits objects under one name, a concrete instance of what the reconcilers take
-- as a parameter.
use federation.Common.{
  ◌≡◌, ◌≢◌, refl, sym, ap, ◌∙◌, Bool, true, false, Bool-cases, inl, inr, Option, none, some, List,
  [], ◌∷◌, codes, text_eq, if◌then◌else◌, arith, Result, ok, err, Error, not_found, failure,
}
use federation.Common.GoMap.{lookup, insert}
use federation.Config.{Labels}
use federation.Kubernetes.{Object}
use federation.Kube.Api.{
  Api, Documented, NamespacedName, name_key, same_name, same_name_iff, key, to_map, add_all,
  labelled, is_gone,
}
use federation.Kube.Sync.Maps.{Visits}
use federation.Examples.Ranges.{in_order, in_order_only, in_order_each}

-- Labels are compared on the first key alone.
abbrev pub matches : Labels → Labels → Bool
matches [] labels = true
matches (s ∷ rest) [] = false
matches (s ∷ rest) (l ∷ rest') = text_eq s.0 l.0

-- What stands under the one name.
abbrev pub Slot : Type 0 → Type 0
Slot Spec = Option (Labels × Spec)

module _ {Spec : Type 0} (slot : NamespacedName) where
  abbrev pub stored : Labels × Spec → Object Spec
  stored c = record { name = slot.1; namespace = slot.0; labels = c.0; spec = c.1 }

  abbrev pub slot_view : Slot Spec → NamespacedName → Option (Object Spec)
  slot_view none k = none
  slot_view (some c) k = if same_name slot k then some (stored c) else none

  abbrev pub listing : Labels → Slot Spec → List (Object Spec)
  listing selector none = []
  listing selector (some c) = if matches selector c.0 then stored c ∷ [] else []

  abbrev pub slot_apply : Object Spec → Slot Spec → Slot Spec × Option Error
  slot_apply o s =
      if same_name slot (key o)
      then (some (o.labels, o.spec), none)
      else (s, some (failure (codes "forbidden")))

  abbrev pub clear : Slot Spec → Slot Spec × Option Error
  clear none = (none, some not_found)
  clear (some c) = (none, none)

  abbrev pub slot_delete : NamespacedName → Slot Spec → Slot Spec × Option Error
  slot_delete k s = if same_name slot k then clear s else (s, some not_found)

  abbrev pub server : (Spec → Spec → Bool) → Api (Slot Spec) Spec
  server equal = record {
    list = λ selector s. ok (listing selector s);
    apply = slot_apply;
    delete = slot_delete;
    deep_equal = equal;
  }

  pub slot_listed :
      (selector : Labels) (s : Slot Spec) (k : NamespacedName)
      → lookup k (to_map (listing selector s)) ≡ labelled matches selector (slot_view s k)
  unfolding to_map lookup add_all insert
  slot_listed selector none k = refl
  slot_listed selector (some c) k = ground arith

  pub slot_applied :
      (o : Object Spec) (s : Slot Spec)
      → (slot_apply o s).1 ≡ none
      → (x : Object Spec) × (slot_view (slot_apply o s).0 (key o) ≡ some x) × (x.spec ≡ o.spec)
  slot_applied o s h = elim (Bool-cases (same_name slot (key o))) [
    | inl here ↦ (stored (o.labels, o.spec), rw here (rw here refl), refl)
    | inr other ↦ absurd (let clash = rw other at h in cc)
  ]

  pub slot_apply_else :
      (o : Object Spec) (s : Slot Spec) (k : NamespacedName)
      → key o ≢ k
      → slot_view (slot_apply o s).0 k ≡ slot_view s k
  slot_apply_else o none k ne = ground (arith, same_name_iff slot (key o), same_name_iff slot k)
  slot_apply_else o (some c) k ne = ground (arith, same_name_iff slot (key o), same_name_iff slot k)

  pub slot_deleted :
      (k : NamespacedName) (s : Slot Spec)
      → is_gone (slot_delete k s).1 ≡ true
      → slot_view (slot_delete k s).0 k ≡ none
  slot_deleted k none h = ground arith
  slot_deleted k (some c) h = ground arith

  pub slot_delete_else :
      (j k : NamespacedName) (s : Slot Spec)
      → j ≢ k
      → slot_view (slot_delete j s).0 k ≡ slot_view s k
  slot_delete_else j k none ne = ground arith
  slot_delete_else j k (some c) ne = ground (arith, same_name_iff slot j, same_name_iff slot k)

  -- The server behaves as documented, whatever test of specs is given that only equal specs pass.
  abbrev pub documented :
      (equal : Spec → Spec → Bool)
      → ((a b : Spec) → equal a b ≡ true → a ≡ b)
      → Documented (server equal)
  documented equal equal_specs = record {
    view = slot_view;
    matches = matches;
    listed = λ selector s os k e.
        ap (λ (r : Result (List (Object Spec))). lookup k (to_map (values_of r))) (sym e)
        ∙ slot_listed selector s k;
    applied = slot_applied;
    apply_else = slot_apply_else;
    deleted = slot_deleted;
    delete_else = slot_delete_else;
    equal_specs = equal_specs;
  }
    where
      values_of : Result (List (Object Spec)) → List (Object Spec)
      values_of (ok os) = os
      values_of (err e) = []

pub in_order-Visits : {Spec : Type 0} → Visits {Spec = Spec} in_order
in_order-Visits = record {
  only = λ m k o h. in_order_only m k o h;
  each = λ m k o h. in_order_each m k o h;
}
