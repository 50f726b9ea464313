-- ===== src/Kube/Api.antt =====
-- The typed clients of the API server for one kind of resource, as the reconcilers use them. `S` is
-- the state of the server, and what it stores is seen through `view`.
use federation.Common.{
  ◌≡◌, ◌≢◌, ◌↔◌, Bool, true, ◌&&◌, Option, none, some, List, [], ◌∷◌, Text, text_eq, text_eq_iff,
  arith, Error, is_not_found, Result, ok, if◌then◌else◌,
}
use federation.Common.GoMap.{Key, lookup, insert}
use federation.Config.{Labels}
use federation.Kubernetes.{Object}

-- types.NamespacedName: the namespace, then the name.
abbrev pub NamespacedName : Type 0
NamespacedName = Text × Text

abbrev pub same_name : NamespacedName → NamespacedName → Bool
same_name (ns, n) (ns', n') = text_eq ns ns' && text_eq n n'

pub same_name_iff : (a b : NamespacedName) → (same_name a b ≡ true) ↔ (a ≡ b)
same_name_iff (ns, n) (ns', n') = ground (arith, text_eq_iff ns ns', text_eq_iff n n')

instance abbrev pub name_key : Key NamespacedName
name_key = record { same = same_name; same_iff = same_name_iff }

abbrev pub key : {Spec : Type 0} → Object Spec → NamespacedName
key o = (o.namespace, o.name)

-- The calls. `list` is over all namespaces by a label selector, `apply` a forced server-side apply,
-- and `deep_equal` reflect.DeepEqual on specs.
pub record Api (S Spec : Type 0) : Type 0 where
  pub list : Labels → S → Result (List (Object Spec))
  pub apply : Object Spec → S → S × Option Error
  pub delete : NamespacedName → S → S × Option Error
  pub deep_equal : Spec → Spec → Bool

-- A map of the reconcilers, from names to objects.
abbrev pub ObjectMap : Type 0 → Type 0
ObjectMap Spec = List (NamespacedName × Object Spec)

-- The order in which a `range` visits a map.
abbrev pub Range : Type 0 → Type 0
Range Spec = ObjectMap Spec → List (NamespacedName × Object Spec)

module _ {Spec : Type 0} where
  -- `for _, o := range objects { m[NamespacedName{…}] = o }`
  unfoldable pub add_all : ObjectMap Spec → List (Object Spec) → ObjectMap Spec
  add_all m [] = m
  add_all m (o ∷ os) = add_all (insert (key o) o m) os

  unfoldable pub to_map : List (Object Spec) → ObjectMap Spec
  unfolding add_all
  to_map os = add_all [] os

-- `client.IgnoreNotFound(err) == nil`.
abbrev pub is_gone : Option Error → Bool
is_gone none = true
is_gone (some e) = is_not_found e

-- The part of the server that a listing by a selector shows, and the part that it does not.
abbrev pub labelled :
    {Spec : Type 0}
    → (Labels → Labels → Bool)
    → Labels
    → Option (Object Spec)
    → Option (Object Spec)
labelled matches selector none = none
labelled matches selector (some x) = if matches selector x.labels then some x else none

abbrev pub leftover :
    {Spec : Type 0}
    → (Labels → Labels → Bool)
    → Labels
    → Option (Object Spec)
    → Option (Object Spec)
leftover matches selector none = none
leftover matches selector (some x) = if matches selector x.labels then none else some x

-- What Kubernetes documents of the calls.
pub record Documented {S Spec : Type 0} (api : Api S Spec) : Type 1 where
  pub view : S → NamespacedName → Option (Object Spec)
  pub matches : Labels → Labels → Bool
  -- A listing has the objects whose labels match.
  pub listed :
      (selector : Labels) (s : S) (os : List (Object Spec)) (k : NamespacedName)
      → api.list selector s ≡ ok os
      → lookup k (to_map os) ≡ labelled matches selector (view s k)
  -- An apply that succeeded has stored the spec; no apply touches another object.
  pub applied :
      (o : Object Spec) (s : S)
      → (api.apply o s).1 ≡ none
      → (x : Object Spec) × (view (api.apply o s).0 (key o) ≡ some x) × (x.spec ≡ o.spec)
  pub apply_else :
      (o : Object Spec) (s : S) (k : NamespacedName)
      → key o ≢ k
      → view (api.apply o s).0 k ≡ view s k
  -- After a delete that succeeded or found nothing the object is gone; no delete touches another.
  pub deleted :
      (k : NamespacedName) (s : S)
      → is_gone (api.delete k s).1 ≡ true
      → view (api.delete k s).0 k ≡ none
  pub delete_else : (j k : NamespacedName) (s : S) → j ≢ k → view (api.delete j s).0 k ≡ view s k
  -- Deeply equal specs are equal.
  pub equal_specs : (a b : Spec) → api.deep_equal a b ≡ true → a ≡ b
