-- ===== src/Kube/Sync/Maps.antt =====
-- The maps of the reconcilers: keys are the objects' own, and a range visits what is there.
use mathlib.Core.List.{Memᴰ}
use federation.Common.{◌≡◌, some, List, [], ◌∷◌, arith}
use federation.Common.GoMap.{lookup, insert, lookup-insert}
use federation.Kubernetes.{Object}
use federation.Kube.Api.{
  NamespacedName, name_key, same_name_iff, key, ObjectMap, Range, add_all, to_map,
}

-- A range visits exactly the entries of the map.
pub record Visits {Spec : Type 0} (range : Range Spec) : Type 0 where
  pub only :
      (m : ObjectMap Spec) (k : NamespacedName) (o : Object Spec)
      → Memᴰ (k, o) (range m)
      → lookup k m ≡ some o
  pub each :
      (m : ObjectMap Spec) (k : NamespacedName) (o : Object Spec)
      → lookup k m ≡ some o
      → Memᴰ (k, o) (range m)

module _ {Spec : Type 0} where
  abbrev IsKeyed : ObjectMap Spec → Type 0
  IsKeyed m = (k : NamespacedName) (o : Object Spec) → lookup k m ≡ some o → key o ≡ k

  add_all-IsKeyed :
      (m : ObjectMap Spec) (os : List (Object Spec)) → IsKeyed m → IsKeyed (add_all m os)
  unfolding add_all
  add_all-IsKeyed m [] h = h
  add_all-IsKeyed m (o ∷ os) h =
      add_all-IsKeyed (insert (key o) o m) os
        (λ k x e. ground (arith, lookup-insert (key o) k o m, same_name_iff (key o) k, h k x))

  -- Every object stands under its own name.
  pub to_map_keyed :
      (os : List (Object Spec)) (k : NamespacedName) (o : Object Spec)
      → lookup k (to_map os) ≡ some o
      → key o ≡ k
  unfolding to_map
  to_map_keyed os = add_all-IsKeyed [] os (λ k o e. absurd (unfold lookup in cc))
