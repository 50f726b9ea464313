-- ===== src/Kube/Sync/Last.antt =====
-- The map of a list has, under the name of an object that no other one of its name differs from, this
-- object.
use mathlib.Core.List.{Memᴰ}
use federation.Common.{
  ◌≡◌, refl, sym, ap, ◌∙◌, ◌⊎◌, inl, inr, Bool-cases, some, List, [], ◌∷◌, ◌++◌, if◌then◌else◌,
}
use federation.Common.GoMap.{lookup, insert, lookup-insert}
use federation.Kubernetes.{Object}
use federation.Kube.Api.{name_key, same_name, same_name_iff, key, ObjectMap, add_all, to_map}

module _ {Spec : Type 0} (e : Object Spec) where
  -- No object of the list has its name and differs.
  abbrev pub IsAlone : List (Object Spec) → Type 0
  IsAlone os = (o : Object Spec) → Memᴰ o os → key o ≡ key e → o ≡ e

  add_all-last :
      (m : ObjectMap Spec) (os : List (Object Spec))
      → IsAlone os
      → (lookup (key e) m ≡ some e) ⊎ Memᴰ e os
      → lookup (key e) (add_all m os) ≡ some e
  unfolding add_all
  add_all-last m [] alone (inl h) = h
  add_all-last m [] alone (inr n) = elim n [ ]
  add_all-last m (o ∷ rest) alone h =
      add_all-last (insert (key o) o m) rest (λ x n. alone x (Memᴰ.tail n)) (next h)
    where
      inserted :
          lookup (key e) (insert (key o) o m)
          ≡ (if same_name (key o) (key e) then some o else lookup (key e) m)
      inserted = lookup-insert (key o) (key e) o m

      next :
          (lookup (key e) m ≡ some e) ⊎ Memᴰ e (o ∷ rest)
          → (lookup (key e) (insert (key o) o m) ≡ some e) ⊎ Memᴰ e rest
      next (inl k) = elim (Bool-cases (same_name (key o) (key e))) [
        | inl same ↦ inl (
            inserted
            ∙ rw same (ap some (alone o (Memᴰ.head refl) ((same_name_iff (key o) (key e)).0 same))))
        | inr other ↦ inl (inserted ∙ rw other k)
      ]
      next (inr (Memᴰ.head q)) =
          inl (inserted ∙ rw ((same_name_iff (key o) (key e)).1 (ap key (sym q))) (ap some (sym q)))
      next (inr (Memᴰ.tail n)) = inr n

  add_all-append :
      (m : ObjectMap Spec) (xs ys : List (Object Spec))
      → add_all m (xs ++ ys) ≡ add_all (add_all m xs) ys
  unfolding add_all
  add_all-append m [] ys = refl
  add_all-append m (x ∷ xs) ys = add_all-append (insert (key x) x m) xs ys

  -- The last part of the list decides.
  pub to_map-last :
      (xs ys : List (Object Spec))
      → IsAlone ys
      → Memᴰ e ys
      → lookup (key e) (to_map (xs ++ ys)) ≡ some e
  unfolding to_map
  to_map-last xs ys alone there =
      ap (lookup (key e)) (add_all-append [] xs ys)
      ∙ add_all-last (add_all [] xs) ys alone (inr there)
