-- ===== src/Kube/Sync/Rounds.antt =====
-- What one round of the loops of `sync` does to the API server.
use federation.Common.{
  Text, ◌≡◌, ◌≢◌, refl, Bool, true, false, Option, none, some, Error, not_found, arith,
}
use federation.Common.Outcomes.{done}
use federation.Kubernetes.{Object}
use federation.Kube.Api.{Api, Documented, NamespacedName, name_key, key, is_gone}
use federation.Kube.Sync.{Contexts, report, report_found, apply_if, delete_unless, needs_apply}

-- An object with the wanted one's spec.
abbrev pub HasSpec : {Spec : Type 0} → Option (Object Spec) → Object Spec → Type 0
HasSpec {Spec} v o = (x : Object Spec) × (v ≡ some x) × (x.spec ≡ o.spec)

module _ {S : Type 0} (context : Text) where
  pub report_state : (r : S × Option Error) → (report context r).0 ≡ r.0
  report_state (s, none) = refl
  report_state (s, some e) = refl

  report_ok : (r : S × Option Error) → (report context r).1 ≡ done tt → r.1 ≡ none
  report_ok (s, none) h = refl
  report_ok (s, some e) h = absurd (cc)

  pub report_found_state : (r : S × Option Error) → (report_found context r).0 ≡ r.0
  report_found_state (s, none) = refl
  report_found_state (s, some not_found) = refl
  report_found_state (s, some e) = refl

  report_found_ok :
      (r : S × Option Error) → (report_found context r).1 ≡ done tt → is_gone r.1 ≡ true
  report_found_ok (s, none) h = refl
  report_found_ok (s, some not_found) h = refl
  report_found_ok (s, some e) h = absurd (cc)

module _ {S Spec : Type 0} (api : Api S Spec) (doc : Documented api) (contexts : Contexts) where
  open doc use {view}

  -- A round of the first loop leaves other names alone.
  pub apply_if_else :
      (b : Bool) (o : Object Spec) (s : S) (k : NamespacedName)
      → key o ≢ k
      → view (apply_if api contexts b o s).0 k ≡ view s k
  apply_if_else true o s k ne =
      rw (report_state contexts.apply (api.apply o s)) (doc.apply_else o s k ne)
  apply_if_else false o s k ne = refl

  -- A round of the second loop leaves other names alone.
  pub delete_unless_else :
      (w : Option (Object Spec)) (o : Object Spec) (s : S) (k : NamespacedName)
      → key o ≢ k
      → view (delete_unless api contexts w o s).0 k ≡ view s k
  delete_unless_else (some w) o s k ne = refl
  delete_unless_else none o s k ne =
      rw (report_found_state contexts.delete (api.delete (key o) s))
        (doc.delete_else (key o) k s ne)

  -- An apply that ended well has stored the spec.
  pub applied_well :
      (o : Object Spec) (s : S)
      → (apply_if api contexts true o s).1 ≡ done tt
      → HasSpec (view (apply_if api contexts true o s).0 (key o)) o
  applied_well o s h =
      let r = api.apply o s in
      rw (report_state contexts.apply r) (doc.applied o s (report_ok contexts.apply r h))

  -- A delete that ended well has removed the object.
  pub deleted_well :
      (o : Object Spec) (s : S)
      → (delete_unless api contexts none o s).1 ≡ done tt
      → view (delete_unless api contexts none o s).0 (key o) ≡ none
  deleted_well o s h =
      let r = api.delete (key o) s in
      rw (report_found_state contexts.delete r)
        (doc.deleted (key o) s (report_found_ok contexts.delete r h))

  -- If nothing needs applying, the old object has the spec.
  pub no_need :
      (o : Object Spec) (found : Option (Object Spec))
      → needs_apply api contexts o found ≡ false
      → HasSpec found o
  unfolding needs_apply
  no_need o none h = absurd (cc)
  no_need o (some old) h = (old, refl, doc.equal_specs old.spec o.spec (ground arith))
