-- ===== src/Kube/Sync.antt =====
-- The body that the reconcilers of destination rules, envoy filters, routes, service entries and
-- workload entries share: list, apply what is new or differs, delete what is no longer wanted.
pub mod Loops
pub mod Maps
pub mod Rounds
pub mod Converge
pub mod Correct
pub mod Settled
pub mod Apart
pub mod Last
use federation.Common.{
  ◌≡◌, refl, Bool, true, false, not, Option, none, some, List, [], ◌∷◌, Text, Error, not_found,
  Result, ok, err, wrap,
}
use federation.Common.GoMap.{lookup}
use federation.Common.Outcomes.{Outcome, done, fail, panic}
use federation.Config.{Labels}
use federation.Kubernetes.{Object}
use federation.Kube.Api.{Api, NamespacedName, name_key, key, ObjectMap, Range, to_map}

-- A step of a loop that may return early: the state, and the result.
abbrev pub Step : Type 0 → Type 0
Step S = S → S × Outcome (Unit {0})

abbrev pub and_then : {S : Type 0} → S × Outcome (Unit {0}) → Step S → S × Outcome (Unit {0})
and_then (s, done u) next = next s
and_then (s, fail e) next = (s, fail e)
and_then (s, panic) next = (s, panic)

unfoldable pub for_each : {A S : Type 0} → (A → Step S) → List A → Step S
for_each body [] s = (s, done tt)
for_each body (a ∷ rest) s = and_then (body a s) (for_each body rest)

-- `if err != nil { return fmt.Errorf(context, err) }` after a call that changes the state.
abbrev pub report : {S : Type 0} → Text → S × Option Error → S × Outcome (Unit {0})
report context (s, none) = (s, done tt)
report context (s, some e) = (s, fail (wrap context e))

-- The same, with NotFound ignored.
abbrev pub report_found : {S : Type 0} → Text → S × Option Error → S × Outcome (Unit {0})
report_found context (s, none) = (s, done tt)
report_found context (s, some not_found) = (s, done tt)
report_found context (s, some e) = (s, fail (wrap context e))

-- The texts of the errors of one reconciler.
pub record Contexts : Type 0 where
  pub list : Text
  pub apply : Text
  pub delete : Text

module _ {S Spec : Type 0} (api : Api S Spec) (contexts : Contexts) where
  -- `!ok || !reflect.DeepEqual(&old.Spec, &o.Spec)`.
  unfoldable pub needs_apply : Object Spec → Option (Object Spec) → Bool
  needs_apply o none = true
  needs_apply o (some old) = not (api.deep_equal old.spec o.spec)

  abbrev pub apply_if : Bool → Object Spec → Step S
  apply_if true o s = report contexts.apply (api.apply o s)
  apply_if false o s = (s, done tt)

  -- The body of the first loop.
  unfoldable pub apply_body : ObjectMap Spec → NamespacedName × Object Spec → Step S
  unfolding needs_apply
  apply_body old (k, o) s = apply_if (needs_apply o (lookup k old)) o s

  abbrev pub delete_unless : Option (Object Spec) → Object Spec → Step S
  delete_unless (some wanted) o s = (s, done tt)
  delete_unless none o s = report_found contexts.delete (api.delete (key o) s)

  -- The body of the second loop.
  unfoldable pub delete_body : ObjectMap Spec → NamespacedName × Object Spec → Step S
  delete_body wanted (k, o) s = delete_unless (lookup k wanted) o s

module _ {S Spec : Type 0} (api : Api S Spec) (range : Range Spec) (contexts : Contexts) where
  -- What follows the listing.
  unfoldable pub sync_listed : List (Object Spec) → Result (List (Object Spec)) → Step S
  sync_listed wanted (err e) s = (s, fail (wrap contexts.list e))
  sync_listed wanted (ok old) s =
      and_then (for_each (apply_body api contexts (to_map old)) (range (to_map wanted)) s)
        (for_each (delete_body api contexts (to_map wanted)) (range (to_map old)))

  unfoldable pub sync : Labels → List (Object Spec) → Step S
  unfolding sync_listed apply_body delete_body for_each
  sync selector wanted s = sync_listed wanted (api.list selector s) s
