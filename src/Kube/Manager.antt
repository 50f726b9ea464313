-- ===== src/Kube/Manager.antt =====
-- internal/pkg/legacy/kube/reconciler_manager.go: the reconcilers by the type that they are for, run
-- all together at the start and one by one on push requests.
use federation.Common.{
  ◌≡◌, ◌≢◌, refl, ◌↔◌, Option, none, some, List, [], ◌∷◌, Text, Error, join_errors,
}
use federation.Common.GoMap.{lookup, insert, text_key}
use federation.Common.Outcomes.{Outcome, done, fail, panic}
use federation.Xds.{PushRequest}
use federation.Kube.Sync.{Step, for_each, and_then}

pub record Reconciler (S : Type 0) : Type 0 where
  pub type_url : Text
  pub reconcile : Step S

-- The map `reconcilers`.
abbrev pub ReconcilerManager : Type 0 → Type 0
ReconcilerManager S = List (Text × Reconciler S)

module _ {S : Type 0} where
  unfoldable pub register : ReconcilerManager S → List (Reconciler S) → ReconcilerManager S
  register m [] = m
  register m (r ∷ rs) = register (insert r.type_url r m) rs

  unfoldable pub new_reconciler_manager : List (Reconciler S) → ReconcilerManager S
  unfolding register
  new_reconciler_manager rs = register [] rs

  -- One more error for the slice, unless a later call panicked.
  abbrev pub with_error :
      Option Error → S × Outcome (List (Option Error)) → S × Outcome (List (Option Error))
  with_error e (s, done es) = (s, done (e ∷ es))
  with_error e (s, fail f) = (s, fail f)
  with_error e (s, panic) = (s, panic)

  -- The errors of a list of reconcilers, each run on what the ones before it left.
  unfoldable pub run_all : List (Reconciler S) → S → S × Outcome (List (Option Error))
  run_all [] s = (s, done [])
  run_all (r ∷ rs) s =
      let (t, outcome) = r.reconcile s in
      elim outcome [
        | done u ↦ with_error none (run_all rs t)
        | fail e ↦ with_error (some e) (run_all rs t)
        | panic ↦ (t, panic)
      ]

  -- `return errors.Join(reconcileErrs...)`.
  abbrev pub joined_result : S × Outcome (List (Option Error)) → S × Outcome (Unit {0})
  joined_result (s, done es) = (s, elim (join_errors es) [ none ↦ done tt | some e ↦ fail e ])
  joined_result (s, fail e) = (s, fail e)
  joined_result (s, panic) = (s, panic)

  -- `ReconcileAll`; `order` is the order in which the range visits the map.
  unfoldable pub reconcile_all :
      (ReconcilerManager S → List (Reconciler S)) → ReconcilerManager S → Step S
  unfolding run_all
  reconcile_all order m s = joined_result (run_all (order m) s)

  -- A failure is logged.
  abbrev pub logged : S × Outcome (Unit {0}) → S × Outcome (Unit {0})
  logged (s, fail e) = (s, done tt)
  logged (s, done u) = (s, done u)
  logged (s, panic) = (s, panic)

  abbrev pub run_found : Option (Reconciler S) → Step S
  run_found none s = (s, done tt)
  run_found (some r) s = logged (r.reconcile s)

  -- The body of the loop of `Start`, for one push request.
  unfoldable pub on_request : ReconcilerManager S → PushRequest → Step S
  on_request m request s = run_found (lookup request.type_url m) s

  -- `Start`, for the requests that arrive before the context is done.
  unfoldable pub start : ReconcilerManager S → List PushRequest → Step S
  unfolding on_request for_each
  start m requests = for_each (on_request m) requests

module _ {S : Type 0} where
  abbrev each : List (Reconciler S) → Step S
  each = for_each (λ (r : Reconciler S). r.reconcile)

  -- The loop's result from the outcome of the first reconciler, and what the rest gives.
  abbrev next_run :
      S × Outcome (Unit {0})
      → (S → S × Outcome (List (Option Error)))
      → S × Outcome (List (Option Error))
  next_run (t, done u) rest = with_error none (rest t)
  next_run (t, fail e) rest = with_error (some e) (rest t)
  next_run (t, panic) rest = (t, panic)

  run_all-cons :
      (r : Reconciler S) (rs : List (Reconciler S)) (s : S)
      → run_all (r ∷ rs) s ≡ next_run (r.reconcile s) (run_all rs)
  unfolding run_all
  run_all-cons r rs s = go (r.reconcile s)
    where
      go :
          (x : S × Outcome (Unit {0}))
          → elim x.1 [
            | done u ↦ with_error none (run_all rs x.0)
            | fail e ↦ with_error (some e) (run_all rs x.0)
            | panic ↦ (x.0, panic)
          ]
            ≡ next_run x (run_all rs)
      go (t, done u) = refl
      go (t, fail e) = refl
      go (t, panic) = refl

  joined_with_none :
      (x : S × Outcome (List (Option Error))) → joined_result (with_error none x) ≡ joined_result x
  unfolding join_errors
  joined_with_none (s, done es) = refl
  joined_with_none (s, fail e) = refl
  joined_with_none (s, panic) = refl

  joined_with_some :
      (e : Error) (x : S × Outcome (List (Option Error))) (t : S)
      → joined_result (with_error (some e) x) ≡ (t, done tt)
      → ⊥
  unfolding join_errors
  joined_with_some e (s, done es) t h = go (join_errors es) refl
    where
      go : (o : Option Error) → join_errors es ≡ o → ⊥
      go none k = let bad = rw k at h in cc
      go (some f) k = let bad = rw k at h in cc
  joined_with_some e (s, fail f) t h = cc
  joined_with_some e (s, panic) t h = cc

  run_all_iff :
      (rs : List (Reconciler S)) (s t : S)
      → (joined_result (run_all rs s) ≡ (t, done tt)) ↔ (each rs s ≡ (t, done tt))
  unfolding for_each
  run_all_iff [] s t = unfold run_all in unfold join_errors in (λ h. h, λ h. h)
  run_all_iff (r ∷ rs) s t = rw (run_all-cons r rs s) (go (λ u. run_all_iff rs u t) (r.reconcile s))
    where
      go :
          ((u : S) → (joined_result (run_all rs u) ≡ (t, done tt)) ↔ (each rs u ≡ (t, done tt)))
          → (x : S × Outcome (Unit {0}))
          → (joined_result (next_run x (run_all rs)) ≡ (t, done tt))
            ↔ (and_then x (each rs) ≡ (t, done tt))
      go ih (u, done v) = rw (joined_with_none (run_all rs u)) (ih u)
      go ih (u, fail e) = (λ h. absurd (joined_with_some e (run_all rs u) t h), λ h. absurd (cc))
      go ih (u, panic) = (λ h. absurd (cc), λ h. absurd (cc))

  -- Although a failure does not end the loop over the reconcilers, no error comes out of it exactly
  -- when running them in the same order up to the first failure meets none, and then the two leave
  -- the same state.
  pub reconcile_all_ok_iff :
      (order : ReconcilerManager S → List (Reconciler S)) (m : ReconcilerManager S) (s t : S)
      → (reconcile_all order m s ≡ (t, done tt))
        ↔ (for_each (λ (r : Reconciler S). r.reconcile) (order m) s ≡ (t, done tt))
  unfolding reconcile_all
  reconcile_all_ok_iff order m s t = run_all_iff (order m) s t

  -- If no registered reconciler panics, a run over any push requests ends with all of them handled:
  -- the errors that reconcilers return, and requests for other types, do not stop it.
  pub start_handles_all :
      (m : ReconcilerManager S) (requests : List PushRequest) (s : S)
      → ((url : Text) (r : Reconciler S) (t : S)
          → lookup url m ≡ some r
          → (r.reconcile t).1 ≢ panic)
      → (start m requests s).1 ≡ done tt
  unfolding start
  start_handles_all m [] s calm = refl
  start_handles_all m (q ∷ qs) s calm =
      found (λ t. start_handles_all m qs t calm) (lookup q.type_url m)
        (λ r t e. calm q.type_url r t e)
    where
      after :
          ((t : S) → (start m qs t).1 ≡ done tt)
          → (x : S × Outcome (Unit {0})) → x.1 ≢ panic
          → (and_then (logged x) (start m qs)).1 ≡ done tt
      after ih (t, done u) ne = ih t
      after ih (t, fail e) ne = ih t
      after ih (t, panic) ne = absurd (ne refl)

      found :
          ((t : S) → (start m qs t).1 ≡ done tt)
          → (o : Option (Reconciler S))
          → ((r : Reconciler S) (t : S) → o ≡ some r → (r.reconcile t).1 ≢ panic)
          → (and_then (run_found o s) (start m qs)).1 ≡ done tt
      found ih none h = ih s
      found ih (some r) h = after ih (r.reconcile s) (h r s refl)
