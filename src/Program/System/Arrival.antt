-- ===== src/Program/System/Arrival.antt =====
-- From a response of a peer to the API server.
use federation.Common.{
  ◌≡◌, ◌≢◌, refl, ap, ◌∙◌, ◌⊎◌, inl, inr, Bool, true, false, some, List, [], ok, ◌∷◌, Text, text_eq,
  text_eq_iff,
}
use federation.Common.GoMap.{lookup, text_key}
use federation.Common.Outcomes.{Outcome, done, fail, panic}
use federation.Config.{Federation}
use federation.Kubernetes.{ServiceLister}
use federation.Xds.{Any, PushRequest}
use federation.Fds.{Codec, FederatedService}
use federation.Fds.Store.{ImportedServiceStore, update}
use federation.Fds.Import.{handle, decode_all, import_pushes}
use federation.Istio.{Library}
use federation.Kube.Sync.{Step, for_each, and_then}
use federation.Kube.Sync.Loops.{and_then_done}
use federation.Kube.Manager.{Reconciler, ReconcilerManager, on_request, start, start_handles_all}
use federation.Program.Reconcilers.{Cluster}
use federation.Program.System.{manager, run_fails}
use federation.Program.System.Apart.{different}
use federation.Program.System.Kinds.{Kind, kind_served}
use federation.Program.System.Settled.{
  IsAwaited, IsAwaited-without, on_request-Synced, on_request-syncs,
}

module _ {S : Type 0} {cluster : Cluster S} {lib : Library} {cfg : Federation} {ns : Text}
    {lister : ServiceLister} (kind : Kind cluster lib cfg ns lister) (store : ImportedServiceStore)
    (calm : (url : Text) (r : Reconciler S) (s : S)
      → lookup url (manager cluster lib cfg ns lister store) ≡ some r
      → (r.reconcile s).1 ≢ panic)
    (succeed : (s : S) → (kind.run store s).1 ≡ done tt) where
  abbrev m : ReconcilerManager S
  m = manager cluster lib cfg ns lister store

  request_done : (q : PushRequest) (s : S) → (on_request m q s).1 ≡ done tt
  unfolding start
  request_done q s =
      (and_then_done (on_request m q s) (for_each (on_request m) [])
        (start_handles_all m (q ∷ []) s calm)).0

  next : (x : S × Outcome (Unit {0})) (k : Step S) → x.1 ≡ done tt → and_then x k ≡ k x.0
  next (s, done u) k h = refl
  next (s, fail e) k h = absurd (cc)
  next (s, panic) k h = absurd (cc)

  -- Its run has no error.
  runs_well :
      (q : PushRequest) (s : S) → q.type_url ≡ kind.url → run_fails (lookup q.type_url m) s ≡ false
  runs_well q s this =
      let (r, found, e) = kind_served kind store in
      let here : lookup q.type_url m ≡ some r = ap (λ u. lookup u m) this ∙ found in
      let well = ap (λ (step : Step S). (step s).1) e ∙ succeed s in rw here (rw well refl)

  -- Requests among which one is for the kind bring it in sync.
  pub start-Synced :
      (requests : List PushRequest) (s : S)
      → IsAwaited kind.url requests ⊎ kind.Synced store s
      → kind.Synced store (start m requests s).0
  unfolding start for_each
  start-Synced [] s (inl (q, n, e)) = elim n [ ]
  start-Synced [] s (inr synced) = synced
  start-Synced (q ∷ qs) s h =
      rw (next (on_request m q s) (start m qs) (request_done q s))
        (start-Synced qs (on_request m q s).0 (by_type (text_eq q.type_url kind.url) refl h))
    where
      by_type :
          (b : Bool)
          → text_eq q.type_url kind.url ≡ b
          → IsAwaited kind.url (q ∷ qs) ⊎ kind.Synced store s
          → IsAwaited kind.url qs ⊎ kind.Synced store (on_request m q s).0
      by_type true e p =
          let this = (text_eq_iff q.type_url kind.url).0 e in
          inr (on_request-syncs kind store q s this (runs_well q s this))
      by_type false e (inl waits) =
          inl (IsAwaited-without kind.url [] qs q (different q.type_url kind.url e) waits)
      by_type false e (inr synced) =
          inr (on_request-Synced kind store q s (different q.type_url kind.url e) synced)

-- A response that decodes reaches the API server: once the requests that its handler sends are
-- handled, the kind is in sync with the imports, the new ones among them.
pub handle-Synced :
    {S : Type 0} {cluster : Cluster S} {lib : Library} {cfg : Federation} {ns : Text}
    {lister : ServiceLister} (kind : Kind cluster lib cfg ns lister) (c : Codec) (source : Text)
    (resources : List Any) (services : List FederatedService) (store : ImportedServiceStore) (s : S)
    → decode_all c resources ≡ ok services
    → ((url : Text) (r : Reconciler S) (t : S)
        → lookup url (manager cluster lib cfg ns lister (update source services store)) ≡ some r
        → (r.reconcile t).1 ≢ panic)
    → ((t : S) → (kind.run (update source services store) t).1 ≡ done tt)
    → kind.Synced
        (update source services store)
        (start
          (manager cluster lib cfg ns lister (handle c source resources store).store)
          (handle c source resources store).pushed
          s).0
unfolding handle
handle-Synced kind c source resources services store s e calm succeed = rw e (
    start-Synced kind (update source services store) calm succeed import_pushes s
      (inl kind.asked_for))
