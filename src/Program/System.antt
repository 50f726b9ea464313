-- ===== src/Program/System.antt =====
-- The imports, the push requests and the reconcilers together: what `runLegacyMode` of
-- cmd/federation-controller/main.go leaves running around the channel `meshConfigPushRequests`.
-- `S` is the state of the API server, and the local services are given.
pub mod Apart
pub mod InSync
pub mod Kinds
pub mod Settled
pub mod Follows
pub mod Arrival
pub mod Reached
pub mod EndToEnd
use mathlib.Core.List.{Memᴰ}
use federation.Common.{
  ◌≡◌, Bool, true, false, text_eq, if◌then◌else◌, Option, none, some, List, [], ◌∷◌, ◌++◌, Text,
}
use federation.Common.GoMap.{lookup, text_key}
use federation.Common.Outcomes.{Outcome, done, fail, panic}
use federation.Config.{Federation}
use federation.Kubernetes.{ServiceLister}
use federation.Xds.{Any, PushRequest}
use federation.Fds.{Codec}
use federation.Fds.Store.{ImportedServiceStore}
use federation.Fds.Import.{handle}
use federation.Istio.{Library}
use federation.Kube.Sync.{Step}
use federation.Kube.Reconcilers.{reconcile_service_entries, reconcile_workload_entries}
use federation.Kube.Manager.{
  Reconciler, ReconcilerManager, new_reconciler_manager, reconcile_all, on_request,
}
use federation.Program.Reconcilers.{Cluster, Sources, istio_factory, reconcilers}

-- The store of imports, the requests that wait to be received, the API server, and what the log says
-- of the last run for each type: whether it had an error.
pub record State (S : Type 0) : Type 0 where
  pub store : ImportedServiceStore
  pub pending : List PushRequest
  pub server : S
  pub failed : Text → Bool

-- The visits of the manager's map are those of its entries.
pub record VisitsReconcilers {S : Type 0} (order : ReconcilerManager S → List (Reconciler S))
    : Type 0 where
  pub only :
      (m : ReconcilerManager S) (r : Reconciler S)
      → Memᴰ r (order m)
      → (k : Text) × (lookup k m ≡ some r)
  pub each :
      (m : ReconcilerManager S) (k : Text) (r : Reconciler S)
      → lookup k m ≡ some r
      → Memᴰ r (order m)

module _ {S : Type 0} (cluster : Cluster S) (lib : Library) (cfg : Federation) (ns : Text)
    (lister : ServiceLister) where
  abbrev pub sources : ImportedServiceStore → Sources
  sources store = record { lister = lister; store = store }

  abbrev pub manager : ImportedServiceStore → ReconcilerManager S
  manager store = new_reconciler_manager (reconcilers cluster lib cfg ns (sources store))

  -- The run for the service entries.
  abbrev pub run_service_entries : ImportedServiceStore → Step S
  run_service_entries store =
      reconcile_service_entries cluster.service_entries cluster.range_service_entries lib
        (istio_factory cfg ns (sources store))

  -- The run for the workload entries.
  abbrev pub run_workload_entries : ImportedServiceStore → Step S
  run_workload_entries store =
      reconcile_workload_entries cluster.workload_entries cluster.range_workload_entries lib
        (istio_factory cfg ns (sources store))

abbrev pub is_error : Outcome (Unit {0}) → Bool
is_error (done u) = false
is_error (fail e) = true
is_error panic = true

-- Whether the run for a request, if there is one, has an error.
abbrev pub run_fails : {S : Type 0} → Option (Reconciler S) → S → Bool
run_fails none s = false
run_fails (some r) s = is_error (r.reconcile s).1

abbrev pub noted : Text → Bool → (Text → Bool) → Text → Bool
noted url b failed u = if text_eq url u then b else failed u

module _ {S : Type 0} (cluster : Cluster S) (lib : Library) (cfg : Federation) (ns : Text)
    (lister : ServiceLister) (c : Codec) where
  -- A response from a peer is handled, other parts send requests, or one of the waiting requests, of
  -- whichever sender, is received. The requests that a handler sends wait from its update of the
  -- store. An error of a run is logged; a panic would end the process.
  pub data Move (st : State S) : State S → Type 0 where
    imported :
        (source : Text) (resources : List Any)
        → Move st (record {
          store = (handle c source resources st.store).store;
          pending = st.pending ++ (handle c source resources st.store).pushed;
          server = st.server;
          failed = st.failed;
        })
    asked :
        (requests : List PushRequest)
        → Move st (record {
          store = st.store;
          pending = st.pending ++ requests;
          server = st.server;
          failed = st.failed;
        })
    received :
        (before after : List PushRequest) (q : PushRequest)
        → st.pending ≡ before ++ q ∷ after
        → (on_request (manager cluster lib cfg ns lister st.store) q st.server).1 ≡ done tt
        → Move st (record {
          store = st.store;
          pending = before ++ after;
          server = (on_request (manager cluster lib cfg ns lister st.store) q st.server).0;
          failed =
              noted q.type_url
                (run_fails
                  (lookup q.type_url (manager cluster lib cfg ns lister st.store))
                  st.server)
                st.failed;
        })

  -- The states after the first run of all reconcilers, if it was without an error.
  pub data Reach : State S → Type 0 where
    started :
        (order : ReconcilerManager S → List (Reconciler S)) (store : ImportedServiceStore)
        (pending : List PushRequest) (s : S)
        → VisitsReconcilers order
        → (reconcile_all order (manager cluster lib cfg ns lister store) s).1 ≡ done tt
        → Reach (record {
          store = store;
          pending = pending;
          server = (reconcile_all order (manager cluster lib cfg ns lister store) s).0;
          failed = λ url. false;
        })
    later : {st st' : State S} → Reach st → Move st st' → Reach st'
