-- ===== src/Program/System/Follows.antt =====
-- The service and the workload entries of the API server follow the imports.
use federation.Common.{◌≡◌, ◌⊎◌, true, Text}
use federation.Config.{Federation}
use federation.Kubernetes.{ServiceLister}
use federation.Xds.{service_entry_type_url, workload_entry_type_url}
use federation.Fds.{Codec}
use federation.Istio.{Library}
use federation.Kube.Api.{Documented}
use federation.Kube.Sync.Maps.{Visits}
use federation.Program.Reconcilers.{Cluster}
use federation.Program.System.{State, Reach}
use federation.Program.System.InSync.{KindsApart, WorkloadsApart}
use federation.Program.System.Kinds.{
  InSync, WorkloadsInSync, service_entries_kind, workload_entries_kind,
}
use federation.Program.System.Settled.{IsAwaited, Reach-Settled}

-- A request for the type waits, or the log says that its last run had an error, or the objects are as
-- wanted.
abbrev pub Follows : {S : Type 0} → Text → Type 0 → State S → Type 0
Follows url synced st = IsAwaited url st.pending ⊎ ((st.failed url ≡ true) ⊎ synced)

module _ {S : Type 0} (cluster : Cluster S) (lib : Library) (cfg : Federation) (ns : Text)
    (lister : ServiceLister) (c : Codec) (doc : Documented cluster.service_entries)
    (visits : Visits cluster.range_service_entries) (kinds : KindsApart cluster doc.view)
    (w_doc : Documented cluster.workload_entries) (w_visits : Visits cluster.range_workload_entries)
    (w_kinds : WorkloadsApart cluster w_doc.view) where
  -- With an API server as documented, whose calls for other kinds leave service and workload entries
  -- alone, in every state that the program can reach by imports, push requests and their reception in
  -- any order, whichever calls fail after the first run of all reconcilers, for the service entries and
  -- for the workload entries: a request for them waits, or their last run had an error, or those of the
  -- API server are the ones that the imports want.
  pub Reach-Follows :
      {st : State S}
      → Reach cluster lib cfg ns lister c st
      → Follows service_entry_type_url
          (InSync cluster doc visits kinds lib cfg ns lister st.store st.server)
          st
        × Follows workload_entry_type_url
            (WorkloadsInSync cluster w_doc w_visits w_kinds lib cfg ns lister st.store st.server)
            st
  unfolding service_entries_kind workload_entries_kind
  Reach-Follows r = (
    Reach-Settled c (service_entries_kind cluster doc visits kinds lib cfg ns lister) r,
    Reach-Settled c (workload_entries_kind cluster w_doc w_visits w_kinds lib cfg ns lister) r,
  )
