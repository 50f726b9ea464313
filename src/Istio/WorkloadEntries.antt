-- ===== src/Istio/WorkloadEntries.antt =====
-- `WorkloadEntries`: remote endpoints for services that exist locally too.
pub mod Exact
use federation.Common.{
  ℕ, suc, ◌+◌, ◌≡◌, refl, ap, ◌∙◌, sym, Bool, true, false, Option, none, some, List, [], ◌∷◌, ◌++◌,
  Text, codes, if◌then◌else◌, Result, ok, err, Error, is_not_found, wrap,
}
use federation.Common.Decimal.{format}
use federation.Common.Outcomes.{Outcome, done, fail, panic, ◌>>=◌}
use federation.Config.{Remote}
use federation.Kubernetes.{Object, Service, peer_label}
use federation.Fds.{FederatedService}
use federation.Fds.Store.{from}
use federation.Networking.{resolve}
use federation.Istio.{ConfigFactory, Library, WorkloadEntrySpec}
use federation.Istio.Names.{get_service_name_and_ns}
use federation.Istio.ServiceEntries.{import_endpoint, get_context}

-- The entry for one address, numbered by its place.
unfoldable pub workload_entry :
    Library → Remote → FederatedService → Text × Text → ℕ → Text → Object WorkloadEntrySpec
workload_entry lib remote svc parts idx ip = record {
  name = codes "import-" ++ (remote.name ++ (codes "-" ++ (parts.0 ++ (codes "-" ++ format idx))));
  namespace = parts.1;
  labels = peer_label;
  spec = import_endpoint lib remote svc ip;
}

-- `for idx, ip := range …`.
unfoldable pub numbered :
    Library
    → Remote
    → FederatedService
    → Text × Text
    → ℕ
    → List Text
    → List (Object WorkloadEntrySpec)
numbered lib remote svc parts idx [] = []
numbered lib remote svc parts idx (ip ∷ ips) =
    workload_entry lib remote svc parts idx ip ∷ numbered lib remote svc parts (suc idx) ips

-- The lister's answer decides: only a service that is there gets entries.
unfoldable pub entries_of :
    Library
    → Remote
    → FederatedService
    → Text × Text
    → Result Service
    → Outcome (List (Object WorkloadEntrySpec))
entries_of lib remote svc parts (ok found) =
    done (numbered lib remote svc parts 0 (resolve lib.network remote.addresses))
entries_of lib remote svc parts (err e) =
    if is_not_found e then done [] else fail (wrap get_context e)

-- The body of the loop over the services.
unfoldable pub import_body :
    Library → ConfigFactory → Remote → FederatedService → Outcome (List (Object WorkloadEntrySpec))
import_body lib cf remote svc = do
  parts ← get_service_name_and_ns svc.hostname
  entries_of lib remote svc parts (cf.service_lister.get parts.1 parts.0)

unfoldable pub service_loop :
    Library
    → ConfigFactory
    → Remote
    → List FederatedService
    → Outcome (List (Object WorkloadEntrySpec))
service_loop lib cf remote [] = done []
service_loop lib cf remote (svc ∷ rest) = do
  first ← import_body lib cf remote svc
  others ← service_loop lib cf remote rest
  done (first ++ others)

remote_loop : Library → ConfigFactory → List Remote → Outcome (List (Object WorkloadEntrySpec))
remote_loop lib cf [] = done []
remote_loop lib cf (remote ∷ rest) = do
  first ← service_loop lib cf remote (from cf.imported_service_store remote)
  others ← remote_loop lib cf rest
  done (first ++ others)

unfoldable pub workload_entries :
    Library → ConfigFactory → Outcome (List (Object WorkloadEntrySpec))
unfolding remote_loop
workload_entries lib cf = remote_loop lib cf cf.cfg.mesh_peers.remotes
