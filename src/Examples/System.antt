-- ===== src/Examples/System.antt =====
-- A cluster in which only calls for service entries do something, and two meshes that are not behind
-- routers.
use federation.Common.{◌≡◌, refl, Option, none, some, [], ◌∷◌, codes, ok, not_found}
use federation.Common.GoMap.{text_key}
use federation.Common.Outcomes.{done}
use federation.Kubernetes.{list_each, Object}
use federation.Istio.{ServiceEntrySpec}
use federation.Fds.Store.{update, ImportedServiceStore}
use federation.Kube.Api.{Api, NamespacedName, name_key}
use federation.Program.Reconcilers.{Cluster, reconcilers}
use federation.Program.System.InSync.{KindsApart}
use federation.Config.{Remote, Federation, istio, get_label_selectors}
use federation.Program.Reconcilers as Program
use federation.Istio.Gateway.{ingress_gateway}
use federation.Kube.Reconcilers.{reconcile_gateway, reconcile_peer_authentication}
use federation.Examples.{west, peers, east, lister, istio_factory}
use federation.Examples.Ranges.{in_order}
use federation.Examples.Kube.{never_equal}

-- Calls for another kind.
abbrev pub idle : {S Spec : Type 0} → Api S Spec
idle = record {
  list = λ selector s. ok [];
  apply = λ o s. (s, none);
  delete = λ k s. (s, some not_found);
  deep_equal = never_equal;
}

abbrev pub cluster_with : {S : Type 0} → Api S ServiceEntrySpec → Cluster S
cluster_with api = record {
  gateways = idle;
  service_entries = api;
  workload_entries = idle;
  peer_authentications = idle;
  destination_rules = idle;
  envoy_filters = idle;
  routes = idle;
  range_service_entries = in_order;
  range_workload_entries = in_order;
  range_destination_rules = in_order;
  range_envoy_filters = in_order;
  range_routes = in_order;
}

-- West behind a gateway of Istio's.
abbrev pub open_west : Remote
open_west = record west { ingress_type = istio }

-- No mesh is behind a router.
abbrev pub open_east : Federation
open_east = record east {
  mesh_peers = record {
    local = record peers.local { ingress_type = istio };
    remotes = open_west ∷ [];
  };
}

-- West exports nothing any more.
abbrev pub withdrawn : ImportedServiceStore
withdrawn = update (codes "west") [] istio_factory.imported_service_store

pub gateway_done :
    {S : Type 0} (store : ImportedServiceStore) (s : S)
    → (reconcile_gateway idle
        (Program.istio_factory open_east
          (codes "istio-system")
          (record { lister = lister; store = store }))
        s).1
      ≡ done tt
unfolding reconcile_gateway ingress_gateway list_each get_label_selectors
gateway_done store s = refl

pub peers_done :
    {S : Type 0} (s : S) → (reconcile_peer_authentication idle (codes "istio-system") s).1 ≡ done tt
unfolding reconcile_peer_authentication
peers_done s = refl

pub kinds :
    {S : Type 0} (api : Api S ServiceEntrySpec)
    (view : S → NamespacedName → Option (Object ServiceEntrySpec))
    → KindsApart (cluster_with api) view
kinds api view = record {
  rest = record {
    gateways = record { applied = λ o s k. refl; deleted = λ j s k. refl };
    peer_authentications = record { applied = λ o s k. refl; deleted = λ j s k. refl };
    destination_rules = record { applied = λ o s k. refl; deleted = λ j s k. refl };
    envoy_filters = record { applied = λ o s k. refl; deleted = λ j s k. refl };
    routes = record { applied = λ o s k. refl; deleted = λ j s k. refl };
  };
  workload_entries = record { applied = λ o s k. refl; deleted = λ j s k. refl };
}
