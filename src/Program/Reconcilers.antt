-- ===== src/Program/Reconcilers.antt =====
-- `startReconciler` of cmd/federation-controller/main.go: which reconcilers there are, and the first
-- run of all of them. `S` is the state of the API server; the clients for the kinds are a record.
pub mod Served
use federation.Common.{
  Bool, true, false, Option, none, some, List, [], ◌∷◌, ◌++◌, Text, codes, text_eq, if◌then◌else◌,
  Result, Error, wrap,
}
use federation.Common.Outcomes.{Outcome, done, fail, panic}
use federation.Config.{Federation, any_remote_peer_with_openshift_router_ingress, is_router}
use federation.Config.Cluster.{namespace}
use federation.Kubernetes.{ServiceLister}
use federation.Xds.{
  PushRequest, gateway_type_url, service_entry_type_url, workload_entry_type_url, route_type_url,
  peer_authentication_type_url, destination_rule_type_url, envoy_filter_type_url,
}
use federation.Fds.Store.{ImportedServiceStore}
use federation.Istio as IstioModel
use federation.Istio.{
  Library, GatewaySpec, EnvoyFilterSpec, DestinationRuleSpec, ServiceEntrySpec, WorkloadEntrySpec,
}
use federation.Openshift as OpenshiftModel
use federation.Openshift.{RouteSpec}
use federation.Kube.Api.{Api, Range}
use federation.Kube.Sync.{Step}
use federation.Kube.Reconcilers.{
  PeerAuthenticationSpec, reconcile_gateway, reconcile_service_entries, reconcile_workload_entries,
  reconcile_peer_authentication, reconcile_destination_rules, reconcile_envoy_filters,
  reconcile_routes,
}
use federation.Kube.Manager.{Reconciler, ReconcilerManager, new_reconciler_manager, reconcile_all}

-- The clients, and the orders in which the reconcilers' maps are visited.
pub record Cluster (S : Type 0) : Type 0 where
  pub gateways : Api S GatewaySpec
  pub service_entries : Api S ServiceEntrySpec
  pub workload_entries : Api S WorkloadEntrySpec
  pub peer_authentications : Api S PeerAuthenticationSpec
  pub destination_rules : Api S DestinationRuleSpec
  pub envoy_filters : Api S EnvoyFilterSpec
  pub routes : Api S RouteSpec
  pub range_service_entries : Range ServiceEntrySpec
  pub range_workload_entries : Range WorkloadEntrySpec
  pub range_destination_rules : Range DestinationRuleSpec
  pub range_envoy_filters : Range EnvoyFilterSpec
  pub range_routes : Range RouteSpec

-- What the reconcilers read when they run: the lister and the store change while the program runs.
pub record Sources : Type 0 where
  pub lister : ServiceLister
  pub store : ImportedServiceStore

abbrev pub istio_factory : Federation → Text → Sources → IstioModel.ConfigFactory
istio_factory cfg ns src = record {
  cfg = cfg;
  service_lister = src.lister;
  imported_service_store = src.store;
  namespace = ns;
}

abbrev pub openshift_factory : Federation → Sources → OpenshiftModel.ConfigFactory
openshift_factory cfg src = record { cfg = cfg; service_lister = src.lister }

module _ {S : Type 0} (cluster : Cluster S) (lib : Library) (cfg : Federation) (ns : Text)
    (src : Sources) where
  abbrev pub always : List (Reconciler S)
  always =
      record {
        type_url = gateway_type_url;
        reconcile = reconcile_gateway cluster.gateways (istio_factory cfg ns src);
      }
      ∷ record {
        type_url = service_entry_type_url;
        reconcile =
            reconcile_service_entries cluster.service_entries cluster.range_service_entries lib
              (istio_factory cfg ns src);
      }
      ∷ record {
        type_url = workload_entry_type_url;
        reconcile =
            reconcile_workload_entries cluster.workload_entries cluster.range_workload_entries lib
              (istio_factory cfg ns src);
      }
      ∷ record {
        type_url = peer_authentication_type_url;
        reconcile = reconcile_peer_authentication cluster.peer_authentications ns;
      }
      ∷ []

  abbrev pub for_router_peers : List (Reconciler S)
  for_router_peers =
      record {
        type_url = destination_rule_type_url;
        reconcile =
            reconcile_destination_rules cluster.destination_rules cluster.range_destination_rules
              (istio_factory cfg ns src);
      }
      ∷ []

  abbrev pub for_local_router : List (Reconciler S)
  for_local_router =
      record {
        type_url = envoy_filter_type_url;
        reconcile =
            reconcile_envoy_filters cluster.envoy_filters cluster.range_envoy_filters
              (istio_factory cfg ns src);
      }
      ∷ record {
        type_url = route_type_url;
        reconcile =
            reconcile_routes cluster.routes cluster.range_routes (openshift_factory cfg src);
      }
      ∷ []

  -- The slice `reconcilers`.
  unfoldable pub reconcilers : List (Reconciler S)
  reconcilers =
      (always
        ++ (if any_remote_peer_with_openshift_router_ingress cfg.mesh_peers
            then for_router_peers
            else []))
      ++ (if is_router cfg.mesh_peers.local.ingress_type then for_local_router else [])

abbrev pub initial_context : Text
initial_context = codes "initial Istio resource reconciliation failed"

-- A failed first run ends the process.
abbrev pub or_exit : {S : Type 0} → S × Outcome (Unit {0}) → S × Outcome (Unit {0})
or_exit (s, done u) = (s, done u)
or_exit (s, fail e) = (s, fail (wrap initial_context e))
or_exit (s, panic) = (s, panic)

-- `startReconciler` up to `go rm.Start(ctx)`; `env` and `secret` are what the namespace is read from,
-- `order` that in which the manager's map is visited, and the result is with the configuration in
-- which the namespace is kept.
unfoldable pub start_reconciler :
    {S : Type 0}
    → Cluster S
    → Library
    → Option Text
    → Result Text
    → (ReconcilerManager S → List (Reconciler S))
    → Federation
    → Sources
    → S
    → Federation × (S × Outcome (Unit {0}))
start_reconciler cluster lib env secret order cfg src s =
    let (ns, kept) = namespace env secret cfg in
    (
      kept,
      or_exit
          (reconcile_all order (new_reconciler_manager (reconcilers cluster lib kept ns src)) s),
    )
