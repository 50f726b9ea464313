-- ===== src/Examples/Arrivals.antt =====
-- Examples for the imports, the push requests and the reconcilers together, on a server with a place
-- for a service entry and one for a workload entry.
use federation.Common.{
  ◌≡◌, refl, false, none, Option, List, [], ◌++◌, map, Text, codes, text_eq, join_errors,
}
use federation.Common.GoMap.{text_key, lookup, insert}
use federation.Common.Outcomes.{done}
use federation.Config.{
  any_remote_peer_with_openshift_router_ingress, service_name, get_label_selectors,
}
use federation.Kubernetes.{list_each, Object}
use federation.Fds.Store.{from, update}
use federation.Fds.Import.{handle}
use federation.Istio.{ServiceEntrySpec, WorkloadEntrySpec}
use federation.Istio.Gateway.{ingress_gateway}
use federation.Istio.WorkloadEntries.{workload_entries, service_loop}
use federation.Istio.ServiceEntries.{
  service_entries, service_entry_for_remote_federation_controller, import_loop, controller_entry,
}
use federation.Kube.Api.{Api, Documented, NamespacedName, name_key, to_map}
use federation.Kube.Sync.{sync}
use federation.Kube.Reconcilers.{
  reconcile_gateway, reconcile_service_entries, reconcile_workload_entries,
  reconcile_peer_authentication,
}
use federation.Kube.Manager.{
  Reconciler, ReconcilerManager, new_reconciler_manager, reconcile_all, run_all,
}
use federation.Program.Reconcilers.{Cluster, reconcilers}
use federation.Program.System.{State, VisitsReconcilers, imported, started, later, manager}
use federation.Program.System.InSync.{LeaveView, KindsApart, WorkloadsApart}
use federation.Program.System.Follows.{Follows, Reach-Follows}
use federation.Program.System.Kinds.{InSync, WorkloadsInSync}
use federation.Xds.{service_entry_type_url, workload_entry_type_url}
use federation.Examples.{library, lister, codec}
use federation.Examples.Fds.{sent}
use federation.Examples.Ranges.{in_order, in_order_only, in_order_each, mapped, unmapped}
use federation.Examples.Server.{Slot, server, documented, in_order-Visits}
use federation.Examples.Kube.{entry_place, never_equal, never_equal_specs}
use federation.Examples.System.{cluster_with, open_east, withdrawn}

-- A server of two parts.
module _ {S T Spec : Type 0} where
  abbrev on_first : Api S Spec → Api (S × T) Spec
  on_first api = record {
    list = λ selector p. api.list selector p.0;
    apply = λ o p. (((api.apply o p.0).0, p.1), (api.apply o p.0).1);
    delete = λ k p. (((api.delete k p.0).0, p.1), (api.delete k p.0).1);
    deep_equal = api.deep_equal;
  }

  abbrev on_second : Api T Spec → Api (S × T) Spec
  on_second api = record {
    list = λ selector p. api.list selector p.1;
    apply = λ o p. ((p.0, (api.apply o p.1).0), (api.apply o p.1).1);
    delete = λ k p. ((p.0, (api.delete k p.1).0), (api.delete k p.1).1);
    deep_equal = api.deep_equal;
  }

  abbrev first_documented : (api : Api S Spec) → Documented api → Documented (on_first api)
  first_documented api doc = record {
    view = λ p. doc.view p.0;
    matches = doc.matches;
    listed = λ selector p. doc.listed selector p.0;
    applied = λ o p. doc.applied o p.0;
    apply_else = λ o p. doc.apply_else o p.0;
    deleted = λ k p. doc.deleted k p.0;
    delete_else = λ j k p. doc.delete_else j k p.0;
    equal_specs = doc.equal_specs;
  }

  abbrev second_documented : (api : Api T Spec) → Documented api → Documented (on_second api)
  second_documented api doc = record {
    view = λ p. doc.view p.1;
    matches = doc.matches;
    listed = λ selector p. doc.listed selector p.1;
    applied = λ o p. doc.applied o p.1;
    apply_else = λ o p. doc.apply_else o p.1;
    deleted = λ k p. doc.deleted k p.1;
    delete_else = λ j k p. doc.delete_else j k p.1;
    equal_specs = doc.equal_specs;
  }

abbrev Servers : Type 0
Servers = Slot ServiceEntrySpec × Slot WorkloadEntrySpec

abbrev workload_place : NamespacedName
workload_place = (codes "bookinfo", codes "import-west-ratings-0")

abbrev cluster : Cluster Servers
cluster = record (cluster_with (on_first (server entry_place never_equal))) {
  workload_entries = on_second (server workload_place never_equal);
}

abbrev service_doc : Documented cluster.service_entries
service_doc =
    first_documented (server entry_place never_equal)
      (documented entry_place never_equal never_equal_specs)

abbrev workload_doc : Documented cluster.workload_entries
workload_doc =
    second_documented (server workload_place never_equal)
      (documented workload_place never_equal never_equal_specs)

abbrev rest :
    {Spec : Type 0} (view : Servers → NamespacedName → Option (Object Spec))
    → LeaveView cluster view
rest view = record {
  gateways = record { applied = λ o s k. refl; deleted = λ j s k. refl };
  peer_authentications = record { applied = λ o s k. refl; deleted = λ j s k. refl };
  destination_rules = record { applied = λ o s k. refl; deleted = λ j s k. refl };
  envoy_filters = record { applied = λ o s k. refl; deleted = λ j s k. refl };
  routes = record { applied = λ o s k. refl; deleted = λ j s k. refl };
}

abbrev service_kinds : KindsApart cluster service_doc.view
service_kinds = record {
  rest = rest service_doc.view;
  workload_entries = record { applied = λ o s k. refl; deleted = λ j s k. refl };
}

abbrev workload_kinds : WorkloadsApart cluster workload_doc.view
workload_kinds = record {
  rest = rest workload_doc.view;
  service_entries = record { applied = λ o s k. refl; deleted = λ j s k. refl };
}

abbrev order : ReconcilerManager Servers → List (Reconciler Servers)
order m = map (λ (e : Text × Reconciler Servers). e.1) (in_order m)

order-Visits : VisitsReconcilers order
order-Visits = record {
  only = λ m r h. let (k, n) = unmapped (in_order m) r h in (k, in_order_only m k r n);
  each = λ m k r h. mapped (in_order m) k r (in_order_each m k r h);
}

abbrev reconcilers_of : ReconcilerManager Servers
reconcilers_of = manager cluster library open_east (codes "istio-system") lister withdrawn

started_well : (reconcile_all order reconcilers_of (none, none)).1 ≡ done tt
unfolding reconcile_all run_all reconcilers new_reconciler_manager
    any_remote_peer_with_openshift_router_ingress insert join_errors reconcile_gateway
    ingress_gateway list_each get_label_selectors reconcile_service_entries service_entries
    service_entry_for_remote_federation_controller import_loop from lookup update text_eq sync
    to_map controller_entry service_name reconcile_workload_entries workload_entries service_loop
    reconcile_peer_authentication
started_well = refl

-- Another response from west is handled.
abbrev state : State Servers
state = record {
  store = (handle codec (codes "west") sent withdrawn).store;
  pending = [] ++ (handle codec (codes "west") sent withdrawn).pushed;
  server = (reconcile_all order reconcilers_of (none, none)).0;
  failed = λ url. false;
}

Reach-Follows_example :
    Follows service_entry_type_url
      (InSync cluster service_doc in_order-Visits service_kinds library open_east
        (codes "istio-system")
        lister
        state.store
        state.server)
      state
    × Follows workload_entry_type_url
        (WorkloadsInSync cluster workload_doc in_order-Visits workload_kinds library open_east
          (codes "istio-system")
          lister
          state.store
          state.server)
        state
Reach-Follows_example =
    Reach-Follows cluster library open_east (codes "istio-system") lister codec service_doc
      in_order-Visits service_kinds workload_doc in_order-Visits workload_kinds
      (later (started order withdrawn [] (none, none) order-Visits started_well)
        (imported (codes "west") sent))
