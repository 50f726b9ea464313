-- ===== src/Examples/Reached.antt =====
-- An example for a service that only the remote has, on a server with a place for each of the two
-- entries that the mesh gets.
use mathlib.Core.List.{Memᴰ}
use federation.Common.{
  ◌≡◌, ◌≢◌, refl, ap, subst, inl, none, some, [], ◌∷◌, map, Text, codes, text_eq,
}
use federation.Common.GoMap.{lookup, text_key, insert}
use federation.Common.Outcomes.{done, panic}
use federation.Config.{service_name, any_remote_peer_with_openshift_router_ingress}
use federation.Fds.{FederatedService}
use federation.Fds.Export.{export_service}
use federation.Fds.Store.{from, update, ImportedServiceStore}
use federation.Istio as IstioModel
use federation.Istio.{ServiceEntrySpec, Library}
use federation.Istio.ServiceEntries.{
  service_entries, service_entry_for_remote_federation_controller, import_loop, controller_entry,
  svc_entry_name, on_lookup, add_import,
}
use federation.Istio.Names.{get_service_name_and_ns, separate_with_dash}
use federation.Istio.WorkloadEntries.{workload_entries, service_loop, import_body, entries_of}
use federation.Common.Split.{split, join}
use federation.Kubernetes.{cluster_local, Object}
use federation.Istio.ServiceEntries.Reach.{IsMissing, IsAnswered, IsUnambiguous, GivesValues}
use federation.Kube.Api.{Api, Documented, NamespacedName, name_key, same_name_iff, to_map}
use federation.Kube.Manager.{Reconciler, start, new_reconciler_manager}
use federation.Kube.Reconcilers.{reconcile_workload_entries, reconcile_service_entries}
use federation.Kube.Sync.{sync}
use federation.Program.Reconcilers.{istio_factory, reconcilers}
use federation.Program.System.{manager, run_service_entries}
use federation.Program.System.Apart.{registered}
use federation.Program.System.Reached.{GivesOnlyValues, IsReachable}
use federation.Program.System.EndToEnd.{push_of, imported_from, push-IsReachable}
use federation.Program.Clients.{start_federation_server}
use federation.Xds.{exported_service_type_url}
use federation.Xds.Server.{Surroundings, push}
use federation.Informer.{request}
use federation.Examples.Meshes.{bare_listed, bare_sent}
use federation.Examples.Pushes.{
  surroundings, surroundings-Visits, two_subscribers, healthy, healthy_there,
}
use federation.Examples.{codec, codec-RoundTrips, east, library, lister, bare, bare_lister}
use federation.Examples.Fds.{sent}
use federation.Examples.Kube.{entry_place, never_equal, never_equal_specs}
use federation.Examples.Places.{Places, server, documented}
use federation.Examples.Ranges.{in_order, in_order_only, in_order_each, mapped, unmapped}
use federation.Examples.Server.{in_order-Visits}
use federation.Examples.System.{cluster_with, kinds, open_east, open_west, gateway_done, peers_done}

-- The values of a map as a range finds them.
abbrev values_library : Library
values_library = record library {
  values = λ m. map (λ (p : Text × Object ServiceEntrySpec). p.1) (in_order m);
}

all_values : GivesValues values_library
all_values m k e h = mapped (in_order m) k e (in_order_each m k e h)

only_values : GivesOnlyValues values_library
only_values m e h = let (k, n) = unmapped (in_order m) e h in (k, in_order_only m k e n)

abbrev empty : ImportedServiceStore
empty = record { imported_services = [] }

abbrev filled : ImportedServiceStore
filled = update (codes "west") (export_service bare ∷ []) empty

abbrev import_place : NamespacedName
import_place = (codes "istio-system", codes "import-bare-bookinfo-svc-cluster-local-west")

places_apart : entry_place ≢ import_place
unfolding text_eq
places_apart e = let same = (same_name_iff entry_place import_place).1 e in cc

abbrev api : Api (Places ServiceEntrySpec) ServiceEntrySpec
api = server entry_place import_place places_apart never_equal

succeeds :
    (t : Places ServiceEntrySpec)
    → (run_service_entries
        (cluster_with api)
        values_library
        open_east
        (codes "istio-system")
        lister
        filled
        t).1
      ≡ done tt
unfolding reconcile_service_entries service_entries service_entry_for_remote_federation_controller
    import_loop from lookup update insert text_eq sync to_map controller_entry service_name
    get_service_name_and_ns split export_service cluster_local on_lookup add_import svc_entry_name
    separate_with_dash join
succeeds (none, none) = refl
succeeds (some a, none) = refl
succeeds (none, some b) = refl
succeeds (some a, some b) = refl

workload_done :
    (s : Places ServiceEntrySpec)
    → (reconcile_workload_entries
        (cluster_with api).workload_entries
        in_order
        values_library
        (istio_factory open_east
          (codes "istio-system")
          (record { lister = lister; store = filled }))
        s).1
      ≡ done tt
unfolding reconcile_workload_entries workload_entries service_loop from lookup update insert text_eq
    import_body get_service_name_and_ns split export_service cluster_local entries_of sync to_map
workload_done s = refl

calm :
    (url : Text) (r : Reconciler (Places ServiceEntrySpec)) (s : Places ServiceEntrySpec)
    → lookup url
        (manager (cluster_with api) values_library open_east (codes "istio-system") lister filled)
      ≡ some r
    → (r.reconcile s).1 ≢ panic
unfolding reconcilers new_reconciler_manager lookup any_remote_peer_with_openshift_router_ingress
    text_eq
calm url r s h =
    registered (λ u q. (t : Places ServiceEntrySpec) → (q.reconcile t).1 ≢ panic) []
      (reconcilers (cluster_with api) values_library open_east (codes "istio-system")
        (record { lister = lister; store = filled }))
      (λ u q e. absurd (cc))
      (
        (λ t e. let d = gateway_done filled t in cc),
        (
          (λ t e. let d = succeeds t in cc),
          ((λ t e. let d = workload_done t in cc), ((λ t e. let d = peers_done t in cc), tt)),
        ),
      )
      url r h s

abbrev factory : IstioModel.ConfigFactory
factory =
    istio_factory open_east (codes "istio-system") (record { lister = lister; store = filled })

bare-IsMissing : IsMissing factory (export_service bare)
unfolding get_service_name_and_ns split export_service cluster_local text_eq
bare-IsMissing = ((codes "bare", codes "bookinfo"), refl, refl)

-- Bare is all that the one remote exports.
bare_alone :
    (s : FederatedService)
    → Memᴰ s (from factory.imported_service_store open_west)
    → s ≡ export_service bare
unfolding from lookup update insert text_eq
bare_alone s (Memᴰ.head e) = e
bare_alone s (Memᴰ.tail m) = elim m [ ]

bare-IsUnambiguous : IsUnambiguous factory (export_service bare) open_west
bare-IsUnambiguous s r (Memᴰ.head e, exported, missing) name =
    let same =
      bare_alone s (subst (λ q. Memᴰ s (from factory.imported_service_store q)) e exported) in
    (ap (λ (t : FederatedService). t.hostname) same, ap (λ (t : FederatedService). t.ports) same, e)
bare-IsUnambiguous s r (Memᴰ.tail m, exported, missing) name = elim m [ ]

west-IsAnswered : IsAnswered factory open_west
unfolding from lookup update insert text_eq
west-IsAnswered = (inl bare-IsMissing, tt)

abbrev doc : Documented api
doc = documented entry_place import_place places_apart never_equal never_equal_specs

-- The surroundings of west's server, which exports what `bare_lister` has.
abbrev west_surroundings : Surroundings
west_surroundings = record surroundings {
  handlers = (start_federation_server codec east bare_lister).0;
}

push-IsReachable_example :
    Memᴰ
      (7, push_of west_surroundings sent)
      (push west_surroundings (request exported_service_type_url) two_subscribers).0.delivered
    × IsReachable
        (cluster_with api)
        doc
        in_order-Visits
        (kinds api doc.view)
        values_library
        all_values
        only_values
        open_east
        (codes "istio-system")
        lister
        (start
          (manager
            (cluster_with api)
            values_library
            open_east
            (codes "istio-system")
            lister
            (imported_from codec open_west (push_of west_surroundings sent) empty).0)
          (imported_from codec open_west (push_of west_surroundings sent) empty).1
          (none, none)).0
        (export_service bare)
        open_west
        (codes "10.0.0.1")
push-IsReachable_example =
    push-IsReachable codec codec-RoundTrips east bare_lister (bare ∷ []) sent bare_listed bare_sent
      west_surroundings refl surroundings-Visits two_subscribers 2 healthy healthy_there refl
      (cluster_with api) doc in_order-Visits (kinds api doc.view) values_library all_values
      only_values open_east (codes "istio-system") lister open_west empty (none, none) bare
      (codes "10.0.0.1") (Memᴰ.head refl) (Memᴰ.head refl) (Memᴰ.head refl) calm succeeds
      (west-IsAnswered, tt) bare-IsMissing bare-IsUnambiguous
