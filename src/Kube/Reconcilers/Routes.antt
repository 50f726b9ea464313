-- ===== src/Kube/Reconcilers/Routes.antt =====
-- What the reconcilers of routes and of service entries do with objects that are no longer wanted.
use federation.Common.{◌≡◌, refl, ◌∙◌, List, none, some, false}
use federation.Common.GoMap.{lookup}
use federation.Common.Outcomes.{done}
use federation.Kubernetes.{Object, peer_label}
use federation.Istio
use federation.Istio.{Library, ServiceEntrySpec}
use federation.Istio.ServiceEntries.{service_entries}
use federation.Openshift
use federation.Openshift.{RouteSpec, routes}
use federation.Kube.Api.{Api, Documented, NamespacedName, name_key, Range, to_map, labelled}
use federation.Kube.Sync.Maps.{Visits}
use federation.Kube.Sync.Correct.{AsWanted, sync_converges, sync_untouched}
use federation.Kube.Reconcilers.{
  reconcile_routes, route_selector, route_contexts, reconcile_service_entries,
  service_entry_contexts,
}

module _ {S : Type 0} where
  -- A route that the controller created, with its one label, and that is no longer wanted stays as it
  -- is, whatever the calls return: the reconciler lists by another label, which that label does not
  -- match.
  pub stale_route_stays :
      (api : Api S RouteSpec) (doc : Documented api) (range : Range RouteSpec)
      (cf : Openshift.ConfigFactory) (wanted : List (Object RouteSpec)) (s : S) (k : NamespacedName)
      (x : Object RouteSpec)
      → Visits range
      → routes cf ≡ done wanted
      → lookup k (to_map wanted) ≡ none
      → doc.view s k ≡ some x
      → x.labels ≡ peer_label
      → doc.matches route_selector peer_label ≡ false
      → doc.view (reconcile_routes api range cf s).0 k ≡ some x
  unfolding reconcile_routes
  stale_route_stays api doc range cf wanted s k x visits built unwanted there label other =
      let hidden : labelled doc.matches route_selector (doc.view s k) ≡ none =
        rw there (rw label (rw other refl)) in
      rw built (
        sync_untouched api doc range visits route_contexts route_selector wanted s k unwanted hidden
        ∙ there)

  -- A run of the service entries' reconciler in which the entries are generated and the calls succeed
  -- leaves, under every name, the wanted spec, or nothing that bears the controller's label.
  pub reconcile_service_entries_converges :
      (api : Api S ServiceEntrySpec) (doc : Documented api) (range : Range ServiceEntrySpec)
      (lib : Library) (cf : Istio.ConfigFactory) (wanted : List (Object ServiceEntrySpec)) (s : S)
      (k : NamespacedName)
      → Visits range
      → service_entries lib cf ≡ done wanted
      → (reconcile_service_entries api range lib cf s).1 ≡ done tt
      → AsWanted doc.matches peer_label
          (lookup k (to_map wanted))
          (doc.view s k)
          (doc.view (reconcile_service_entries api range lib cf s).0 k)
  unfolding reconcile_service_entries
  reconcile_service_entries_converges api doc range lib cf wanted s k visits built well = rw built (
      sync_converges api doc range visits service_entry_contexts peer_label wanted s k
        (rw built at well))
