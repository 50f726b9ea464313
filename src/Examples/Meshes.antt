-- ===== src/Examples/Meshes.antt =====
-- Examples for what two meshes agree on.
use federation.Common.{
  ◌≡◌, refl, none, List, [], ◌∷◌, ◌++◌, map, codes, text_eq, if◌then◌else◌, ok, concat_map, arith,
}
use federation.Common.Decimal.{pos}
use federation.Common.Outcomes.{done}
use federation.Config.{get_label_selectors}
use federation.Kubernetes.{list_each, cluster_local, Object, exported_services}
use federation.Fds.Export.{export_service, generate_response, serialize}
use federation.Fds.Store.{from}
use federation.Fds.Import.{handle, import_pushes}
use federation.Istio.{PortTls, EnvoyFilterSpec}
use federation.Istio.Filters.{envoy_filters}
use federation.Istio.DestinationRules.{port_settings}
use federation.Openshift.{RouteSpec, create_route, service_routes, routes}
use federation.Openshift.Agreement.{
  HasPorts, patches, patches_for, for_routes, routes-agree-envoy_filters, create_route_collides,
}
use federation.Meshes.Discovery.{handle-generate_response}
use federation.Meshes.Sni.{snis, hosts, port_settings-agree-routes}
use federation.Examples.{
  codec, codec-RoundTrips, east, west, bare, bare_lister, ratings, istio_factory, openshift_factory,
  gateway_port,
}
use federation.Examples.Fds.{sent}
use federation.Examples.Resources.{behind_router, services_listed, name-Lacks, namespace-Lacks}

pub bare_listed :
    exported_services bare_lister (get_label_selectors east.exported_service_set) ≡ ok (bare ∷ [])
unfolding exported_services get_label_selectors
bare_listed = refl

pub bare_sent : generate_response codec bare_lister east ≡ ok sent
unfolding generate_response list_each serialize export_service cluster_local get_label_selectors
    concat_map
bare_sent = refl

handle-generate_response_example :
    (from (handle codec (codes "west") sent istio_factory.imported_service_store).store west ≡ (
      if text_eq (codes "west") west.name
      then map export_service (bare ∷ [])
      else from istio_factory.imported_service_store west))
    × ((handle codec (codes "west") sent istio_factory.imported_service_store).pushed
        ≡ import_pushes)
    × ((handle codec (codes "west") sent istio_factory.imported_service_store).error ≡ none)
handle-generate_response_example =
    handle-generate_response codec bare_lister east (bare ∷ []) sent (codes "west")
      istio_factory.imported_service_store west codec-RoundTrips bare_listed bare_sent

ratings_ports : HasPorts ratings
ratings_ports = ((9080, refl, omega arith), tt)

port_settings-agree-routes_example :
    (settings : List PortTls) × (port_settings
        (export_service ratings).hostname
        (export_service ratings).ports
      ≡ done settings)
    × (snis settings ≡ hosts (service_routes openshift_factory gateway_port ratings))
port_settings-agree-routes_example =
    port_settings-agree-routes openshift_factory gateway_port ratings name-Lacks namespace-Lacks
      ratings_ports

routes-agree-envoy_filters_example :
    (fs : List (Object EnvoyFilterSpec)) × (rs : List (Object RouteSpec)) × (envoy_filters
        istio_factory
      ≡ done fs)
    × (routes (for_routes istio_factory) ≡ done rs)
    × (map patches fs ≡ map patches_for rs)
routes-agree-envoy_filters_example =
    routes-agree-envoy_filters istio_factory gateway_port (ratings ∷ []) behind_router refl
      services_listed (ratings_ports, tt)

create_route_collides_example :
    let r =
      create_route openshift_factory gateway_port
        (codes "a" ++ (codes "-" ++ codes "b"))
        (codes "c")
        (pos 80) in
    let s =
      create_route openshift_factory gateway_port
        (codes "a")
        (codes "b" ++ (codes "-" ++ codes "c"))
        (pos 80) in
    (r.name ≡ s.name) × (r.namespace ≡ s.namespace)
create_route_collides_example =
    create_route_collides openshift_factory gateway_port (codes "a") (codes "b") (codes "c")
      (pos 80)
