-- ===== src/Istio/Filters.antt =====
-- `EnvoyFilters`: SNI filters of the federation ingress gateway for the OpenShift router.
use federation.Common.{
  ◌≡◌, ap, ◌∙◌, sym, true, Option, none, some, List, [], ◌∷◌, ◌++◌, map, Text, codes, concat_map,
  concat_map-append, >>=-eq-ok, Result, ok, err, if◌then◌else◌,
}
use federation.Common.Decimal.{ℤ, pos, format, format_int, uint32}
use federation.Common.Outcomes.{Outcome, done, panic}
use federation.Config.{GatewayPort, LabelSelectors, get_label_selectors, is_router}
use federation.Kubernetes
use federation.Kubernetes.{
  Service, Object, ServiceLister, peer_label, cluster_local, exported_services,
}
use federation.Istio.{ConfigFactory, EnvoyFilterSpec}
use federation.Istio.Names.{router_compatible_sni}

-- `{"filter_chain_match":{"server_names":["…"]}}` around a server name.
unfoldable pub server_names_patch : Text → Text
server_names_patch sni =
    codes "{\"filter_chain_match\":{\"server_names\":[\"" ++ (sni ++ codes "\"]}}")

-- The name that Istio gives to the TLS routes of a service.
unfoldable pub outbound_sni : Text → Text → ℤ → Text
outbound_sni name namespace port =
    codes "outbound_." ++ (format_int port ++ (codes "_._." ++ cluster_local name namespace))

-- `createEnvoyFilter`, with the port of the gateway already read.
unfoldable pub create_envoy_filter :
    ConfigFactory → GatewayPort → Text → Text → ℤ → Object EnvoyFilterSpec
create_envoy_filter cf gateway_port svc_name svc_namespace port = record {
  name =
      codes "sni-"
      ++ (svc_name ++ (codes "-" ++ (svc_namespace ++ (codes "-" ++ format_int port))));
  namespace = cf.cfg.mesh_peers.local.control_plane.namespace;
  labels = peer_label;
  spec = record {
    workload_selector = cf.cfg.mesh_peers.local.gateways.ingress.selector;
    config_patches =
        record {
          listener = codes "0.0.0.0_" ++ format gateway_port.number;
          sni = outbound_sni svc_name svc_namespace port;
          patch_config =
              server_names_patch (router_compatible_sni svc_name svc_namespace (uint32 port));
        }
        ∷ [];
  };
}

-- One filter for each port of a service.
unfoldable pub service_filters :
    ConfigFactory → GatewayPort → Service → List (Object EnvoyFilterSpec)
service_filters cf gateway_port svc =
    map
      (λ (p : Kubernetes.ServicePort).
        create_envoy_filter cf gateway_port svc.name svc.namespace p.port)
      svc.ports

-- A listing error is printed, and the nil slice beside it is ranged over.
abbrev services_or_nil : Result (List Service) → List Service
services_or_nil (ok services) = services
services_or_nil (err e) = []

filter_loop : ConfigFactory → GatewayPort → List LabelSelectors → List (Object EnvoyFilterSpec)
filter_loop cf gateway_port [] = []
filter_loop cf gateway_port (s ∷ ss) =
    concat_map (service_filters cf gateway_port)
      (services_or_nil (cf.service_lister.list s.match_labels))
    ++ filter_loop cf gateway_port ss

-- The filter of the discovery service comes first. The port is read through a pointer.
filters_with_port : Option GatewayPort → ConfigFactory → Outcome (List (Object EnvoyFilterSpec))
filters_with_port none cf = panic
filters_with_port (some gateway_port) cf = done (
    create_envoy_filter cf gateway_port
      (codes "federation-discovery-service-" ++ cf.cfg.mesh_peers.local.name) (codes "istio-system")
      (pos 15080)
    ∷ filter_loop cf gateway_port (get_label_selectors cf.cfg.exported_service_set))

unfoldable pub envoy_filters : ConfigFactory → Outcome (List (Object EnvoyFilterSpec))
unfolding filters_with_port filter_loop
envoy_filters cf =
    if is_router cf.cfg.mesh_peers.local.ingress_type
    then filters_with_port cf.cfg.mesh_peers.local.gateways.ingress.port cf
    else done []

filter_loop_lem :
    (cf : ConfigFactory) (p : GatewayPort) (ss : List LabelSelectors) (services : List Service)
    → exported_services cf.service_lister ss ≡ ok services
    → filter_loop cf p ss ≡ concat_map (service_filters cf p) services
unfolding filter_loop exported_services concat_map
filter_loop_lem cf p [] services h =
    let nothing : [] ≡ services = cc in ap (concat_map (service_filters cf p)) nothing
filter_loop_lem cf p (s ∷ ss) services h =
    let (first, e, h') = >>=-eq-ok (cf.service_lister.list s.match_labels) _ h in
    let (rest, e', h'') = >>=-eq-ok (exported_services cf.service_lister ss) _ h' in
    let both : first ++ rest ≡ services = cc in
    rw (e, filter_loop_lem cf p ss rest e')
      (sym (concat_map-append (service_filters cf p) first rest)
        ∙ ap (concat_map (service_filters cf p)) both)

-- With the router as local ingress, a port and the services listed, there is a filter for the
-- discovery service, and one for each port of each exported service.
pub envoy_filters_built :
    (cf : ConfigFactory) (p : GatewayPort) (services : List Service)
    → is_router cf.cfg.mesh_peers.local.ingress_type ≡ true
    → cf.cfg.mesh_peers.local.gateways.ingress.port ≡ some p
    → exported_services cf.service_lister (get_label_selectors cf.cfg.exported_service_set)
      ≡ ok services
    → envoy_filters cf
      ≡ done (
          create_envoy_filter cf p
            (codes "federation-discovery-service-" ++ cf.cfg.mesh_peers.local.name)
            (codes "istio-system")
            (pos 15080)
          ∷ concat_map (service_filters cf p) services)
unfolding envoy_filters
envoy_filters_built cf p services hr hp hs =
    simp
      (hr, hp, filter_loop_lem cf p (get_label_selectors cf.cfg.exported_service_set) services hs)
