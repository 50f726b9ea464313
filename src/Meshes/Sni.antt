-- ===== src/Meshes/Sni.antt =====
-- The SNIs that a client mesh sets, against the routes of the exporting mesh.
use federation.Common.{◌≡◌, refl, ap₂, List, [], ◌∷◌, map, Text, All, arith, ◌%◌, ◌^◌}
use federation.Common.Decimal.{format_int, uint32}
use federation.Common.Split.{Lacks}
use federation.Common.Outcomes.{done}
use federation.Config.{GatewayPort}
use federation.Kubernetes
use federation.Kubernetes.{Service, Object, cluster_local}
use federation.Fds.Export.{export_service, export_port}
use federation.Istio.{PortTls}
use federation.Istio.Names.{get_service_name_and_ns-cluster_local, router_compatible_sni}
use federation.Istio.DestinationRules.{port_settings, port_setting, port_settings_lem}
use federation.Openshift.{ConfigFactory, RouteSpec, create_route, service_routes}
use federation.Openshift.Agreement.{IsPort, HasPorts}

-- The SNIs that port settings ask for, and the hosts of routes.
abbrev pub snis : List PortTls → List Text
snis = map (λ (s : PortTls). s.tls.sni)

abbrev pub hosts : List (Object RouteSpec) → List Text
hosts = map (λ (r : Object RouteSpec). r.spec.host)

module _ (cf : ConfigFactory) (g : GatewayPort) (name namespace : Text) where
  snis-eq-hosts :
      (ps : List Kubernetes.ServicePort)
      → All (λ (p : Kubernetes.ServicePort). IsPort p.port) ps
      → snis (map (port_setting (name, namespace)) (map export_port ps))
        ≡ hosts (map (λ (p : Kubernetes.ServicePort). create_route cf g name namespace p.port) ps)
  unfolding export_port create_route router_compatible_sni format_int uint32
  snis-eq-hosts [] h = refl
  snis-eq-hosts (p ∷ ps) ((n, e, lt), h) =
      let small : n % 2 ^ 32 ≡ n = omega arith in
      ap₂ ◌∷◌ (rw (e, format_int) (rw small)) (snis-eq-hosts ps h)

-- For a service whose name and namespace have no dots and whose ports are below 65536, the importing
-- mesh builds its port settings from the exported message, and port by port the SNI that a client
-- sends is the host of the route that the exporting mesh creates.
pub port_settings-agree-routes :
    (cf : ConfigFactory) (g : GatewayPort) (svc : Service)
    → Lacks b'.' svc.name
    → Lacks b'.' svc.namespace
    → HasPorts svc
    → (settings : List PortTls) × (port_settings
          (export_service svc).hostname
          (export_service svc).ports
        ≡ done settings)
      × (snis settings ≡ hosts (service_routes cf g svc))
unfolding export_service service_routes
port_settings-agree-routes cf g svc hn hs hp = (
  map (port_setting (svc.name, svc.namespace)) (map export_port svc.ports),
  port_settings_lem (cluster_local svc.name svc.namespace) (svc.name, svc.namespace)
      (map export_port svc.ports)
      (get_service_name_and_ns-cluster_local svc.name svc.namespace hn hs),
  snis-eq-hosts cf g svc.name svc.namespace svc.ports hp,
)
