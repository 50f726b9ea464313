-- ===== src/Openshift.antt =====
-- internal/pkg/openshift/config_factory.go: the OpenShift routes to the federation ingress gateway.
pub mod Agreement
use federation.Common.{
  ℕ, ◌≡◌, refl, ap, ◌∙◌, sym, Option, none, some, List, [], ◌∷◌, ◌++◌, map, Text, codes, concat_map,
  Result, ok, err, Error, with_context,
}
use federation.Common.Decimal.{ℤ, pos, format_int}
use federation.Common.Outcomes.{Outcome, done, fail, panic, lift, ◌>>=◌}
use federation.Config.{Federation, GatewayPort, get_label_selectors}
use federation.Kubernetes
use federation.Kubernetes.{
  Service, Object, ServiceLister, peer_label, list_each, list_each_ok, exported_services,
}

-- routev1.RouteSpec.
pub record RouteSpec : Type 0 where
  pub host : Text
  pub to_kind : Text
  pub to_name : Text
  pub target_port : Text
  pub termination : Text

pub record ConfigFactory : Type 0 where
  pub cfg : Federation
  pub service_lister : ServiceLister

-- `createRoute`, with the port of the gateway already read.
unfoldable pub create_route : ConfigFactory → GatewayPort → Text → Text → ℤ → Object RouteSpec
create_route cf gateway_port svc_name svc_namespace port = record {
  name =
      svc_name
      ++ (codes "-"
          ++ (svc_namespace
              ++ (codes "-" ++ (format_int port ++ codes "-to-federation-ingress-gateway"))));
  namespace = cf.cfg.mesh_peers.local.control_plane.namespace;
  labels = peer_label;
  spec = record {
    host =
        svc_name
        ++ (codes "-"
            ++ (format_int port ++ (codes "." ++ (svc_namespace ++ codes ".svc.cluster.local"))));
    to_kind = codes "Service";
    to_name = codes "federation-ingress-gateway";
    target_port = gateway_port.name;
    termination = codes "passthrough";
  };
}

-- One route for each port of a service.
unfoldable pub service_routes : ConfigFactory → GatewayPort → Service → List (Object RouteSpec)
service_routes cf gateway_port svc =
    map (λ (p : Kubernetes.ServicePort). create_route cf gateway_port svc.name svc.namespace p.port)
      svc.ports

abbrev pub routes_context : Text
routes_context = codes "error listing services"

-- The discovery service's route is created first: a missing gateway port panics there.
routes_with_port : Option GatewayPort → ConfigFactory → Outcome (List (Object RouteSpec))
routes_with_port none cf = panic
routes_with_port (some gateway_port) cf = do
  rest ← lift (
      list_each cf.service_lister routes_context (service_routes cf gateway_port)
        (get_label_selectors cf.cfg.exported_service_set))
  done (
      create_route cf gateway_port
        (codes "federation-discovery-service-" ++ cf.cfg.mesh_peers.local.name)
        (codes "istio-system") (pos 15080)
      ∷ rest)

unfoldable pub routes : ConfigFactory → Outcome (List (Object RouteSpec))
unfolding routes_with_port
routes cf = routes_with_port cf.cfg.mesh_peers.local.gateways.ingress.port cf

-- With a port and the services listed, there is a route for the discovery service and one for each
-- port of each exported service.
pub routes_built :
    (cf : ConfigFactory) (p : GatewayPort) (services : List Service)
    → cf.cfg.mesh_peers.local.gateways.ingress.port ≡ some p
    → exported_services cf.service_lister (get_label_selectors cf.cfg.exported_service_set)
      ≡ ok services
    → routes cf
      ≡ done (
          create_route cf p
            (codes "federation-discovery-service-" ++ cf.cfg.mesh_peers.local.name)
            (codes "istio-system")
            (pos 15080)
          ∷ concat_map (service_routes cf p) services)
unfolding routes
routes_built cf p services hp hs = simp (
  hp,
  list_each_ok cf.service_lister routes_context (service_routes cf p)
      (get_label_selectors cf.cfg.exported_service_set) services hs,
)
