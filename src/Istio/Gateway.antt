-- ===== src/Istio/Gateway.antt =====
-- `IngressGateway`: the hosts that the federation ingress gateway exposes.
use mathlib.Core.List.{Perm}
use mathlib.Core.List.Perm
use federation.Common.{
  ◌≡◌, refl, sym, ap, Option-cases, Option, none, some, ◌∙◌, List, [], ◌∷◌, ◌++◌, map, Text, codes,
  ok, inl, inr,
}
use federation.Common.Order.{sort_texts, IsSorted, sort_texts-eq_of_perm}
use federation.Common.Outcomes.{Outcome, done, panic, lift, ◌>>=◌}
use federation.Config.{GatewayPort, get_label_selectors}
use federation.Kubernetes.{
  Service, Object, peer_label, cluster_local, ServiceLister, list_each, list_each_ok,
  exported_services,
}
use federation.Fds.Export.{concat_map-singleton}
use federation.Istio.{ConfigFactory, GatewaySpec, auto_passthrough}

abbrev pub federation_ingress_gateway_name : Text
federation_ingress_gateway_name = codes "federation-ingress-gateway"

abbrev pub gateway_context : Text
gateway_context = codes "error listing services"

-- The gateway for a port and sorted hosts.
gateway_object : ConfigFactory → GatewayPort → List Text → Object GatewaySpec
gateway_object cf port hosts = record {
  name = federation_ingress_gateway_name;
  namespace = cf.cfg.mesh_peers.local.control_plane.namespace;
  labels = peer_label;
  spec = record {
    selector = cf.cfg.mesh_peers.local.gateways.ingress.selector;
    servers =
        record {
          hosts = hosts;
          port_number = port.number;
          port_name = port.name;
          protocol = codes "TLS";
          tls_mode = auto_passthrough;
        }
        ∷ [];
  };
}

abbrev pub discovery_host : ConfigFactory → Text
discovery_host cf =
    cluster_local (codes "federation-discovery-service-" ++ cf.cfg.mesh_peers.local.name)
      cf.namespace

-- The port is read through a pointer, before the services are listed.
with_port : Option GatewayPort → ConfigFactory → Outcome (Object GatewaySpec)
with_port none cf = panic
with_port (some port) cf = do
  hosts ← lift (
      list_each cf.service_lister gateway_context (λ svc. cluster_local svc.name svc.namespace ∷ [])
        (get_label_selectors cf.cfg.exported_service_set))
  done (gateway_object cf port (sort_texts (discovery_host cf ∷ hosts)))

unfoldable pub ingress_gateway : ConfigFactory → Outcome (Object GatewaySpec)
unfolding with_port gateway_object
ingress_gateway cf = with_port cf.cfg.mesh_peers.local.gateways.ingress.port cf

-- The host of an exported service.
abbrev pub host_of : Service → Text
host_of svc = cluster_local svc.name svc.namespace

-- The hosts of the gateway for the services.
abbrev sorted_hosts : ConfigFactory → List Service → List Text
sorted_hosts cf services = sort_texts (discovery_host cf ∷ map host_of services)

hosts_listed :
    (cf : ConfigFactory) (services : List Service)
    → exported_services cf.service_lister (get_label_selectors cf.cfg.exported_service_set)
      ≡ ok services
    → list_each cf.service_lister gateway_context
        (λ svc. host_of svc ∷ [])
        (get_label_selectors cf.cfg.exported_service_set)
      ≡ ok (map host_of services)
hosts_listed cf services h =
    list_each_ok cf.service_lister gateway_context (λ svc. host_of svc ∷ [])
      (get_label_selectors cf.cfg.exported_service_set) services h
    ∙ ap ok (concat_map-singleton host_of services)

ingress_gateway_built :
    (cf : ConfigFactory) (port : GatewayPort) (services : List Service)
    → cf.cfg.mesh_peers.local.gateways.ingress.port ≡ some port
    → exported_services cf.service_lister (get_label_selectors cf.cfg.exported_service_set)
      ≡ ok services
    → ingress_gateway cf ≡ done (gateway_object cf port (sorted_hosts cf services))
unfolding ingress_gateway
ingress_gateway_built cf port services hp hs = rw (hp, hosts_listed cf services hs)

-- What a gateway for the services and a port says: the gateway listens on the port with TLS
-- passthrough, and its hosts are sorted, and are the discovery host and the services' hosts, each
-- as often.
pub record Exposes (cf : ConfigFactory) (port : GatewayPort) (services : List Service)
    (g : Object GatewaySpec) : Type 0 where
  pub named : g.name ≡ federation_ingress_gateway_name
  pub placed : g.namespace ≡ cf.cfg.mesh_peers.local.control_plane.namespace
  pub labelled : g.labels ≡ peer_label
  pub hosts : List Text
  pub sorted : IsSorted hosts
  pub complete : Perm hosts (discovery_host cf ∷ map host_of services)
  pub served : g.spec ≡ record {
    selector = cf.cfg.mesh_peers.local.gateways.ingress.selector;
    servers =
        record {
          hosts = hosts;
          port_number = port.number;
          port_name = port.name;
          protocol = codes "TLS";
          tls_mode = auto_passthrough;
        }
        ∷ [];
  }

-- The lister may give the services in any order: a permutation of them yields the same gateway.
pub ingress_gateway-eq_of_perm :
    (cf : ConfigFactory) (lister : ServiceLister) (services services' : List Service)
    → exported_services cf.service_lister (get_label_selectors cf.cfg.exported_service_set)
      ≡ ok services
    → exported_services lister (get_label_selectors cf.cfg.exported_service_set) ≡ ok services'
    → Perm services services'
    → ingress_gateway cf ≡ ingress_gateway (record cf { service_lister = lister })
unfolding ingress_gateway
ingress_gateway-eq_of_perm cf lister services services' h h' p =
    let cf' : ConfigFactory = record cf { service_lister = lister } in
    elim (Option-cases cf.cfg.mesh_peers.local.gateways.ingress.port) [
      | inl e ↦ rw e refl
      | inr (port, e) ↦
          ingress_gateway_built cf port services e h
          ∙ ap (λ hosts. done (gateway_object cf port hosts))
              (sort_texts-eq_of_perm _ _ (Perm.cons (discovery_host cf) (Perm.map host_of p)))
          ∙ sym (ingress_gateway_built cf' port services' e h')
    ]
