-- ===== src/Openshift/Agreement.antt =====
-- The routes of one mesh against its SNI filters, and against one another.
use mathlib.Core.List.{append_assoc, map-append}
use federation.Common.{
  ℕ, ◌≡◌, refl, ap₂, ◌∙◌, sym, ◌<◌, true, some, List, [], ◌∷◌, ◌++◌, map, Text, codes, concat_map,
  ok, All, arith, ◌%◌, ◌^◌,
}
use federation.Common.Decimal.{ℤ, pos, format_int, uint32}
use federation.Common.Outcomes.{done}
use federation.Config.{GatewayPort, get_label_selectors, is_router}
use federation.Kubernetes
use federation.Kubernetes.{Service, Object, exported_services}
use federation.Istio.{EnvoyFilterSpec, ConfigPatch}
use federation.Istio
use federation.Istio.Names.{router_compatible_sni}
use federation.Istio.Filters.{
  create_envoy_filter, service_filters, envoy_filters, envoy_filters_built, server_names_patch,
}
use federation.Openshift.{
  RouteSpec, ConfigFactory, create_route, service_routes, routes, routes_built,
}

-- A port number, as Kubernetes admits them.
abbrev pub IsPort : ℤ → Type 0
IsPort p = (n : ℕ) × (p ≡ pos n) × (n < 2 ^ 16)

abbrev pub HasPorts : Service → Type 0
HasPorts svc = All (λ (p : Kubernetes.ServicePort). IsPort p.port) svc.ports

-- The patches of a filter, and those that a route's host wants.
abbrev pub patches : Object EnvoyFilterSpec → List Text
patches f = map (λ (c : ConfigPatch). c.patch_config) f.spec.config_patches

abbrev pub patches_for : Object RouteSpec → List Text
patches_for r = server_names_patch r.spec.host ∷ []

-- The routes' factory for the same configuration and lister.
abbrev pub for_routes : Istio.ConfigFactory → ConfigFactory
for_routes cf = record { cfg = cf.cfg; service_lister = cf.service_lister }

module _ (cf : Istio.ConfigFactory) (g : GatewayPort) where
  one_agrees :
      (name namespace : Text) (p : ℤ)
      → IsPort p
      → patches (create_envoy_filter cf g name namespace p)
        ≡ patches_for (create_route (for_routes cf) g name namespace p)
  unfolding create_envoy_filter create_route router_compatible_sni format_int uint32
  one_agrees name namespace p (n, e, h) =
      let small : n % 2 ^ 32 ≡ n = omega arith in rw (e, format_int) (rw small)

  ports_agree :
      (name namespace : Text) (ps : List Kubernetes.ServicePort)
      → All (λ (p : Kubernetes.ServicePort). IsPort p.port) ps
      → map patches
          (map (λ (p : Kubernetes.ServicePort). create_envoy_filter cf g name namespace p.port) ps)
        ≡ map patches_for (
            map
              (λ (p : Kubernetes.ServicePort). create_route (for_routes cf) g name namespace p.port)
              ps)
  ports_agree name namespace [] h = refl
  ports_agree name namespace (p ∷ ps) h =
      ap₂ ◌∷◌ (one_agrees name namespace p.port h.0) (ports_agree name namespace ps h.1)

  services_agree :
      (services : List Service)
      → All HasPorts services
      → map patches (concat_map (service_filters cf g) services)
        ≡ map patches_for (concat_map (service_routes (for_routes cf) g) services)
  unfolding concat_map service_filters service_routes
  services_agree [] h = refl
  services_agree (svc ∷ rest) h =
      map-append patches _ _
      ∙ ap₂ ◌++◌ (ports_agree svc.name svc.namespace svc.ports h.0) (services_agree rest h.1)
      ∙ sym (map-append patches_for _ _)

-- In a mesh behind the OpenShift router, with a gateway port, the services listed and port numbers
-- below 65536, the routes and the filters are built, and filter by filter the server name that is
-- added is the host of the route in the same place.
pub routes-agree-envoy_filters :
    (cf : Istio.ConfigFactory) (g : GatewayPort) (services : List Service)
    → is_router cf.cfg.mesh_peers.local.ingress_type ≡ true
    → cf.cfg.mesh_peers.local.gateways.ingress.port ≡ some g
    → exported_services cf.service_lister (get_label_selectors cf.cfg.exported_service_set)
      ≡ ok services
    → All HasPorts services
    → (fs : List (Object EnvoyFilterSpec)) × (rs : List (Object RouteSpec)) × (envoy_filters cf
        ≡ done fs)
      × (routes (for_routes cf) ≡ done rs)
      × (map patches fs ≡ map patches_for rs)
routes-agree-envoy_filters cf g services hr hg hs hp = (
  _,
  _,
  envoy_filters_built cf g services hr hg hs,
  routes_built (for_routes cf) g services hg hs,
  ap₂ ◌∷◌
      (one_agrees cf g (codes "federation-discovery-service-" ++ cf.cfg.mesh_peers.local.name)
        (codes "istio-system") (pos 15080) (15080, refl, omega arith))
      (services_agree cf g services hp),
)

-- Two services whose names and namespaces differ only in which dash parts them get routes of one
-- name in one namespace, for every port.
pub create_route_collides :
    (cf : ConfigFactory) (g : GatewayPort) (a b c : Text) (port : ℤ)
    → let r = create_route cf g (a ++ (codes "-" ++ b)) c port in
      let s = create_route cf g a (b ++ (codes "-" ++ c)) port in
      (r.name ≡ s.name) × (r.namespace ≡ s.namespace)
unfolding create_route
create_route_collides cf g a b c port = (simp append_assoc, refl)
