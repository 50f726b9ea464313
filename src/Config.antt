-- ===== src/Config.antt =====
-- internal/pkg/config/federation_config.go: the configuration that the program reads at its start.
-- Strings with named values (the ingress types) stay strings, as in the code.
pub mod Parse
pub mod Cluster
pub mod Peers
use federation.Common.{
  ℕ, ◌≡◌, Bool, true, false, Option, none, some, List, [], ◌∷◌, ◌++◌, Text, codes, text_eq,
  if◌then◌else◌,
}

-- A `map[string]string`.
abbrev pub Labels : Type 0
Labels = List (Text × Text)

abbrev pub default_gateway_port : ℕ
default_gateway_port = 15443

abbrev pub openshift_router : Text
openshift_router = codes "openshift-router"

abbrev pub istio : Text
istio = codes "istio"

pub record ControlPlane : Type 0 where
  pub namespace : Text

pub record GatewayPort : Type 0 where
  pub name : Text
  pub number : ℕ  -- uint32

pub record LocalGateway : Type 0 where
  pub selector : Labels
  pub port : Option GatewayPort  -- a pointer

pub record Gateways : Type 0 where
  pub ingress : LocalGateway

pub record Local : Type 0 where
  pub name : Text
  pub control_plane : ControlPlane
  pub gateways : Gateways
  pub ingress_type : Text

pub record Remote : Type 0 where
  pub name : Text
  pub addresses : List Text
  pub ingress_type : Text
  pub port : Option ℕ  -- *uint32
  pub network : Text

pub record MeshPeers : Type 0 where
  pub local : Local
  pub remotes : List Remote

pub record MatchExpressions : Type 0 where
  pub key : Text
  pub operator : Text
  pub values : List Text

pub record LabelSelectors : Type 0 where
  pub match_labels : Labels
  pub match_expressions : List MatchExpressions

pub record Rules : Type 0 where
  pub type : Text
  pub label_selectors : List LabelSelectors

pub record ExportedServiceSet : Type 0 where
  pub rules : List Rules

pub record ImportedServiceSet : Type 0 where
  pub rules : List Rules

pub record Federation : Type 0 where
  pub namespace : Text
  pub mesh_peers : MeshPeers
  pub exported_service_set : ExportedServiceSet
  pub imported_service_set : ImportedServiceSet

-- `remote.IngressType == OpenShiftRouter`.
abbrev pub is_router : Text → Bool
is_router t = text_eq t openshift_router

unfoldable pub any_router : List Remote → Bool
any_router [] = false
any_router (remote ∷ rest) = if is_router remote.ingress_type then true else any_router rest

unfoldable pub any_remote_peer_with_openshift_router_ingress : MeshPeers → Bool
unfolding any_router
any_remote_peer_with_openshift_router_ingress m = any_router m.remotes

unfoldable pub service_name : Remote → Text
service_name r = codes "federation-discovery-service-" ++ r.name

unfoldable pub service_fqdn : Remote → Text
unfolding service_name
service_fqdn r = service_name r ++ codes ".istio-system.svc.cluster.local"

abbrev pub service_port : Remote → ℕ
service_port r = 15080

unfoldable pub get_port : Remote → ℕ
get_port r = elim r.port [ some p ↦ p | none ↦ default_gateway_port ]

-- The first rule alone is read; a nil receiver is an empty list of rules.
abbrev first_selectors : List Rules → List LabelSelectors
first_selectors [] = []
first_selectors (r ∷ rs) = r.label_selectors

unfoldable pub get_label_selectors : ExportedServiceSet → List LabelSelectors
get_label_selectors s = first_selectors s.rules
