-- ===== src/Istio.antt =====
-- internal/pkg/istio/config_factory.go: the Istio resources that follow from the configuration, the
-- local services and the imported ones. The records are the parts of Istio's types that the
-- factory sets.
pub mod Names
pub mod Gateway
pub mod Filters
pub mod DestinationRules
pub mod ServiceEntries
pub mod WorkloadEntries
use federation.Common.{ℕ, Bool, List, Text}
use federation.Config.{Federation, Labels}
use federation.Kubernetes.{ServiceLister, Object}
use federation.Networking.{Network}
use federation.Fds.Store.{ImportedServiceStore}

-- networking.istio.io Gateway.
pub data ServerTlsMode : Type 0 where
  auto_passthrough : ServerTlsMode

pub record Server : Type 0 where
  pub hosts : List Text
  pub port_number : ℕ
  pub port_name : Text
  pub protocol : Text
  pub tls_mode : ServerTlsMode

pub record GatewaySpec : Type 0 where
  pub selector : Labels
  pub servers : List Server

-- networking.istio.io EnvoyFilter: `patch_config` is the JSON text that the patch's value is decoded
-- from by the library.
pub record ConfigPatch : Type 0 where
  pub listener : Text
  pub sni : Text
  pub patch_config : Text

pub record EnvoyFilterSpec : Type 0 where
  pub workload_selector : Labels
  pub config_patches : List ConfigPatch

-- networking.istio.io DestinationRule; `tls` is the mode ISTIO_MUTUAL with its SNI, for the whole
-- host or port by port.
pub record ClientTls : Type 0 where
  pub sni : Text

pub record PortTls : Type 0 where
  pub number : ℕ
  pub tls : ClientTls

pub data TrafficPolicy : Type 0 where
  host_tls : ClientTls → TrafficPolicy
  port_level : List PortTls → TrafficPolicy

pub record DestinationRuleSpec : Type 0 where
  pub host : Text
  pub traffic_policy : TrafficPolicy

-- networking.istio.io WorkloadEntry and ServiceEntry.
pub record WorkloadEntrySpec : Type 0 where
  pub address : Text
  pub labels : Labels
  pub ports : List (Text × ℕ)
  pub network : Text

pub record EntryPort : Type 0 where
  pub name : Text
  pub number : ℕ
  pub protocol : Text
  pub target_port : ℕ

pub data Resolution : Type 0 where
  static dns : Resolution

pub data Location : Type 0 where
  mesh_internal : Location

pub record ServiceEntrySpec : Type 0 where
  pub hosts : List Text
  pub ports : List EntryPort
  pub endpoints : List WorkloadEntrySpec
  pub location : Location
  pub resolution : Resolution

-- What the factory takes from libraries: the network, `maps.MergeCopy`, and the order in which
-- `maps.Values` visits a map.
pub record Library : Type 0 where
  pub network : Network
  pub merge_copy : Labels → Labels → Labels
  pub values : List (Text × Object ServiceEntrySpec) → List (Object ServiceEntrySpec)

-- ConfigFactory.
pub record ConfigFactory : Type 0 where
  pub cfg : Federation
  pub service_lister : ServiceLister
  pub imported_service_store : ImportedServiceStore
  pub namespace : Text
