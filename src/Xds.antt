-- ===== src/Xds.antt =====
-- internal/pkg/legacy/xds: the type URLs and the push requests that the parts of the controller
-- send to one another.
pub mod Server
pub mod Client
use federation.Common.{Text, codes, List, Option}

abbrev pub exported_service_type_url : Text
exported_service_type_url = codes "federation.openshift-service-mesh.io/v1alpha1/ExportedService"

abbrev pub destination_rule_type_url : Text
destination_rule_type_url = codes "networking.istio.io/v1alpha3/DestinationRule"

abbrev pub gateway_type_url : Text
gateway_type_url = codes "networking.istio.io/v1alpha3/Gateway"

abbrev pub service_entry_type_url : Text
service_entry_type_url = codes "networking.istio.io/v1alpha3/ServiceEntry"

abbrev pub workload_entry_type_url : Text
workload_entry_type_url = codes "networking.istio.io/v1alpha3/WorkloadEntry"

abbrev pub envoy_filter_type_url : Text
envoy_filter_type_url = codes "networking.istio.io/v1alpha3/EnvoyFilter"

abbrev pub peer_authentication_type_url : Text
peer_authentication_type_url = codes "security.istio.io/v1beta1/PeerAuthentication"

abbrev pub route_type_url : Text
route_type_url = codes "route.openshift.io/v1/Route"

-- A serialized message with its type, protobuf's `anypb.Any`.
pub record Any : Type 0 where
  pub type_url : Text
  pub value : Text

-- `none` is a nil `Resources`.
pub record PushRequest : Type 0 where
  pub type_url : Text
  pub resources : Option (List Any)
