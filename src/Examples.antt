-- ===== src/Examples.antt =====
-- Two meshes on which the development is tried: the data that the examples share.
pub mod Config
pub mod Fds
pub mod Resources
pub mod Meshes
pub mod Ranges
pub mod Server
pub mod Kube
pub mod Life
pub mod Pushes
pub mod Streams
pub mod Program
pub mod Start
pub mod System
pub mod Arrivals
pub mod Places
pub mod Reached
pub mod Queue
pub mod Retries
pub mod Versions
pub mod Controllers
pub mod MeshFederations
pub mod Connections
use federation.Common.{
  ℕ, ◌≡◌, refl, Bool, true, false, ◌&&◌, Option, none, some, List, [], ◌∷◌, map, Text, codes,
  text_eq, text_eq_iff, if◌then◌else◌, Result, ok, err, Error, not_found, failure, arith,
}
use federation.Common.Decimal.{ℤ, pos}
use federation.Config.{
  Labels, GatewayPort, Remote, MeshPeers, Federation, LabelSelectors, openshift_router,
}
use federation.Kubernetes
use federation.Kubernetes.{Service, ServiceLister, Object, cluster_local}
use federation.Xds.{Any}
use federation.Fds.{ServicePort, FederatedService, Codec, RoundTrips}
use federation.Fds.Export.{export_service}
use federation.Networking.{Network}
use federation.Istio
use federation.Istio.{Library, ServiceEntrySpec}
use federation.Openshift

abbrev pub gateway_port : GatewayPort
gateway_port = record { name = codes "tls-passthrough"; number = 15443 }

-- The remote mesh, behind an OpenShift router.
abbrev pub west : Remote
west = record {
  name = codes "west";
  addresses = codes "10.0.0.1" ∷ [];
  ingress_type = openshift_router;
  port = none;
  network = codes "west-network";
}

abbrev pub peers : MeshPeers
peers = record {
  local = record {
    name = codes "east";
    control_plane = record { namespace = codes "istio-system" };
    gateways = record {
      ingress = record {
        selector = (codes "app", codes "federation-ingress-gateway") ∷ [];
        port = some gateway_port;
      };
    };
    ingress_type = openshift_router;
  };
  remotes = west ∷ [];
}

abbrev pub exports : List LabelSelectors
exports = record { match_labels = (codes "export", codes "true") ∷ []; match_expressions = [] } ∷ []

abbrev pub east : Federation
east = record {
  namespace = [];
  mesh_peers = peers;
  exported_service_set = record {
    rules = record { type = codes "LabelSelector"; label_selectors = exports } ∷ [];
  };
  imported_service_set = record { rules = [] };
}

-- A service that both meshes have, and one that only the remote has.
abbrev pub ratings : Service
ratings = record {
  name = codes "ratings";
  namespace = codes "bookinfo";
  labels = (codes "export", codes "true") ∷ [];
  ports = record { name = codes "http"; port = pos 9080; target_port = pos 9080 } ∷ [];
}

abbrev pub reviews : Service
reviews = record {
  name = codes "reviews";
  namespace = codes "bookinfo";
  labels = (codes "export", codes "true") ∷ [];
  ports = record { name = codes "grpc-api"; port = pos 9090; target_port = pos 0 } ∷ [];
}

abbrev pub get_ratings : Text → Text → Result Service
get_ratings namespace name =
    if text_eq name (codes "ratings") && text_eq namespace (codes "bookinfo")
    then ok ratings
    else err not_found

abbrev pub lister : ServiceLister
lister = record { list = λ labels. ok (ratings ∷ []); get = get_ratings }

-- The remote exports both.
abbrev pub imported : List FederatedService
imported = export_service ratings ∷ export_service reviews ∷ []

abbrev pub istio_factory : Istio.ConfigFactory
istio_factory = record {
  cfg = east;
  service_lister = lister;
  imported_service_store = record { imported_services = (codes "west", imported) ∷ [] };
  namespace = codes "istio-system";
}

abbrev pub openshift_factory : Openshift.ConfigFactory
openshift_factory = record { cfg = east; service_lister = lister }

abbrev pub library : Library
library = record {
  network = record { is_ip = λ a. true; lookup_ip = λ a. err (failure (codes "no such host")) };
  merge_copy = λ a b. b;
  values = map (λ (p : Text × Object ServiceEntrySpec). p.1);
}

-- A codec for host names alone: a message with ports or labels is refused.
abbrev pub marshal_parts : Text → List ServicePort → Labels → Result Any
marshal_parts h [] [] = ok (record { type_url = codes "host"; value = h })
marshal_parts h ports labels = err (failure (codes "not a host"))

abbrev pub codec : Codec
codec = record {
  marshal = λ s. marshal_parts s.hostname s.ports s.labels;
  unmarshal = λ v. ok (record { hostname = v; ports = []; labels = [] });
}

marshal_parts_decodes :
    (h : Text) (ports : List ServicePort) (labels : Labels) (a : Any)
    → marshal_parts h ports labels ≡ ok a
    → codec.unmarshal a.value ≡ ok (record { hostname = h; ports = ports; labels = labels })
marshal_parts_decodes h [] [] a e = ground arith
marshal_parts_decodes h [] (l ∷ ls) a e = cc
marshal_parts_decodes h (p ∷ ps) labels a e = cc

pub codec-RoundTrips : RoundTrips codec
codec-RoundTrips = record {
  decodes = λ s a e. marshal_parts_decodes s.hostname s.ports s.labels a e;
}

-- A service without ports or labels, which the codec can send.
abbrev pub bare : Service
bare = record { name = codes "bare"; namespace = codes "bookinfo"; labels = []; ports = [] }

abbrev pub bare_lister : ServiceLister
bare_lister = record { list = λ labels. ok (bare ∷ []); get = λ ns n. err not_found }
