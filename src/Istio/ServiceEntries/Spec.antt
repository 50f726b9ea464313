-- ===== src/Istio/ServiceEntries/Spec.antt =====
-- What a service entry and an endpoint are to be, written out.
use federation.Common.{◌≡◌, refl, List, [], ◌∷◌, ◌++◌, map, Text, codes, if◌then◌else◌}
use federation.Common.Split.{substitute}
use federation.Config.{Remote, get_port}
use federation.Kubernetes.{Object}
use federation.Fds.{FederatedService, ServicePort}
use federation.Istio.{
  ConfigFactory, Library, ServiceEntrySpec, WorkloadEntrySpec, Resolution, static, dns,
  mesh_internal,
}
use federation.Istio.Names.{SendsNames, make_ports_map-SendsNames, separate_with_dash_lem}
use federation.Istio.ServiceEntries.{svc_entry_name, import_endpoint}

-- The resolution is that of the remote's first address.
abbrev pub Resolves : Library → Resolution → Remote → Type 0
Resolves lib res remote =
    (first : Text) × (rest : List Text) × (remote.addresses ≡ first ∷ rest)
    × (res ≡ (if lib.network.is_ip first then static else dns))

-- The name of the entry: of the host name, with each dot replaced by a dash, and the remote.
abbrev pub dashed_name : FederatedService → Remote → Text
dashed_name svc remote =
    codes "import-" ++ (map (substitute b'.' b'-') svc.hostname ++ (codes "-" ++ remote.name))

pub svc_entry_name_lem :
    (svc : FederatedService) (remote : Remote) → svc_entry_name svc remote ≡ dashed_name svc remote
unfolding svc_entry_name
svc_entry_name_lem svc remote = rw (separate_with_dash_lem svc.hostname) refl

-- The spec of the entry of a service of a remote: the service's one host, its ports, and the resolution
-- by what the first address of the remote is.
pub record HasSpec (lib : Library) (svc : FederatedService) (remote : Remote)
    (spec : ServiceEntrySpec) : Type 0 where
  pub one_host : spec.hosts ≡ svc.hostname ∷ []
  pub same_ports :
      spec.ports
      ≡ map
          (λ (p : ServicePort). record {
            name = p.name;
            number = p.number;
            protocol = p.protocol;
            target_port = p.target_port;
          })
          svc.ports
  pub inside : spec.location ≡ mesh_internal
  pub resolved : Resolves lib spec.resolution remote

-- The entry is that of a service of a remote: under the dashed name in the namespace of the
-- control plane, with its label and its spec.
pub record IsEntryOf (lib : Library) (cf : ConfigFactory) (svc : FederatedService) (remote : Remote)
    (e : Object ServiceEntrySpec) : Type 0 where
  pub named : e.name ≡ dashed_name svc remote
  pub namespaced : e.namespace ≡ cf.cfg.mesh_peers.local.control_plane.namespace
  pub labelled : e.labels ≡ (codes "federation.openshift-service-mesh.io/peer", codes "todo") ∷ []
  pub with_spec : HasSpec lib svc remote e.spec

-- An endpoint for a service at an address of a remote: with the labels of the service and that of
-- Istio, the network of the remote, and every port's name, and no other, sent to the remote's port.
pub record IsEndpoint (lib : Library) (remote : Remote) (svc : FederatedService) (addr : Text)
    (w : WorkloadEntrySpec) : Type 0 where
  pub at_address : w.address ≡ addr
  pub with_labels :
      w.labels ≡ lib.merge_copy svc.labels ((codes "security.istio.io/tlsMode", codes "istio") ∷ [])
  pub in_network : w.network ≡ remote.network
  pub to_port : SendsNames svc.ports (get_port remote) w.ports

pub import_endpoint-IsEndpoint :
    (lib : Library) (remote : Remote) (svc : FederatedService) (addr : Text)
    → IsEndpoint lib remote svc addr (import_endpoint lib remote svc addr)
unfolding import_endpoint
import_endpoint-IsEndpoint lib remote svc addr = record {
  at_address = refl;
  with_labels = refl;
  in_network = refl;
  to_port = make_ports_map-SendsNames svc.ports (get_port remote);
}
