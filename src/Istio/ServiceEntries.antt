-- ===== src/Istio/ServiceEntries.antt =====
-- `ServiceEntries`: remote services that have no local service of their name.
pub mod Coverage
pub mod Entered
pub mod Reach
pub mod Spec
use federation.Common.{
  ℕ, ◌≡◌, refl, ap, ◌∙◌, sym, Bool, true, false, Option, none, some, List, [], ◌∷◌, ◌++◌, map, Text,
  codes, if◌then◌else◌, Result, ok, err, Error, is_not_found, wrap,
}
use federation.Common.GoMap.{lookup, insert, text_key}
use federation.Common.Outcomes.{Outcome, done, fail, panic, ◌>>=◌}
use federation.Config.{Labels, Remote, service_name, service_fqdn, service_port, get_port}
use federation.Kubernetes.{Object, Service, peer_label}
use federation.Fds
use federation.Fds.{FederatedService}
use federation.Fds.Store.{from}
use federation.Networking.{Network}
use federation.Istio.{
  ConfigFactory, Library, ServiceEntrySpec, WorkloadEntrySpec, EntryPort, Resolution, static, dns,
  mesh_internal,
}
use federation.Istio.Names.{separate_with_dash, get_service_name_and_ns, make_ports_map}

abbrev pub tls_mode_label : Labels
tls_mode_label = (codes "security.istio.io/tlsMode", codes "istio") ∷ []

-- STATIC for an IP address, DNS for a name.
abbrev pub resolution_of : Network → Text → Resolution
resolution_of n addr = if n.is_ip addr then static else dns

-- An endpoint of the remote's controller.
abbrev pub controller_endpoint : Remote → Text → WorkloadEntrySpec
controller_endpoint remote addr = record {
  address = addr;
  labels = tls_mode_label;
  ports = (codes "grpc", get_port remote) ∷ [];
  network = remote.network;
}

-- The entry for the remote's controller; its first address decides the resolution.
unfoldable pub controller_entry : Library → ConfigFactory → Remote → Text → Object ServiceEntrySpec
controller_entry lib cf remote addr = record {
  name = service_name remote;
  namespace = cf.cfg.mesh_peers.local.control_plane.namespace;
  labels = peer_label;
  spec = record {
    hosts = service_fqdn remote ∷ [];
    ports =
        record {
          name = codes "grpc";
          number = service_port remote;
          protocol = codes "GRPC";
          target_port = 0;
        }
        ∷ [];
    endpoints = map (controller_endpoint remote) remote.addresses;
    location = mesh_internal;
    resolution = resolution_of lib.network addr;
  };
}

-- `Addresses[0]` is out of range on an empty slice.
at_first_address : Library → ConfigFactory → Remote → List Text → Outcome (Object ServiceEntrySpec)
at_first_address lib cf remote [] = panic
at_first_address lib cf remote (addr ∷ rest) = done (controller_entry lib cf remote addr)

unfoldable pub service_entry_for_remote_federation_controller :
    Library → ConfigFactory → Remote → Outcome (Object ServiceEntrySpec)
unfolding at_first_address
service_entry_for_remote_federation_controller lib cf remote =
    at_first_address lib cf remote remote.addresses

-- The port of an entry, from a port of the message.
abbrev pub entry_port : Fds.ServicePort → EntryPort
entry_port p = record {
  name = p.name;
  number = p.number;
  protocol = p.protocol;
  target_port = p.target_port;
}

-- The endpoint of an imported service at one address of the remote; workload entries have the same
-- spec.
unfoldable pub import_endpoint : Library → Remote → FederatedService → Text → WorkloadEntrySpec
import_endpoint lib remote svc addr = record {
  address = addr;
  labels = lib.merge_copy svc.labels tls_mode_label;
  ports = make_ports_map svc.ports (get_port remote);
  network = remote.network;
}

unfoldable pub svc_entry_name : FederatedService → Remote → Text
svc_entry_name svc remote =
    codes "import-" ++ (separate_with_dash svc.hostname ++ (codes "-" ++ remote.name))

-- The map from names to entries.
abbrev pub ByName : Type 0
ByName = List (Text × Object ServiceEntrySpec)

-- An entry that is there gets the endpoints appended; else a new one is made.
merged_entry :
    ConfigFactory
    → Resolution
    → Remote
    → FederatedService
    → List WorkloadEntrySpec
    → Option (Object ServiceEntrySpec)
    → Object ServiceEntrySpec
merged_entry cf resolution remote svc endpoints (some entry) = record {
  name = entry.name;
  namespace = entry.namespace;
  labels = entry.labels;
  spec = record {
    hosts = entry.spec.hosts;
    ports = entry.spec.ports;
    endpoints = entry.spec.endpoints ++ endpoints;
    location = entry.spec.location;
    resolution = entry.spec.resolution;
  };
}
merged_entry cf resolution remote svc endpoints none = record {
  name = svc_entry_name svc remote;
  namespace = cf.cfg.mesh_peers.local.control_plane.namespace;
  labels = peer_label;
  spec = record {
    hosts = svc.hostname ∷ [];
    ports = map entry_port svc.ports;
    endpoints = endpoints;
    location = mesh_internal;
    resolution = resolution;
  };
}

unfoldable pub add_import :
    Library → ConfigFactory → Resolution → Remote → FederatedService → ByName → ByName
unfolding merged_entry
add_import lib cf resolution remote svc by_name =
    insert (svc_entry_name svc remote)
      (merged_entry cf resolution remote svc (map (import_endpoint lib remote svc) remote.addresses)
        (lookup (svc_entry_name svc remote) by_name))
      by_name

abbrev pub get_context : Text
get_context = codes "failed to get Service"

-- The lister's answer decides: a service that is there is left to the workload entries.
unfoldable pub on_lookup :
    Library
    → ConfigFactory
    → Resolution
    → Remote
    → FederatedService
    → ByName
    → Result Service
    → Outcome ByName
on_lookup lib cf resolution remote svc by_name (ok found) = done by_name
on_lookup lib cf resolution remote svc by_name (err e) =
    if is_not_found e
    then done (add_import lib cf resolution remote svc by_name)
    else fail (wrap get_context e)

-- The loop over the services imported from one remote.
unfoldable pub import_loop :
    Library → ConfigFactory → Resolution → Remote → List FederatedService → ByName → Outcome ByName
import_loop lib cf resolution remote [] by_name = done by_name
import_loop lib cf resolution remote (svc ∷ rest) by_name = do
  parts ← get_service_name_and_ns svc.hostname
  by_name' ← on_lookup lib cf resolution remote svc by_name (cf.service_lister.get parts.1 parts.0)
  import_loop lib cf resolution remote rest by_name'

-- The two collections of the outer loop: the slice, and the map.
abbrev pub Entries : Type 0
Entries = List (Object ServiceEntrySpec) × ByName

-- The body of the outer loop; a remote without addresses is skipped.
remote_body : Library → ConfigFactory → Remote → List Text → Entries → Outcome Entries
remote_body lib cf remote [] (entries, by_name) = done (entries, by_name)
remote_body lib cf remote (addr ∷ rest) (entries, by_name) = do
  controller ← service_entry_for_remote_federation_controller lib cf remote
  by_name' ←
      import_loop lib cf (resolution_of lib.network addr) remote
        (from cf.imported_service_store remote) by_name
  done (entries ++ controller ∷ [], by_name')

remote_loop : Library → ConfigFactory → List Remote → Entries → Outcome Entries
remote_loop lib cf [] acc = done acc
remote_loop lib cf (remote ∷ rest) acc = do
  acc' ← remote_body lib cf remote remote.addresses acc
  remote_loop lib cf rest acc'

unfoldable pub service_entries : Library → ConfigFactory → Outcome (List (Object ServiceEntrySpec))
unfolding remote_loop remote_body
service_entries lib cf = do
  acc ← remote_loop lib cf cf.cfg.mesh_peers.remotes ([], [])
  done (acc.0 ++ lib.values acc.1)
