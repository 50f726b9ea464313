-- ===== src/Program/Clients.antt =====
-- `startFederationServer`, `startFDSClient` and `runLegacyMode` of cmd/federation-controller/main.go:
-- what is started, in order, and the calls that may end the process; goroutines are started with what is
-- returned. Only the server's own, whose error ends the process too, is in Xds/Server/Run.
-- An exit of the process is `fail`.
pub mod Cases
use federation.Common.{
  ◌≡◌, refl, ap, sym, ◌∙◌, Bool, Option, List, [], ◌∷◌, ◌++◌, Text, codes, map, inl, inr, ◌⊎◌,
  if◌then◌else◌, Result, ok, err, Error, wrap, some, ℕ, ◌*◌, ◌^◌,
}
use mathlib.Core.List.{Memᴰ}
use federation.Common.Decimal.{format}
use federation.Common.Outcomes.{Outcome, done, fail, panic, ◌>>=◌}
use federation.Config.{Federation, Remote, service_fqdn, service_port, is_router}
use federation.Kubernetes.{ServiceLister}
use federation.Networking.{Network}
use federation.Xds.{Any, exported_service_type_url}
use federation.Xds.Client.{AdscConfig}
use federation.Xds.Client.Dial.{DialConfig, Grpc, new}
use federation.Xds.Server.{AdsServer}
use federation.Xds.Server.Run.{new_server}
use federation.Fds.{Codec}
use federation.Fds.Export.{generate_response}
use federation.Fds.Store.{new_imported_service_store}
use federation.Istio.{Library}
use federation.Kube.Manager.{Reconciler, ReconcilerManager}
use federation.Meshes.Stream.{Imports, client_config}
use federation.Program.Startup.{Startup, start_informer, make_clients}
use federation.Program.Reconcilers.{Cluster, start_reconciler}

-- What the discovery client of one remote is made with.
pub record FdsClient : Type 0 where
  pub discovery_addr : Text
  pub authority : Text
  pub config : AdscConfig Imports

-- An IP is reached under the name of the remote's own service entry.
unfoldable pub discovery_addr : Network → Remote → Text → Text
discovery_addr n remote addr =
    (if n.is_ip addr then service_fqdn remote else addr)
    ++ (codes ":" ++ format (service_port remote))

abbrev pub client_of : Network → Codec → Remote → Text → FdsClient
client_of n c remote addr = record {
  discovery_addr = discovery_addr n remote addr;
  authority = service_fqdn remote;
  config = client_config c remote;
}

-- Five seconds.
abbrev pub reconnect_delay : ℕ
reconnect_delay = 5 * 10 ^ 9

abbrev pub dial_config : FdsClient → DialConfig
dial_config client = record {
  discovery_addr = client.discovery_addr;
  authority = client.authority;
  reconnect_delay = reconnect_delay;
}

abbrev pub or_fatal : Result (Unit {0}) → FdsClient → Outcome FdsClient
or_fatal (ok conn) client = done client
or_fatal (err e) client = fail (wrap (codes "failed to create FDS client") e)

-- `adsc.New`.
unfoldable pub make_client : Grpc → FdsClient → Outcome FdsClient
make_client g client =
    or_fatal (new g.default_config g.new_client (some (dial_config client))) client

-- `Addresses[0]` is out of range on an empty slice.
unfoldable pub client_at : Network → Codec → Grpc → Remote → List Text → Outcome FdsClient
client_at n c g remote [] = panic
client_at n c g remote (addr ∷ rest) = make_client g (client_of n c remote addr)

-- `startFDSClient`.
unfoldable pub start_fds_client : Network → Codec → Grpc → Remote → Outcome FdsClient
unfolding client_at
start_fds_client n c g remote = client_at n c g remote remote.addresses

unfoldable pub start_fds_clients : Network → Codec → Grpc → List Remote → Outcome (List FdsClient)
start_fds_clients n c g [] = done []
start_fds_clients n c g (remote ∷ rest) = do
  client ← start_fds_client n c g remote
  others ← start_fds_clients n c g rest
  done (client ∷ others)

-- `startFederationServer`: the one handler of the server is the generator of exported services, which
-- reads the lister as it is when a response is asked for.
unfoldable pub start_federation_server :
    Codec → Federation → ServiceLister → List (Text × Result (List Any)) × AdsServer
start_federation_server c cfg lister =
    new_server ((exported_service_type_url, generate_response c lister cfg) ∷ [])

-- What runs after `runLegacyMode`.
pub record Running : Type 0 where
  pub server : ServiceLister → List (Text × Result (List Any)) × AdsServer
  pub resolves_remote_ips : Bool
  pub clients : List FdsClient
  pub cfg : Federation

abbrev pub running_with : Codec → Federation → List FdsClient → Federation → Running
running_with c cfg clients kept = record {
  server = start_federation_server c cfg;
  resolves_remote_ips = is_router cfg.mesh_peers.local.ingress_type;
  clients = clients;
  cfg = kept;
}

-- After the first run of the reconcilers, whose error ends the process.
abbrev pub reconciled :
    {S : Type 0}
    → (Federation → Running)
    → Federation × (S × Outcome (Unit {0}))
    → S × Outcome Running
reconciled running (kept, (s, o)) = (s, do _ ← o; done (running kept))

-- `startReconciler`, by what comes before its first run.
abbrev pub on_clients :
    {S : Type 0}
    → (List FdsClient → S × Outcome Running)
    → Outcome (List FdsClient)
    → S
    → S × Outcome Running
on_clients go (done clients) s = go clients
on_clients go (fail e) s = (s, fail e)
on_clients go panic s = (s, panic)

-- `runLegacyMode`, with the state that it leaves.
unfoldable pub run_legacy_mode :
    {S : Type 0}
    → Cluster S
    → Library
    → Codec
    → Grpc
    → Startup
    → Option Text
    → Result Text
    → (ReconcilerManager S → List (Reconciler S))
    → ServiceLister
    → Federation
    → S
    → S × Outcome Running
run_legacy_mode cluster lib c g up env secret order lister cfg s =
    on_clients
      (λ clients. reconciled (running_with c cfg clients) (
        start_reconciler cluster lib env secret order cfg
          (record { lister = lister; store = new_imported_service_store }) s))
      (do
        _ ← start_informer up
        clients ← start_fds_clients lib.network c g cfg.mesh_peers.remotes
        _ ← make_clients up cfg
        done clients)
      s
