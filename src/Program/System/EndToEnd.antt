-- ===== src/Program/System/EndToEnd.antt =====
-- From a service that one mesh exports, through its discovery server, the stream, the client, the store,
-- the push requests and the reconcilers of another mesh, to the API server of that mesh.
use mathlib.Core.List.{Memᴰ}
use federation.Common.{
  ℕ, ◌≡◌, ◌≢◌, refl, sym, subst, ◌∙◌, none, some, List, [], map, Text, text_eq_refl, ok, All,
  Memᴰ-map,
}
use federation.Common.GoMap.{lookup, text_key, insert}
use federation.Common.Outcomes.{done, panic}
use federation.Config.{Federation, Remote, get_label_selectors}
use federation.Kubernetes.{Service, ServiceLister, exported_services}
use federation.Xds.{Any, exported_service_type_url}
use federation.Xds.Server.{
  id_key, Response, Subscriber, AdsServer, Surroundings, push, push_response, generate_resources,
}
use federation.Xds.Server.Push.{VisitsSubscribers, Reached, push-Reached}
use federation.Xds.Client.{on_message}
use federation.Fds.{Codec, RoundTrips}
use federation.Fds.Export.{export_service, generate_response, generate_response_lem, serialize}
use federation.Fds.Store.{ImportedServiceStore, update}
use federation.Fds.Import.{handle, decode_all}
use federation.Informer.{request}
use federation.Istio.{Library}
use federation.Istio.ServiceEntries.Reach.{IsMissing, IsAnswered, IsUnambiguous, GivesValues}
use federation.Kube.Api.{Documented}
use federation.Kube.Sync.Maps.{Visits}
use federation.Kube.Manager.{Reconciler, start}
use federation.Meshes.Discovery.{decode_all-serialize}
use federation.Meshes.Stream.{Imports, client_config, imported_service_handler}
use federation.Program.Clients.{start_federation_server}
use federation.Xds.Server.Run.{new_server}
use federation.Program.Reconcilers.{Cluster}
use federation.Program.System.{manager, run_service_entries}
use federation.Program.System.InSync.{KindsApart}
use federation.Program.System.Kinds.{factory}
use federation.Program.System.Reached.{GivesOnlyValues, IsReachable, handle-IsReachable}

abbrev pub push_of : Surroundings → List Any → Response
push_of env wire = push_response env exported_service_type_url wire

-- What a client of the exporting mesh has when it has handled a response.
abbrev pub imported_from : Codec → Remote → Response → ImportedServiceStore → Imports
imported_from c remote response before =
    on_message (client_config c remote) (response.type_url, response.resources) (before, [])

-- The exporting mesh: what it exports, its server, and a subscriber of it.
module _ (c : Codec) (rt : RoundTrips c) (peer : Federation) (peer_lister : ServiceLister)
    (services : List Service) (wire : List Any)
    (listed : exported_services peer_lister (get_label_selectors peer.exported_service_set)
      ≡ ok services)
    (encoded : generate_response c peer_lister peer ≡ ok wire) (env : Surroundings)
    (handlers : env.handlers ≡ (start_federation_server c peer peer_lister).0)
    (visits_subscribers : VisitsSubscribers env.range) (ads : AdsServer) (id : ℕ)
    (subscriber : Subscriber) (subscribed : lookup id ads.subscribers ≡ some subscriber)
    (takes : env.send subscriber.stream (push_of env wire) ≡ none) where
  generated : generate_resources env exported_service_type_url ≡ ok wire
  unfolding generate_resources start_federation_server new_server lookup insert
  generated = rw handlers (rw (text_eq_refl exported_service_type_url) (rw encoded refl))

  -- The push for exported services is delivered on the subscriber's stream.
  delivered :
      Memᴰ
        (subscriber.stream, push_of env wire)
        (push env (request exported_service_type_url) ads).0.delivered
  delivered =
      let reached =
        (push-Reached env visits_subscribers (request exported_service_type_url) wire ads id
          subscriber generated subscribed).1 in
      let (there, has) : Reached none id subscriber (push_of env wire)
          (push env (request exported_service_type_url) ads).0 =
        subst
          (λ o.
            Reached o id subscriber (push_of env wire)
              (push env (request exported_service_type_url) ads).0)
          takes reached in
      has

  decoded : decode_all c wire ≡ ok (map export_service services)
  decoded = decode_all-serialize c (map export_service services) wire rt sent
    where
      sent : serialize c (map export_service services) ≡ ok wire
      sent =
          let whole = sym (generate_response_lem c peer_lister peer) ∙ encoded in rw listed at whole

  client_handles :
      (remote : Remote) (before : ImportedServiceStore)
      → imported_from c remote (push_of env wire) before
        ≡ ((handle c remote.name wire before).store, (handle c remote.name wire before).pushed)
  unfolding on_message client_config lookup imported_service_handler
  client_handles remote before = rw (text_eq_refl exported_service_type_url) refl

  -- The importing mesh.
  module _ {S : Type 0} (cluster : Cluster S) (doc : Documented cluster.service_entries)
      (visits : Visits cluster.range_service_entries) (kinds : KindsApart cluster doc.view)
      (lib : Library) (all_values : GivesValues lib) (only_values : GivesOnlyValues lib)
      (cfg : Federation) (ns : Text) (lister : ServiceLister) where
    -- A service that a mesh exports is reachable through the API server of a mesh that is subscribed to
    -- it and lacks the service, at each of the addresses under which it knows the exporting mesh (under
    -- the dashed name of the service there is an entry with its host alone, its ports, and an endpoint at
    -- the address that sends each port's name to the port of the exporting mesh), once a push has been
    -- delivered, its client has handled the response, and its reconcilers have handled the requests
    -- that the handler sent: if the exported services are listed and encoded, the stream takes the
    -- response, no reconciler panics, the runs for service entries are without errors, every imported
    -- host name can be read and the lister answers for it, and no other host name, ports or remote
    -- gives the dashed name, with an API server as documented, whose calls for other kinds leave service
    -- entries alone.
    pub push-IsReachable :
        (remote : Remote) (before : ImportedServiceStore) (s : S) (service : Service) (addr : Text)
        → Memᴰ service services
        → Memᴰ remote cfg.mesh_peers.remotes
        → Memᴰ addr remote.addresses
        → ((url : Text) (r : Reconciler S) (t : S)
            → lookup url (
                manager cluster lib cfg ns lister
                  (update remote.name (map export_service services) before))
              ≡ some r
            → (r.reconcile t).1 ≢ panic)
        → ((t : S)
            → (run_service_entries cluster lib cfg ns lister
                (update remote.name (map export_service services) before)
                t).1
              ≡ done tt)
        → All
            (IsAnswered (
              factory cluster doc visits kinds lib cfg ns lister
                (update remote.name (map export_service services) before)))
            cfg.mesh_peers.remotes
        → IsMissing
            (factory cluster doc visits kinds lib cfg ns lister
              (update remote.name (map export_service services) before))
            (export_service service)
        → IsUnambiguous
            (factory cluster doc visits kinds lib cfg ns lister
              (update remote.name (map export_service services) before))
            (export_service service)
            remote
        → Memᴰ
            (subscriber.stream, push_of env wire)
            (push env (request exported_service_type_url) ads).0.delivered
          × IsReachable cluster doc visits kinds lib all_values only_values cfg ns lister
              (start
                (manager cluster lib cfg ns lister
                  (imported_from c remote (push_of env wire) before).0)
                (imported_from c remote (push_of env wire) before).1
                s).0
              (export_service service)
              remote
              addr
    push-IsReachable remote before s service addr in_services mem at_addr calm succeed answered
          missing unique =
        (
          delivered,
          rw (client_handles remote before) (
              handle-IsReachable cluster doc visits kinds lib all_values only_values cfg ns lister c
                remote wire (map export_service services) before s (export_service service) addr
                decoded calm succeed answered mem (Memᴰ-map export_service in_services) missing
                unique at_addr),
        )
