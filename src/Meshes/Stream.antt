-- ===== src/Meshes/Stream.antt =====
-- What a mesh has imported after any history of its connection to a remote: the client with the
-- import handler, as the entry point joins them.
use federation.Common.{◌≡◌, refl, ◌∙◌, List, [], ◌∷◌, ◌++◌, concat_map, ok, text_eq_refl}
use federation.Common.GoMap.{lookup, text_key}
use federation.Config.{Remote}
use federation.Xds.{Any, PushRequest, exported_service_type_url}
use federation.Xds.Client.{
  ResponseHandler, AdscConfig, Message, Connection, Client, on_message, handle_recv,
  handle_recv-append, restart, messages_of, restart-handle_recv,
}
use federation.Fds.{FederatedService, Codec}
use federation.Fds.Store.{ImportedServiceStore, from, from-update}
use federation.Fds.Import.{decode_all, handle}

-- The store, and what was sent on the channel of push requests.
abbrev pub Imports : Type 0
Imports = ImportedServiceStore × List PushRequest

-- ImportedServiceHandler.
unfoldable pub imported_service_handler : Codec → ResponseHandler Imports
imported_service_handler c source resources (store, pushed) =
    let h = handle c source resources store in ((h.store, pushed ++ h.pushed), h.error)

-- The client of a remote, in `startFDSClient`.
unfoldable pub client_config : Codec → Remote → AdscConfig Imports
client_config c remote = record {
  remote_name = remote.name;
  handlers = (exported_service_type_url, imported_service_handler c) ∷ [];
}

on_exported :
    (c : Codec) (remote : Remote) (wire : List Any) (ss : List FederatedService) (s : Imports)
    → decode_all c wire ≡ ok ss
    → from (on_message (client_config c remote) (exported_service_type_url, wire) s).0 remote ≡ ss
unfolding on_message client_config lookup imported_service_handler handle
on_exported c remote wire ss (store, pushed) decoded =
    rw (text_eq_refl exported_service_type_url)
      (rw decoded (from-update store remote.name ss remote ∙ rw (text_eq_refl remote.name) refl))

-- Over any sequence of connections, refused, broken or not, if the last message received is a
-- response for exported services whose resources decode, then exactly these services are read for
-- the remote.
pub restart-from :
    (c : Codec) (remote : Remote) (connections : List Connection) (client : Client Imports)
    (earlier : List Message) (wire : List Any) (ss : List FederatedService)
    → concat_map messages_of connections ≡ earlier ++ (exported_service_type_url, wire) ∷ []
    → decode_all c wire ≡ ok ss
    → from (restart (client_config c remote) connections client).state.0 remote ≡ ss
unfolding handle_recv
restart-from c remote connections client earlier wire ss received decoded =
    let cfg = client_config c remote in
    rw (restart-handle_recv cfg connections client) (
      rw received (
        rw (handle_recv-append cfg earlier ((exported_service_type_url, wire) ∷ []) client.state)
          (on_exported c remote wire ss (handle_recv cfg earlier client.state) decoded)))
