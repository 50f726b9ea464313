-- ===== src/Examples/Streams.antt =====
-- Examples for the two ends of a discovery stream.
use federation.Common.{
  ◌++◌, ok, text_eq, ℕ, ◌≡◌, refl, ◌+◌, none, some, List, [], ◌∷◌, codes, concat_map, failure,
  not_found,
}
use federation.Common.GoMap.{lookup}
use federation.Xds.{exported_service_type_url}
use federation.Xds.Server.{id_key}
use federation.Xds.Client.{
  AdscConfig, Connection, refused, opened, Client, handle_recv, request_all, on_message, restart,
  messages_of,
}
use federation.Kubernetes.{cluster_local}
use federation.Fds.Export.{export_service}
use federation.Fds.Store.{from}
use federation.Fds.Import.{decode_all}
use federation.Meshes.Stream.{client_config, restart-from}
use federation.Examples.{codec, west, bare, istio_factory}
use federation.Examples.Fds.{sent}

-- A client that counts the responses for exported services.
abbrev pub counting : AdscConfig ℕ
counting = record {
  remote_name = codes "west";
  handlers = (exported_service_type_url, λ source resources n. (n + 1, none)) ∷ [];
}

-- Refused, then two responses until it breaks, then one more, and one that nobody handles.
abbrev connections : List Connection
connections =
    refused not_found
    ∷ opened (λ t. none) ((exported_service_type_url, []) ∷ (exported_service_type_url, []) ∷ [])
    ∷ opened (λ t. some (failure (codes "broken")))
        ((exported_service_type_url, []) ∷ (codes "x", []) ∷ [])
    ∷ []

abbrev pub started : Client ℕ
started = record { requested = []; state = 0 }

restart_test :
    restart counting connections started
    ≡ record { requested = exported_service_type_url ∷ []; state = 3 }
unfolding restart request_all handle_recv on_message lookup text_eq
restart_test = refl

-- West's connection is refused, then breaks after a response and one that nobody handles, and the next
-- one brings the response that lasts.
abbrev west_connections : List Connection
west_connections =
    refused not_found
    ∷ opened (λ t. none) ((exported_service_type_url, []) ∷ (codes "x", []) ∷ [])
    ∷ opened (λ t. none) ((exported_service_type_url, sent) ∷ [])
    ∷ []

west_received :
    concat_map messages_of west_connections
    ≡ ((exported_service_type_url, []) ∷ (codes "x", []) ∷ [])
      ++ (exported_service_type_url, sent) ∷ []
unfolding concat_map
west_received = refl

pub sent_decodes : decode_all codec sent ≡ ok (export_service bare ∷ [])
unfolding decode_all export_service cluster_local
sent_decodes = refl

restart-from_example :
    from
      (restart
        (client_config codec west)
        west_connections
        (record { requested = []; state = (istio_factory.imported_service_store, []) })).state.0
      west
    ≡ export_service bare ∷ []
restart-from_example =
    restart-from codec west west_connections
      (record { requested = []; state = (istio_factory.imported_service_store, []) })
      ((exported_service_type_url, []) ∷ (codes "x", []) ∷ []) sent (export_service bare ∷ [])
      west_received sent_decodes
