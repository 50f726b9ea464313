-- ===== src/Program/Startup.antt =====
-- The calls of libraries in `runLegacyMode` and `startReconciler` of cmd/federation-controller/main.go,
-- whose errors end the process. What they return are parameters; an exit is `fail`.
use federation.Common.{
  ◌≡◌, refl, Bool-cases, inl, inr, Bool, true, false, Option, none, some, Text, codes, Error, wrap,
  failure, if◌then◌else◌,
}
use federation.Common.Outcomes.{Outcome, done, fail, ◌>>=◌}
use federation.Config.{Federation, is_router}

-- `if err != nil { log.Fatalf(message, err) }`
abbrev pub exit_on : Text → Option Error → Outcome (Unit {0})
exit_on message none = done tt
exit_on message (some e) = fail (wrap message e)

-- What comes before the server and the clients are started, and again before the reconcilers are made.
pub record Startup : Type 0 where
  pub in_cluster_config : Option Error
  pub istio_client : Option Error
  pub service_informer : Option Error
  pub caches_synced : Bool
  pub in_cluster_config_again : Option Error
  pub istio_client_again : Option Error
  pub route_client : Option Error

abbrev pub when_synced : Bool → Outcome (Unit {0})
when_synced true = done tt
when_synced false = fail (failure (codes "timed out waiting for Service controller caches to sync"))

-- The start of `runLegacyMode`, up to the synchronisation of the informer.
unfoldable pub start_informer : Startup → Outcome (Unit {0})
start_informer up = do
  _ ← exit_on (codes "failed to create in-cluster config") up.in_cluster_config
  _ ← exit_on (codes "failed to create Istio client") up.istio_client
  _ ← exit_on (codes "failed to create service informer") up.service_informer
  when_synced up.caches_synced

-- The start of `startReconciler`; a client for routes is only made for a router of this mesh.
unfoldable pub make_clients : Startup → Federation → Outcome (Unit {0})
make_clients up cfg = do
  _ ← exit_on (codes "failed to create in-cluster config") up.in_cluster_config_again
  _ ← exit_on (codes "failed to create Istio client") up.istio_client_again
  if is_router cfg.mesh_peers.local.ingress_type
      then exit_on (codes "failed to create Route client") up.route_client
      else done tt

-- None of these calls ends the process.
pub record Ready (up : Startup) (cfg : Federation) : Type 0 where
  pub in_cluster_config : up.in_cluster_config ≡ none
  pub istio_client : up.istio_client ≡ none
  pub service_informer : up.service_informer ≡ none
  pub caches_synced : up.caches_synced ≡ true
  pub in_cluster_config_again : up.in_cluster_config_again ≡ none
  pub istio_client_again : up.istio_client_again ≡ none
  pub route_client : is_router cfg.mesh_peers.local.ingress_type ≡ true → up.route_client ≡ none

module _ (up : Startup) (cfg : Federation) (ready : Ready up cfg) where
  pub start_informer-of_Ready : start_informer up ≡ done tt
  unfolding start_informer
  start_informer-of_Ready =
      rw (ready.in_cluster_config, ready.istio_client, ready.service_informer, ready.caches_synced)
        refl

  pub make_clients-of_Ready : make_clients up cfg ≡ done tt
  unfolding make_clients
  make_clients-of_Ready = elim (Bool-cases (is_router cfg.mesh_peers.local.ingress_type)) [
    | inl router ↦
        rw
          (
            ready.in_cluster_config_again,
            ready.istio_client_again,
            router,
            ready.route_client router,
          )
          refl
    | inr other ↦ rw (ready.in_cluster_config_again, ready.istio_client_again, other) refl
  ]
