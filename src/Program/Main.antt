-- ===== src/Program/Main.antt =====
-- cmd/federation-controller/main.go: `parseFlags`, `main`, `runCtrls`, and what `runLegacyMode` and
-- `startReconciler` make with libraries. Calls of libraries are parameters: what they return. An exit of
-- the process, by log.Fatalf or os.Exit, is `fail`.
use federation.Common.{Bool, true, false, Option, none, some, List, [], Text, codes, Result, Error}
use federation.Common.Outcomes.{Outcome, done, fail, panic, ◌>>=◌, lift, in_context}
use federation.Config.{Federation}
use federation.Config.Parse.{Decoder, parse_args}
use federation.Kubernetes.{ServiceLister}
use federation.Xds.Client.Dial.{Grpc}
use federation.Fds.{Codec}
use federation.Istio.{Library}
use federation.Kube.Manager.{Reconciler, ReconcilerManager}
use federation.Program.Reconcilers.{Cluster}
use federation.Program.Startup.{Startup, exit_on}
use federation.Program.Clients.{Running, run_legacy_mode}

-- The variables that the command line sets, but for those of the log.
pub record Flags : Type 0 where
  pub mesh_peers : Text
  pub exported_service_set : Text
  pub imported_service_set : Text
  pub metrics_addr : Text
  pub probe_addr : Text
  pub enable_leader_election : Bool
  pub use_ctrls : Bool

-- What the command line gives for the name of a flag.
pub record CommandLine : Type 0 where
  pub text_flag : Text → Option Text
  pub bool_flag : Text → Option Bool

abbrev or_default {ℓ} : {A : Type ℓ} → Option A → A → A
or_default none default = default
or_default (some given) default = given

-- `parseFlags`.
unfoldable pub parse_flags : CommandLine → Flags
parse_flags line = record {
  mesh_peers = or_default (line.text_flag (codes "meshPeers")) [];
  exported_service_set = or_default (line.text_flag (codes "exportedServiceSet")) [];
  imported_service_set = or_default (line.text_flag (codes "importedServiceSet")) [];
  metrics_addr = or_default (line.text_flag (codes "metrics-bind-address")) (codes ":8080");
  probe_addr = or_default (line.text_flag (codes "health-probe-bind-address")) (codes ":8081");
  enable_leader_election = or_default (line.bool_flag (codes "leader-elect")) false;
  use_ctrls = or_default (line.bool_flag (codes "use-ctrls")) false;
}

-- ctrl.Options, as far as they are set.
pub record ManagerOptions : Type 0 where
  pub metrics_bind_address : Text
  pub health_probe_bind_address : Text
  pub leader_election : Bool
  pub leader_election_id : Text

-- The calls of `runCtrls` that can fail; `C` and `M` are configurations of clients and managers.
pub record ControllerRuntime (C M : Type 0) : Type 0 where
  pub get_config : Result C
  pub new_manager : C → ManagerOptions → Result M
  pub setup_mesh_federation : M → Option Error
  pub setup_federated_service : M → Option Error
  pub add_healthz_check : M → Option Error
  pub add_readyz_check : M → Option Error

abbrev pub manager_options : Flags → ManagerOptions
manager_options flags = record {
  metrics_bind_address = flags.metrics_addr;
  health_probe_bind_address = flags.probe_addr;
  leader_election = flags.enable_leader_election;
  leader_election_id = codes "80807133.federation.openshift-service-mesh.io";
}

-- `runCtrls`, up to the start of the manager.
unfoldable pub run_ctrls : {C M : Type 0} → ControllerRuntime C M → Flags → Outcome M
run_ctrls rt flags = do
  config ← lift rt.get_config
  mgr ←
      in_context (codes "unable to start manager")
        (lift (rt.new_manager config (manager_options flags)))
  _ ← exit_on (codes "unable to create MeshFederation controller") (rt.setup_mesh_federation mgr)
  _ ←
      exit_on (codes "unable to create FederatedService controller")
        (rt.setup_federated_service mgr)
  _ ← exit_on (codes "unable to set up health check") (rt.add_healthz_check mgr)
  _ ← exit_on (codes "unable to set up ready check") (rt.add_readyz_check mgr)
  done mgr

-- The goroutine of the manager, by what its `Start` returns: whether the context is cancelled.
unfoldable pub start_manager : Option Error → Bool → Bool
start_manager none cancelled = cancelled
start_manager (some e) cancelled = true

-- `if useCtrls`: the manager that is started.
unfoldable pub run_ctrls_if :
    {C M : Type 0} → Bool → ControllerRuntime C M → Flags → Outcome (Option M)
run_ctrls_if true rt flags = do mgr ← run_ctrls rt flags; done (some mgr)
run_ctrls_if false rt flags = done none

-- What the program meets when it starts.
pub record World (S C M : Type 0) : Type 0 where
  pub configure_log : Option Error
  pub decoder : Decoder
  pub controller_runtime : ControllerRuntime C M
  -- The manager runs beside the legacy mode, and its failed start cancels the context that the waits
  -- of the legacy mode share: what they return may depend on it.
  pub startup : Option M → Startup
  pub cluster : Cluster S
  pub library : Library
  pub codec : Codec
  pub grpc : Grpc
  pub pod_namespace : Option Text
  pub namespace_secret : Result Text
  pub order : ReconcilerManager S → List (Reconciler S)
  pub lister : ServiceLister

module _ {S C M : Type 0} (w : World S C M) where
  -- The configuration, and the manager of the controllers, if there is one.
  abbrev pub prepare : Flags → Outcome (Federation × Option M)
  prepare flags = do
    _ ← exit_on (codes "failed to configure logging options") w.configure_log
    cfg ← in_context (codes "failed to parse configuration passed to the program arguments") (
        lift (
          parse_args w.decoder flags.mesh_peers flags.exported_service_set
            flags.imported_service_set))
    mgr ← run_ctrls_if flags.use_ctrls w.controller_runtime flags
    done (cfg, mgr)

  abbrev beside : Option M → S × Outcome Running → S × Outcome (Option M × Running)
  beside mgr (s, o) = (s, do running ← o; done (mgr, running))

  abbrev prepared : Outcome (Federation × Option M) → S → S × Outcome (Option M × Running)
  prepared (fail e) s = (s, fail e)
  prepared panic s = (s, panic)
  prepared (done (cfg, mgr)) s = beside mgr (
      run_legacy_mode w.cluster w.library w.codec w.grpc (w.startup mgr) w.pod_namespace
        w.namespace_secret w.order w.lister cfg s)

  -- `main`, until it waits for the end of the context: the manager of the controllers, if there is
  -- one, and what runs of the legacy mode.
  unfoldable pub main : Flags → S → S × Outcome (Option M × Running)
  main flags s = prepared (prepare flags) s
