-- ===== src/Examples/Start.antt =====
-- Examples for the start of the program, in the mesh east with its peer west.
use federation.Common.{
  ℕ, Option, ◌≡◌, refl, true, false, none, some, [], ◌∷◌, Text, codes, ok, err, not_found, text_eq,
  wrap, failure, not, if◌then◌else◌,
}
use federation.Common.Outcomes.{Outcome, done, fail, ◌>>=◌}
use federation.Config.{Federation}
use federation.Config.Parse.{parse_args}
use federation.Fds.Store.{new_imported_service_store}
use federation.Program.Reconcilers.{start_reconciler}
use federation.Program.Clients.{
  Running, run_legacy_mode, running_with, client_of, start_fds_clients, start_fds_client, client_at,
  make_client,
}
use federation.Program.Main.{
  Flags, CommandLine, parse_flags, ControllerRuntime, run_ctrls, run_ctrls_if, World, main,
  start_manager,
}
use federation.Xds.Client.Dial.{new, dial}
use federation.Examples.{west, east, codec, library, lister}
use federation.Examples.Config.{decoder}
use federation.Program.Startup.{start_informer, make_clients}
use federation.Examples.Program.{startup, cluster, in_list_order, grpc}

-- The controllers, and no rules for imports.
abbrev command_line : CommandLine
command_line = record {
  text_flag = λ name. if text_eq name (codes "importedServiceSet") then none else some (codes "{}");
  bool_flag = λ name. if text_eq name (codes "use-ctrls") then some true else none;
}

-- A manager is the identifier of its election.
abbrev controller_runtime : ControllerRuntime (Unit {0}) Text
controller_runtime = record {
  get_config = ok tt;
  new_manager = λ c options. ok options.leader_election_id;
  setup_mesh_federation = λ m. none;
  setup_federated_service = λ m. none;
  add_healthz_check = λ m. none;
  add_readyz_check = λ m. none;
}

abbrev world : World ℕ (Unit {0}) Text
world = record {
  configure_log = none;
  decoder = decoder;
  controller_runtime = controller_runtime;
  startup = λ mgr. startup;
  cluster = cluster;
  library = library;
  codec = codec;
  grpc = grpc;
  pod_namespace = some (codes "istio-system");
  namespace_secret = err not_found;
  order = in_list_order;
  lister = lister;
}

abbrev flags : Flags
flags = record {
  mesh_peers = codes "{}";
  exported_service_set = codes "{}";
  imported_service_set = [];
  metrics_addr = codes "{}";
  probe_addr = codes "{}";
  enable_leader_election = false;
  use_ctrls = true;
}

parse_flags_test : parse_flags command_line ≡ flags
unfolding parse_flags text_eq
parse_flags_test = refl

-- The first run of the reconcilers.
abbrev first : Federation × (ℕ × Outcome (Unit {0}))
first =
    start_reconciler cluster library (some (codes "istio-system")) (err not_found) in_list_order
      east (record { lister = lister; store = new_imported_service_store }) 0

-- What is left beside a manager after that run, unless it ends the process.
abbrev ends_with : Option Text → ℕ × Outcome (Option Text × Running)
ends_with mgr = (
  first.1.0,
  do
    running ← (do
      _ ← first.1.1
      done (
          running_with codec east (client_of library.network codec west (codes "10.0.0.1") ∷ [])
            first.0))
    done (mgr, running),
)

-- The flag for the controllers adds their manager; the legacy mode runs with it too.
with_ctrls_test :
    main world flags 0 ≡ ends_with (some (codes "80807133.federation.openshift-service-mesh.io"))
unfolding main run_ctrls_if run_ctrls start_informer make_clients run_legacy_mode start_fds_clients
    start_fds_client client_at make_client new dial parse_args text_eq
with_ctrls_test = refl

without_ctrls_test : main world (record flags { use_ctrls = false }) 0 ≡ ends_with none
unfolding main run_ctrls_if start_informer make_clients run_legacy_mode start_fds_clients
    start_fds_client client_at make_client new dial parse_args text_eq
without_ctrls_test = refl

-- A manager that fails to start cancels the context before the caches are there.
cancelled_test :
    main
      (record world {
        startup = λ mgr. elim mgr [
          | none ↦ startup
          | some m ↦ record startup { caches_synced = not (start_manager (some not_found) false) }
        ];
      })
      flags
      0
    ≡ (0, fail (failure (codes "timed out waiting for Service controller caches to sync")))
unfolding main run_ctrls_if run_ctrls start_informer run_legacy_mode start_manager parse_args
    text_eq
cancelled_test = refl

-- Without a client for routes the mesh, which is behind a router, does not start.
no_routes_test :
    main
      (record world { startup = λ mgr. record startup { route_client = some not_found } })
      (record flags { use_ctrls = false })
      0
    ≡ (0, fail (wrap (codes "failed to create Route client") not_found))
unfolding main run_ctrls_if start_informer make_clients run_legacy_mode start_fds_clients
    start_fds_client client_at make_client new dial parse_args text_eq
no_routes_test = refl
