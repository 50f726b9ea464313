-- ===== src/Examples/Program.antt =====
-- Examples for the entry point of the program.
use federation.Common.{
  ℕ, ◌*◌, ◌^◌, ◌+◌, ◌≡◌, ◌≢◌, refl, ◌⊎◌, true, false, none, some, List, [], ◌∷◌, ◌++◌, map, Text,
  codes, ok, not_found, text_eq,
}
use mathlib.Core.List.{Perm}
use federation.Common.Order.{sort_texts, text_le}
use federation.Common.Outcomes.{done}
use federation.Common.GoMap.{lookup, text_key}
use federation.Config.{Remote}
use federation.Networking.{Network, resolve, looked_up}
use federation.Xds.{route_type_url}
use federation.Kube.Api.{Api, name_key}
use federation.Kube.Manager.{Reconciler, ReconcilerManager, new_reconciler_manager}
use federation.Program.Resolution.{
  Resolver, ResolvesTo, no_remotes, and_remote, resolve_remotes, texts_equal, resolve_ips,
  resolve_remote_ip, workload_entry_request, resolve_ips_pushes_iff, first_tick,
}
use federation.Program.Reconcilers.{Cluster, Sources, reconcilers}
use federation.Program.Reconcilers.Served.{is_some, is_one_of, needed_types, served-eq-needed}
use federation.Program.Startup.{Startup}
use federation.Xds.Client.Dial.{Grpc}
use federation.Examples.{west, east, library, lister, istio_factory}
use federation.Examples.Ranges.{in_order}
use federation.Examples.Kube.{never_equal}

-- A remote behind a name, and what the name stands for.
abbrev named : Remote
named = record west { addresses = codes "gw" ∷ [] }

abbrev network_of : List Text → Network
network_of ips = record { is_ip = λ a. false; lookup_ip = λ a. ok ips }

abbrev one_two : List Text
one_two = codes "1" ∷ codes "2" ∷ []

abbrev two_one : List Text
two_one = codes "2" ∷ codes "1" ∷ []

resolves : (ips : List Text) → ResolvesTo (network_of ips) (named ∷ []) (ips ++ [])
resolves ips =
    and_remote named (codes "gw") [] [] ips [] refl (looked_up (codes "gw") ips refl refl)
      no_remotes

abbrev kept : Resolver
kept = record { prev_ips = one_two; pushed = [] }

kept_stays : resolve_ips (named ∷ []) (network_of two_one) kept ≡ done kept
unfolding resolve_ips resolve_remotes resolve sort_texts texts_equal text_le text_eq
kept_stays = refl

resolve_ips_pushes_iff_example :
    (u : Resolver) × (resolve_ips (named ∷ []) (network_of one_two) kept ≡ done u)
    × ((Perm two_one one_two × (u.pushed ≡ []))
        ⊎ ((¬ Perm two_one one_two) × (u.pushed ≡ [] ++ workload_entry_request ∷ [])))
resolve_ips_pushes_iff_example =
    resolve_ips_pushes_iff (named ∷ []) (network_of two_one) (network_of one_two) two_one one_two
      kept kept (resolves two_one) (resolves one_two) kept_stays

first_tick_example :
    (u : Resolver) × (resolve_remote_ip (named ∷ []) (network_of two_one) (network_of two_one ∷ [])
      ≡ done u)
    × (((two_one ≡ sort_texts two_one) × (u.pushed ≡ []))
        ⊎ ((two_one ≢ sort_texts two_one) × (u.pushed ≡ workload_entry_request ∷ [])))
first_tick_example = first_tick (named ∷ []) (network_of two_one) two_one (resolves two_one)

-- A server that counts what is applied, and never has anything to list.
abbrev pub counting : {Spec : Type 0} → Api ℕ Spec
counting = record {
  list = λ selector n. ok [];
  apply = λ o n. (n + 1, none);
  delete = λ k n. (n, some not_found);
  deep_equal = never_equal;
}

abbrev pub cluster : Cluster ℕ
cluster = record {
  gateways = counting;
  service_entries = counting;
  workload_entries = counting;
  peer_authentications = counting;
  destination_rules = counting;
  envoy_filters = counting;
  routes = counting;
  range_service_entries = in_order;
  range_workload_entries = in_order;
  range_destination_rules = in_order;
  range_envoy_filters = in_order;
  range_routes = in_order;
}

abbrev sources : Sources
sources = record { lister = lister; store = istio_factory.imported_service_store }

served-eq-needed_example :
    is_some (
      lookup route_type_url
        (new_reconciler_manager (reconcilers cluster library east (codes "istio-system") sources)))
    ≡ is_one_of (needed_types east) route_type_url
served-eq-needed_example =
    served-eq-needed cluster library east (codes "istio-system") sources route_type_url

abbrev pub in_list_order : ReconcilerManager ℕ → List (Reconciler ℕ)
in_list_order rm = map (λ (e : Text × Reconciler ℕ). e.1) rm

-- Clients are made for every address.
abbrev pub grpc : Grpc
grpc = record {
  default_config = record {
    base_delay = 10 ^ 9;
    multiplier = 2;
    jitter = 0;
    max_delay = 120 * 10 ^ 9;
  };
  new_client = λ addr options. ok tt;
}

-- No call fails.
abbrev pub startup : Startup
startup = record {
  in_cluster_config = none;
  istio_client = none;
  service_informer = none;
  caches_synced = true;
  in_cluster_config_again = none;
  istio_client_again = none;
  route_client = none;
}
