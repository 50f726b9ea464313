-- ===== src/Examples/Pushes.antt =====
-- Examples for what moves the program: events, push requests, subscribers, the manager of reconcilers.
use federation.Common.{
  ℕ, ◌+◌, ◌≡◌, refl, ◌⊎◌, Option, none, some, [], ◌∷◌, codes, text_eq, if◌then◌else◌, ok, err,
  Error, not_found, failure, ◌==◌,
}
use federation.Common.GoMap.{lookup, text_key}
use federation.Common.Outcomes.{done, fail}
use federation.Config.{get_label_selectors}
use federation.Kubernetes.{Service}
use federation.Xds.{
  gateway_type_url, envoy_filter_type_url, route_type_url, exported_service_type_url,
}
use federation.Xds.Server.{
  id_key, Subscriber, AdsServer, Surroundings, push, push_response, resources_of, Response,
  generate_resources,
}
use federation.Xds.Server.Push.{VisitsSubscribers, Reached, push-Reached}
use federation.Informer.{request, object_updated, on_event, ChangesExport, on_event_cases}
use federation.Kube.Api.{name_key}
use federation.Kube.Manager.{Reconciler, ReconcilerManager, new_reconciler_manager}
use federation.Examples.{east, ratings}
use federation.Examples.Server.{matches}
use federation.Examples.Ranges.{in_order, in_order_only, in_order_each}

-- The labels of ratings are taken off.
abbrev pub hidden_ratings : Service
hidden_ratings = record ratings { labels = [] }

on_event_cases_example :
    (ChangesExport matches
        (get_label_selectors east.exported_service_set)
        (object_updated ratings hidden_ratings)
      × (on_event matches east (object_updated ratings hidden_ratings) ≡ record {
        mcp =
            record { type_url = gateway_type_url; resources = none }
            ∷ record { type_url = envoy_filter_type_url; resources = none }
            ∷ record { type_url = route_type_url; resources = none }
            ∷ [];
        fds = record { type_url = exported_service_type_url; resources = none } ∷ [];
      }))
    ⊎ ((¬ ChangesExport matches
          (get_label_selectors east.exported_service_set)
          (object_updated ratings hidden_ratings))
        × (on_event matches east (object_updated ratings hidden_ratings)
            ≡ record { mcp = []; fds = [] }))
on_event_cases_example = on_event_cases matches east (object_updated ratings hidden_ratings)

-- Stream 7 takes what it is sent, every other stream is broken.
abbrev send_seven : ℕ → Response → Option Error
send_seven stream response = if stream == 7 then none else some (failure (codes "broken"))

abbrev pub surroundings : Surroundings
surroundings = record {
  handlers = (exported_service_type_url, ok []) ∷ (route_type_url, err not_found) ∷ [];
  send = send_seven;
  range = in_order;
  version = codes "1";
  pod_name = codes "pod";
}

pub surroundings-Visits : VisitsSubscribers in_order
surroundings-Visits = record {
  only = λ m id sub h. in_order_only m id sub h;
  each = λ m id sub h. in_order_each m id sub h;
}

abbrev broken : Subscriber
broken = record { id = 1; stream = 5 }

abbrev pub healthy : Subscriber
healthy = record { id = 2; stream = 7 }

abbrev pub two_subscribers : AdsServer
two_subscribers = record {
  subscribers = (1, broken) ∷ (2, healthy) ∷ [];
  next_subscriber_id = 2;
  delivered = [];
  closed = [];
}

exports_made : resources_of surroundings (request exported_service_type_url) none ≡ ok []
unfolding generate_resources lookup text_eq
exports_made = refl

pub healthy_there : lookup 2 two_subscribers.subscribers ≡ some healthy
unfolding lookup
healthy_there = refl

push-Reached_example :
    ((push surroundings (request exported_service_type_url) two_subscribers).1 ≡ none)
    × Reached
        (send_seven 7 (push_response surroundings exported_service_type_url []))
        2
        healthy
        (push_response surroundings exported_service_type_url [])
        (push surroundings (request exported_service_type_url) two_subscribers).0
push-Reached_example =
    push-Reached surroundings surroundings-Visits (request exported_service_type_url) []
      two_subscribers 2 healthy exports_made healthy_there

-- A reconciler that counts its runs, and one that fails.
abbrev counts : Reconciler ℕ
counts = record { type_url = route_type_url; reconcile = λ n. (n + 1, done tt) }

abbrev fails : Reconciler ℕ
fails = record { type_url = gateway_type_url; reconcile = λ n. (n, fail not_found) }

abbrev manager : ReconcilerManager ℕ
manager = new_reconciler_manager (counts ∷ fails ∷ [])
