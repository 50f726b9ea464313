-- ===== src/Examples/Queue.antt =====
-- Examples for the work queue of events. The queue here keeps nothing.
use federation.Common.{◌≡◌, refl, true, false, Option, none, some, List, [], ◌∷◌, Text, codes}
use federation.Kubernetes.{Service}
use federation.Informer as Model
use federation.Informer.{Pushes, no_pushes, object_created, object_updated}
use federation.Informer.Controller.{Event, WorkQueue, run_worker}
use federation.Informer.Controller.Pushes.{
  queued, service_export_event_handler, queue_all, add_pushes, pushes_of, run_worker-on_event,
}
use federation.Informer.Controller.Life.{
  Controller, Moment, Life, syncing, returned, run, step_at, init_handlers, events_got, at_work,
  run_goes_on,
}
use federation.Examples.{east, ratings}
use federation.Examples.Server.{matches}
use federation.Examples.Pushes.{hidden_ratings}

-- A queue of services that keeps nothing.
abbrev no_queue : WorkQueue Service (Unit {0})
no_queue = record {
  add = λ e q. q;
  done_with = λ e q. q;
  forget = λ e q. q;
  num_requeues = λ e q. 0;
  add_rate_limited = λ e q. q;
}

abbrev events : List (Text × Model.Event)
events =
    (codes "bookinfo/ratings", object_created ratings)
    ∷ (codes "bookinfo/ratings", object_updated ratings hidden_ratings)
    ∷ []

run_worker-on_event_example :
    (run_worker no_queue
      (service_export_event_handler matches east ∷ [])
      (queue_all (codes "service") events)
      (no_pushes, tt)).0
    ≡ add_pushes no_pushes (pushes_of matches east events)
run_worker-on_event_example =
    run_worker-on_event matches east no_queue (codes "service") events no_pushes tt

abbrev services : Controller Service Pushes
services = record {
  resource_type = codes "Service";
  event_handlers = service_export_event_handler matches east ∷ [];
}

abbrev at : Option (Event Service) → Moment Service
at got = record { wait_for_cache_sync = none; stop_closed = true; got = got }

-- The channel is closed, and two services come.
abbrev after_stop : List (Moment Service)
after_stop =
    at none
    ∷ at (some (queued (codes "Service") (codes "bookinfo/ratings") (object_created ratings)))
    ∷ at none
    ∷ at (some (queued (codes "Service") (codes "x/y") (object_created hidden_ratings)))
    ∷ []

run_goes_on_example :
    run no_queue services after_stop (at_work (no_pushes, tt))
    ≡ at_work (run_worker no_queue services.event_handlers (events_got after_stop) (no_pushes, tt))
run_goes_on_example = run_goes_on no_queue services after_stop (no_pushes, tt)

-- The caches are filled, the handlers made ready, and the worker called; or the channel is closed just
-- before that.
starting : Life Pushes (Unit {0})
starting = record { stage = syncing; queue_shut_down = false; state = no_pushes; queue = tt }

start_test :
    run no_queue services
      (record (at none) { wait_for_cache_sync = some true }
        ∷ record (at none) { stop_closed = false }
        ∷ [])
      starting
    ≡ at_work (no_pushes, tt)
unfolding run step_at init_handlers service_export_event_handler starting
start_test = refl

early_stop_test :
    (run no_queue services
      (record (at none) { wait_for_cache_sync = some true } ∷ at none ∷ [])
      starting).stage
    ≡ returned
unfolding run step_at init_handlers starting
early_stop_test = refl
