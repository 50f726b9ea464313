-- ===== src/Informer/Controller/Pushes.antt =====
-- The handler of service events behind the queue.
use mathlib.Core.List.{append_assoc, append-nil}
use federation.Common.{
  ◌≡◌, refl, ap, ap₂, sym, ◌∙◌, Option, none, some, List, [], ◌∷◌, ◌++◌, Text, codes, concat_map,
  text_eq, Error,
}
use federation.Config.{Federation}
use federation.Kubernetes.{Service}
use federation.Informer as Model
use federation.Informer.{
  Matcher, Pushes, no_pushes, object_created, object_deleted, object_updated, on_event,
}
use federation.Informer.Controller.{
  Event, Handler, WorkQueue, process_item, process_next_item, run_worker, settle, each_handler,
}

abbrev pub add_pushes : Pushes → Pushes → Pushes
add_pushes p q = record { mcp = p.mcp ++ q.mcp; fds = p.fds ++ q.fds }

-- ServiceExportEventHandler, with what it has sent so far as its state.
unfoldable pub service_export_event_handler : Matcher → Federation → Handler Service Pushes
service_export_event_handler matches cfg = record {
  init = λ p. (p, none);
  object_created = λ svc p. add_pushes p (on_event matches cfg (object_created svc));
  object_deleted = λ svc p. add_pushes p (on_event matches cfg (object_deleted svc));
  object_updated = λ old new p. add_pushes p (on_event matches cfg (object_updated old new));
}

-- The queued event for what the informer reported.
abbrev pub queued : Text → Text → Model.Event → Event Service
queued resource_type key (object_created svc) = record {
  key = key;
  event_type = codes "create";
  resource_type = resource_type;
  obj = svc;
  old_obj = none;
}
queued resource_type key (object_deleted svc) = record {
  key = key;
  event_type = codes "delete";
  resource_type = resource_type;
  obj = svc;
  old_obj = none;
}
queued resource_type key (object_updated old new) = record {
  key = key;
  event_type = codes "update";
  resource_type = resource_type;
  obj = new;
  old_obj = some old;
}

abbrev pub queue_all : Text → List (Text × Model.Event) → List (Event Service)
queue_all resource_type [] = []
queue_all resource_type ((key, event) ∷ rest) =
    queued resource_type key event ∷ queue_all resource_type rest

module _ (matches : Matcher) (cfg : Federation) where
  one_event :
      (resource_type key : Text) (event : Model.Event) (p : Pushes)
      → process_item
          (service_export_event_handler matches cfg ∷ [])
          (queued resource_type key event)
          p
        ≡ (add_pushes p (on_event matches cfg event), none)
  unfolding process_item each_handler service_export_event_handler text_eq
  one_event resource_type key (object_created svc) p = refl
  one_event resource_type key (object_deleted svc) p = refl
  one_event resource_type key (object_updated old new) p = refl

  next_event :
      {Q : Type 0} (queue : WorkQueue Service Q) (resource_type key : Text) (event : Model.Event)
      (p : Pushes) (q : Q)
      → process_next_item queue
          (service_export_event_handler matches cfg ∷ [])
          (queued resource_type key event)
          (p, q)
        ≡ (
          add_pushes p (on_event matches cfg event),
          queue.done_with
              (queued resource_type key event)
              (settle queue none (queued resource_type key event) q),
        )
  unfolding process_next_item
  next_event queue resource_type key event p q =
      ap
        (λ (r : Pushes × Option Error). (
          r.0,
          queue.done_with (queued resource_type key event)
              (settle queue r.1 (queued resource_type key event) q),
        ))
        (one_event resource_type key event p)

  -- The pushes of the events, one after another.
  abbrev pub pushes_of : List (Text × Model.Event) → Pushes
  pushes_of events = record {
    mcp = concat_map (λ (e : Text × Model.Event). (on_event matches cfg e.1).mcp) events;
    fds = concat_map (λ (e : Text × Model.Event). (on_event matches cfg e.1).fds) events;
  }

  -- Whatever the queue does, the worker sends for each event that it takes, in order and once, the
  -- pushes of that event, and nothing else.
  pub run_worker-on_event :
      {Q : Type 0} (queue : WorkQueue Service Q) (resource_type : Text)
      (events : List (Text × Model.Event)) (p : Pushes) (q : Q)
      → (run_worker queue
          (service_export_event_handler matches cfg ∷ [])
          (queue_all resource_type events)
          (p, q)).0
        ≡ add_pushes p (pushes_of events)
  unfolding run_worker concat_map
  run_worker-on_event {Q} queue resource_type [] p q =
      ap₂ (λ m f. record { mcp = m; fds = f }) (sym (append-nil p.mcp)) (sym (append-nil p.fds))
  run_worker-on_event {Q} queue resource_type ((key, event) ∷ rest) p q =
      ap
        (λ (c : Pushes × Q).
          (run_worker queue (service_export_event_handler matches cfg ∷ [])
            (queue_all resource_type rest) c).0)
        (next_event queue resource_type key event p q)
      ∙ run_worker-on_event queue resource_type rest (add_pushes p (on_event matches cfg event)) _
      ∙ ap₂ (λ m f. record { mcp = m; fds = f }) (simp append_assoc) (simp append_assoc)
