-- ===== src/Informer/Controller.antt =====
-- internal/pkg/legacy/informer/resource_controller.go: events of an informer go through a work queue
-- to the handlers. `O` is the type of objects, `S` what handlers change. The queue is client-go's: what
-- its `Get` returns is an argument, and its other operations are a record; so is the key function.
pub mod Pushes
pub mod Life
use federation.Common.{
  ℕ, suc, ◌≤◌, ◌<◌, ◌≡◌, ◌≢◌, refl, ap, sym, ◌∙◌, ◌⊎◌, inl, inr, Bool, true, false, Bool-cases,
  Option, none, some, List, [], ◌∷◌, ◌++◌, Text, codes, text_eq, if◌then◌else◌, arith, ltb, Result,
  ok, err, Error,
}
use federation.Common.Outcomes.{Outcome, done, fail, panic}

abbrev pub max_retries : ℕ
max_retries = 5

-- Handler.
pub record Handler (O S : Type 0) : Type 0 where
  pub init : S → S × Option Error
  pub object_created : O → S → S
  pub object_deleted : O → S → S
  pub object_updated : O → O → S → S

-- Event, without its namespace, which is never set; `old_obj` is nil but for updates.
pub record Event (O : Type 0) : Type 0 where
  pub key : Text
  pub event_type : Text
  pub resource_type : Text
  pub obj : O
  pub old_obj : Option O

-- A workqueue.RateLimitingInterface with states `Q`.
pub record WorkQueue (O Q : Type 0) : Type 0 where
  pub add : Event O → Q → Q
  pub done_with : Event O → Q → Q
  pub forget : Event O → Q → Q
  pub num_requeues : Event O → Q → ℕ
  pub add_rate_limited : Event O → Q → Q

-- What an informer reports as deleted: an object, or a cache.DeletedFinalStateUnknown.
pub data Deleted (O : Type 0) : Type 0 where
  object : O → Deleted O
  tombstone : Text → Deleted O

module _ {O Q : Type 0} (queue : WorkQueue O Q) (resource_type : Text) where
  -- `if err == nil { queue.Add(newEvent) }`.
  abbrev pub add_keyed : Result Text → (Text → Event O) → Q → Q
  add_keyed (ok key) event q = queue.add (event key) q
  add_keyed (err e) event q = q

  unfoldable pub add_func : (O → Result Text) → O → Q → Q
  add_func key_func obj q =
      add_keyed (key_func obj)
        (λ key. record {
          key = key;
          event_type = codes "create";
          resource_type = resource_type;
          obj = obj;
          old_obj = none;
        })
        q

  unfoldable pub update_func : (O → Result Text) → O → O → Q → Q
  update_func key_func old new q =
      add_keyed (key_func old)
        (λ key. record {
          key = key;
          event_type = codes "update";
          resource_type = resource_type;
          obj = new;
          old_obj = some old;
        })
        q

  -- The type assertion on the object panics at a tombstone, whatever its key is.
  unfoldable pub delete_func : (Deleted O → Result Text) → Deleted O → Q → Outcome Q
  delete_func key_func (tombstone name) q = panic
  delete_func key_func (object obj) q = done (
      add_keyed (key_func (object obj))
        (λ key. record {
          key = key;
          event_type = codes "delete";
          resource_type = resource_type;
          obj = obj;
          old_obj = none;
        })
        q)

module _ {O S : Type 0} where
  -- A loop over the handlers.
  unfoldable pub each_handler : (Handler O S → S → S) → List (Handler O S) → S → S
  each_handler f [] s = s
  each_handler f (h ∷ hs) s = each_handler f hs (f h s)

  -- An update event has an old object; without it the handler's type assertion would panic.
  abbrev pub updated : Option O → O → Handler O S → S → S
  updated none new h s = s
  updated (some old) new h s = h.object_updated old new s

  -- `processItem`, which returns no error.
  unfoldable pub process_item : List (Handler O S) → Event O → S → S × Option Error
  unfolding each_handler
  process_item handlers event s =
      if text_eq event.event_type (codes "create")
      then (each_handler (λ h. h.object_created event.obj) handlers s, none)
      else if text_eq event.event_type (codes "update")
      then (each_handler (updated event.old_obj event.obj) handlers s, none)
      else if text_eq event.event_type (codes "delete")
      then (each_handler (λ h. h.object_deleted event.obj) handlers s, none)
      else (s, none)

module _ {O Q : Type 0} (queue : WorkQueue O Q) where
  -- What `processNextItem` does with the event, by the error of its processing.
  unfoldable pub settle : Option Error → Event O → Q → Q
  settle none event q = queue.forget event q
  settle (some e) event q =
      if ltb (queue.num_requeues event q) max_retries
      then queue.add_rate_limited event q
      else queue.forget event q

  module _ {S : Type 0} (handlers : List (Handler O S)) where
    -- `processNextItem` for an event that `Get` returned.
    unfoldable pub process_next_item : Event O → S × Q → S × Q
    process_next_item event (s, q) =
        let (s', failed) = process_item handlers event s in
        (s', queue.done_with event (settle failed event q))

    -- `runWorker`, for the events that `Get` returns until the queue is shut down. What a handler sends
    -- is taken as received: after the stop, when nothing receives from the channels, the worker
    -- would wait in the first send.
    unfoldable pub run_worker : List (Event O) → S × Q → S × Q
    run_worker [] c = c
    run_worker (event ∷ rest) c = run_worker rest (process_next_item event c)
