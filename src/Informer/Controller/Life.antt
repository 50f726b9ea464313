-- ===== src/Informer/Controller/Life.antt =====
-- internal/pkg/legacy/informer/resource_controller.go: `NewResourceController`, `RunAndWait`, `Run` and
-- `HasSynced`. The informer, `cache.WaitForCacheSync` and `wait.Until` are libraries': what the former
-- two answer is an argument, and the latter, as documented, calls the worker again whenever it returns,
-- until the channel is closed, at which it looks between the calls.
use federation.Common.{
  ◌≡◌, refl, Bool, true, false, ◌&&◌, Option, none, some, List, [], ◌∷◌, Text, codes, Result, ok,
  err, Error, failure, if◌then◌else◌,
}
use federation.Common.Outcomes.{Outcome, done, fail}
use federation.Informer.Controller.{Handler, Event, WorkQueue, process_next_item, run_worker}

-- Controller, but for the informer and the queue.
pub record Controller (O S : Type 0) : Type 0 where
  pub resource_type : Text
  pub event_handlers : List (Handler O S)

-- `NewResourceController`, by the error of registering the three functions with the informer.
unfoldable pub new_resource_controller :
    {O S : Type 0} → Option Error → Text → List (Handler O S) → Result (Controller O S)
new_resource_controller (some e) resource_type handlers = err e
new_resource_controller none resource_type handlers =
    ok (record { resource_type = resource_type; event_handlers = handlers })

-- `HasSynced`, of the informer and of the registration.
unfoldable pub has_synced : Bool → Bool → Bool
has_synced informer registration = informer && registration

-- `RunAndWait` after it has started `Run`, by what `WaitForCacheSync` returns: the process ends if the
-- caches were not filled before the channel was closed.
unfoldable pub run_and_wait : Bool → Outcome (Unit {0})
run_and_wait true = done tt
run_and_wait false = fail (failure (codes "timed out waiting for controller caches to sync"))

-- Where `Run` stands: it waits for the caches, is at the head of the loop of `wait.Until`, is in the
-- worker, has returned, or has ended the process.
pub data Stage : Type 0 where
  syncing : Stage
  between : Stage
  working : Stage
  returned : Stage
  exited : Stage

-- What a step finds: the answer of `WaitForCacheSync` if there is one by now, whether the channel is
-- closed, and the event that `Get` has, if there is one by now.
pub record Moment (O : Type 0) : Type 0 where
  pub wait_for_cache_sync : Option Bool
  pub stop_closed : Bool
  pub got : Option (Event O)

pub record Life (S Q : Type 0) : Type 0 where
  pub stage : Stage
  pub queue_shut_down : Bool
  pub state : S
  pub queue : Q

-- An error of `Init` is logged.
unfoldable pub init_handlers : {O S : Type 0} → List (Handler O S) → S → S
init_handlers [] s = s
init_handlers (h ∷ hs) s = init_handlers hs (h.init s).0

abbrev taken : {O : Type 0} → Option (Event O) → List (Event O) → List (Event O)
taken none rest = rest
taken (some event) rest = event ∷ rest

-- The events that the moments bring.
unfoldable pub events_got : {O : Type 0} → List (Moment O) → List (Event O)
events_got [] = []
events_got (m ∷ ms) = taken m.got (events_got ms)

-- The worker is being called and the queue takes events.
abbrev pub at_work : {S Q : Type 0} → S × Q → Life S Q
at_work (s, q) = record { stage = working; queue_shut_down = false; state = s; queue = q }

module _ {O S Q : Type 0} (queue : WorkQueue O Q) (c : Controller O S) where
  abbrev pub synced : Option Bool → Life S Q → Life S Q
  synced none l = l
  synced (some false) l = record l { stage = exited }
  synced (some true) l = record l {
    stage = between;
    state = init_handlers c.event_handlers l.state;
  }

  -- When it returns: `defer c.queue.ShutDown()`.
  abbrev pub until : Bool → Life S Q → Life S Q
  until false l = record l { stage = working }
  until true l = record l { stage = returned; queue_shut_down = true }

  abbrev pub with_both : Life S Q → S × Q → Life S Q
  with_both l (s, q) = record l { state = s; queue = q }

  -- In the worker: `Get` waits for an event, or says that the queue is shut down.
  abbrev pub work : Option (Event O) → Life S Q → Life S Q
  work (some event) l =
      with_both l (process_next_item queue c.event_handlers event (l.state, l.queue))
  work none l = if l.queue_shut_down then record l { stage = between } else l

  unfoldable pub step_at : Stage → Moment O → Life S Q → Life S Q
  step_at syncing m l = synced m.wait_for_cache_sync l
  step_at between m l = until m.stop_closed l
  step_at working m l = work m.got l
  step_at returned m l = l
  step_at exited m l = l

  -- `Run`.
  unfoldable pub run : List (Moment O) → Life S Q → Life S Q
  run [] l = l
  run (m ∷ ms) l = run ms (step_at l.stage m l)

  work_goes_on :
      (got : Option (Event O)) (ms : List (Moment O)) (s : S) (q : Q)
      → ((c' : S × Q)
          → run ms (at_work c') ≡ at_work (run_worker queue c.event_handlers (events_got ms) c'))
      → run ms (work got (at_work (s, q)))
        ≡ at_work (run_worker queue c.event_handlers (taken got (events_got ms)) (s, q))
  unfolding run_worker
  work_goes_on none ms s q h = h (s, q)
  work_goes_on (some event) ms s q h = h (process_next_item queue c.event_handlers event (s, q))

  -- Once the worker is called, it goes on to handle the events that arrive, in order, whether the
  -- channel is closed or not: `Run` does not return, and so does not shut the queue down.
  pub run_goes_on :
      (ms : List (Moment O)) (both : S × Q)
      → run ms (at_work both) ≡ at_work (run_worker queue c.event_handlers (events_got ms) both)
  unfolding run run_worker step_at events_got
  run_goes_on [] (s, q) = refl
  run_goes_on (m ∷ ms) (s, q) = work_goes_on m.got ms s q (run_goes_on ms)
