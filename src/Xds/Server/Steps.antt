-- ===== src/Xds/Server/Steps.antt =====
-- The discovery server under any interleaving of its goroutines: connections, requests on their
-- streams, pushes, and the end. The map of subscribers and the counter are concurrent ones. A push, or
-- the end, is one step if nothing comes between its rounds, and else one step for each subscriber that
-- it visits: only the goroutine that pushes and ends removes subscribers, so that a subscriber is there
-- when its round comes.
pub mod Kept
use mathlib.Core.List.{Memᴰ}
use federation.Common.{
  ℕ, suc, ◌+◌, ◌%◌, ◌^◌, ◌<◌, ◌≤◌, ◌≡◌, ◌≢◌, refl, ap, subst, sym, ◌∙◌, ◌⊎◌, inl, inr, Bool, true,
  false, Bool-cases, Option, none, some, List, [], ◌∷◌, Text, Error, if◌then◌else◌, arith, ◌==◌,
  ==_iff, Result, ok, err,
}
use federation.Common.GoMap.{lookup, insert, lookup-insert, lookup-remove}
use federation.Xds.{Any, PushRequest}
use federation.Xds.Server.{
  id_key, Response, Stream, Subscriber, Subscribers, AdsServer, Surroundings, deliver, after_send,
  push_loop, push_resources, push, subscribers_len, close_all, close_one, close_subscribers,
  stream_aggregated_resources, on_discovery_request, send_to_stream,
}
use federation.Xds.Server.Push.{VisitsSubscribers}

-- A stream that no subscriber has and that was not closed.
pub record IsNew (downstream : Stream) (s : AdsServer) : Type 0 where
  pub unused :
      (id : ℕ) (sub : Subscriber) → lookup id s.subscribers ≡ some sub → sub.stream ≢ downstream
  pub unclosed : ¬ Memᴰ downstream s.closed

-- One step. The counter of 64 bits is not wrapped by a connection.
pub data Step (s : AdsServer) : AdsServer → Type 0 where
  connect :
      (downstream : Stream)
      → IsNew downstream s
      → s.next_subscriber_id + 1 < 2 ^ 64
      → Step s (stream_aggregated_resources downstream s)
  ask :
      (env : Surroundings) (downstream : Stream) (type_url version : Text)
      → Step s (on_discovery_request env downstream type_url version s)
  broadcast :
      (env : Surroundings) (request : PushRequest)
      → VisitsSubscribers env.range
      → Step s (push env request s).0
  visit :
      (env : Surroundings) (response : Response) (key : ℕ) (sub : Subscriber)
      → lookup key s.subscribers ≡ some sub
      → Step s (after_send (env.send sub.stream response) key sub response s)
  drop :
      (key : ℕ) (sub : Subscriber)
      → lookup key s.subscribers ≡ some sub
      → Step s (close_one key sub s)
  stop : (env : Surroundings) → VisitsSubscribers env.range → Step s (close_subscribers env s)

abbrev pub fresh_server : AdsServer
fresh_server = record { subscribers = []; next_subscriber_id = 0; delivered = []; closed = [] }

pub data Reach : AdsServer → Type 0 where
  start : Reach fresh_server
  later : {s t : AdsServer} → Reach s → Step s t → Reach t

-- Every subscriber stands under its own number, which was given out, on a stream that is open and that
-- no other subscriber has.
pub record Inv (s : AdsServer) : Type 0 where
  pub own : (id : ℕ) (sub : Subscriber) → lookup id s.subscribers ≡ some sub → sub.id ≡ id
  pub given :
      (id : ℕ) (sub : Subscriber) → lookup id s.subscribers ≡ some sub → id ≤ s.next_subscriber_id
  pub open_ :
      (id : ℕ) (sub : Subscriber) → lookup id s.subscribers ≡ some sub → ¬ Memᴰ sub.stream s.closed
  pub alone :
      (id id' : ℕ) (sub sub' : Subscriber)
      → lookup id s.subscribers ≡ some sub
      → lookup id' s.subscribers ≡ some sub'
      → sub.stream ≡ sub'.stream
      → id ≡ id'
