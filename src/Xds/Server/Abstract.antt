-- ===== src/Xds/Server/Abstract.antt =====
-- The discovery server as its clients see it: which streams are subscribed after which events. Numbers
-- of subscribers, responses and the order of the map are forgotten.
pub mod Rounds
pub mod Refines
use federation.Common.{
  ℕ, ◌==◌, ◌≡◌, ◌↔◌, Bool, true, false, not, ◌&&◌, ◌||◌, Option, none, some, List, [], ◌∷◌, Error,
  Result, ok, err,
}
use federation.Common.GoMap.{lookup}
use federation.Xds.{Any, PushRequest}
use federation.Xds.Server.{
  id_key, Response, Stream, Subscriber, AdsServer, Surroundings, push_response, resources_of,
}
use federation.Xds.Server.Steps.{
  Step, connect, ask, broadcast, visit, drop, stop, Reach, start, later,
}

pub data Event : Type 0 where
  connected : Stream → Event
  asked : Event
  pushed : Surroundings → PushRequest → Event
  visited : Surroundings → Response → Stream → Event
  dropped : Stream → Event
  ended : Event

abbrev pub is_sent : Option Error → Bool
is_sent none = true
is_sent (some e) = false

-- Whether a stream stays at a push with the given resources.
abbrev pub takes : Surroundings → PushRequest → Result (List Any) → Stream → Bool
takes env request (err e) d = true
takes env request (ok resources) d =
    is_sent (env.send d (push_response env request.type_url resources))

-- What an event makes of whether the stream is subscribed.
unfoldable pub after : Event → Stream → Bool → Bool
after (connected c) d was = c == d || was
after asked d was = was
after (pushed env request) d was =
    was && takes env request (resources_of env request request.resources) d
after (visited env response c) d was = was && (not (c == d) || is_sent (env.send d response))
after (dropped c) d was = was && not (c == d)
after ended d was = false

-- The specification, on the events with the newest first.
unfoldable pub is_expected : List Event → Stream → Bool
is_expected [] d = false
is_expected (e ∷ es) d = after e d (is_expected es d)

unfoldable pub event_of : {s t : AdsServer} → Step s t → Event
event_of (connect downstream new room) = connected downstream
event_of (ask env downstream type_url version) = asked
event_of (broadcast env request visits) = pushed env request
event_of (visit env response key sub there) = visited env response sub.stream
event_of (drop key sub there) = dropped sub.stream
event_of (stop env visits) = ended

unfoldable pub events_of : {s : AdsServer} → Reach s → List Event
events_of start = []
events_of (later r st) = event_of st ∷ events_of r

-- The stream is the one of a subscriber of the map.
unfoldable pub IsSubscribed : Stream → AdsServer → Type 0
IsSubscribed d s =
    (id : ℕ) × (sub : Subscriber) × (lookup id s.subscribers ≡ some sub) × (sub.stream ≡ d)

-- The state keeps what the flag says of the stream.
abbrev pub Says : Stream → AdsServer → Bool → Type 0
Says d s was = IsSubscribed d s ↔ (was ≡ true)
