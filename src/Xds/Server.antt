-- ===== src/Xds/Server.antt =====
-- internal/pkg/legacy/xds/adss/adss_handler.go: the server of the aggregated discovery service. A
-- stream is a number that stands for the gRPC connection; what its `Send` returns is an argument, and
-- so are the clock's version and the pod's name.
pub mod Abstract
pub mod Push
pub mod Recv
pub mod Run
pub mod Steps
use federation.Common.{
  ℕ, ◌+◌, ◌%◌, ◌^◌, ◌≡◌, refl, Bool, true, false, Option, none, some, List, [], ◌∷◌, ◌++◌, Text,
  codes, text_eq, if◌then◌else◌, arith, Result, ok, err, Error, wrap, with_context, length, ◌==◌,
  ==_iff,
}
use federation.Common.GoMap.{Key, lookup, insert, remove, text_key}
use federation.Xds.{Any, PushRequest}

instance abbrev pub id_key : Key ℕ
id_key = record { same = ◌==◌; same_iff = ==_iff }

-- discovery.DiscoveryResponse.
pub record Response : Type 0 where
  pub type_url : Text
  pub version_info : Text
  pub resources : List Any
  pub identifier : Text
  pub nonce : Text

-- A stream, and what it is sent.
abbrev pub Stream : Type 0
Stream = ℕ

-- subscriber; `closeStream` closes `stream`.
pub record Subscriber : Type 0 where
  pub id : ℕ
  pub stream : Stream

-- The map `subscribers`.
abbrev pub Subscribers : Type 0
Subscribers = List (ℕ × Subscriber)

-- adsServer, with the responses that were delivered and the streams that were closed, newest first.
pub record AdsServer : Type 0 where
  pub subscribers : Subscribers
  pub next_subscriber_id : ℕ  -- uint64
  pub delivered : List (Stream × Response)
  pub closed : List Stream

-- The surroundings of one call: what `GenerateResponse` of the handler of each type answers, what a
-- `Send` returns, the order in which `subscribers.Range` visits, the version and the pod's name.
pub record Surroundings : Type 0 where
  pub handlers : List (Text × Result (List Any))
  pub send : Stream → Response → Option Error
  pub range : Subscribers → Subscribers
  pub version : Text
  pub pod_name : Text

-- `StreamAggregatedResources` up to its wait. Nothing after the wait removes the subscriber.
unfoldable pub stream_aggregated_resources : Stream → AdsServer → AdsServer
stream_aggregated_resources downstream s =
    let id = (s.next_subscriber_id + 1) % 2 ^ 64 in
    record s {
      subscribers = insert id (record { id = id; stream = downstream }) s.subscribers;
      next_subscriber_id = id;
    }

abbrev pub generate_context : Text
generate_context = codes "failed generating resources"

abbrev answer : Option (Result (List Any)) → Result (List Any)
answer none = ok []
answer (some generated) = with_context generate_context generated

-- No resources for a type without a handler.
unfoldable pub generate_resources : Surroundings → Text → Result (List Any)
generate_resources env type_url = answer (lookup type_url env.handlers)

abbrev pub deliver : Option Error → Stream → Response → AdsServer → AdsServer
deliver none stream response s = record s { delivered = (stream, response) ∷ s.delivered }
deliver (some e) stream response s = s

-- `sendToStream`: its error is only logged by the caller.
unfoldable pub send_to_stream : Surroundings → Stream → Text → List Any → AdsServer → AdsServer
send_to_stream env downstream type_url resources s =
    let response : Response = record {
      type_url = type_url;
      version_info = env.version;
      resources = resources;
      identifier = env.pod_name;
      nonce = env.version;
    } in
    deliver (env.send downstream response) downstream response s

-- On an error the empty slice is sent.
abbrev pub or_nothing : Result (List Any) → List Any
or_nothing (ok resources) = resources
or_nothing (err e) = []

-- The body of the loop of `recvFromStream` for a request with a type and a version.
unfoldable pub on_discovery_request : Surroundings → Stream → Text → Text → AdsServer → AdsServer
on_discovery_request env downstream type_url version s =
    if text_eq version []
    then send_to_stream env downstream type_url (or_nothing (generate_resources env type_url)) s
    else s

-- After a `Send` of `push`: a subscriber that cannot be reached is closed and forgotten.
abbrev pub after_send : Option Error → ℕ → Subscriber → Response → AdsServer → AdsServer
after_send none key sub response s = deliver none sub.stream response s
after_send (some e) key sub response s = record s {
  subscribers = remove key s.subscribers;
  closed = sub.stream ∷ s.closed;
}

unfoldable pub push_loop : Surroundings → Response → Subscribers → AdsServer → AdsServer
push_loop env response [] s = s
push_loop env response ((key, sub) ∷ rest) s =
    push_loop env response rest (after_send (env.send sub.stream response) key sub response s)

-- The response that `push` sends; it has no nonce.
abbrev pub push_response : Surroundings → Text → List Any → Response
push_response env type_url resources = record {
  type_url = type_url;
  version_info = env.version;
  resources = resources;
  identifier = env.pod_name;
  nonce = [];
}

-- The resources of a request, generated if there are none.
abbrev pub resources_of : Surroundings → PushRequest → Option (List Any) → Result (List Any)
resources_of env request none = generate_resources env request.type_url
resources_of env request (some resources) = ok resources

push_resources :
    Surroundings → PushRequest → Result (List Any) → AdsServer → AdsServer × Option Error
push_resources env request (err e) s = (s, some e)
push_resources env request (ok resources) s =
    (push_loop env (push_response env request.type_url resources) (env.range s.subscribers) s, none)

unfoldable pub subscribers_len : Surroundings → AdsServer → ℕ
subscribers_len env s = length (env.range s.subscribers)

unfoldable pub push : Surroundings → PushRequest → AdsServer → AdsServer × Option Error
unfolding push_resources subscribers_len
push env request s =
    if subscribers_len env s == 0
    then (s, none)
    else push_resources env request (resources_of env request request.resources) s

-- A round of `closeSubscribers`.
abbrev pub close_one : ℕ → Subscriber → AdsServer → AdsServer
close_one key sub s = record s {
  subscribers = remove key s.subscribers;
  closed = sub.stream ∷ s.closed;
}

close_all : Subscribers → AdsServer → AdsServer
close_all [] s = s
close_all ((key, sub) ∷ rest) s = close_all rest (close_one key sub s)

unfoldable pub close_subscribers : Surroundings → AdsServer → AdsServer
unfolding close_all
close_subscribers env s = close_all (env.range s.subscribers) s
