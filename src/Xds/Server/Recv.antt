-- ===== src/Xds/Server/Recv.antt =====
-- internal/pkg/legacy/xds/adss/adss_handler.go: the goroutine that receives a subscriber's requests.
use federation.Common.{
  ◌≡◌, refl, ap, sym, ◌∙◌, Bool-cases, inl, inr, Option, none, some, List, [], ◌∷◌, ◌++◌, Text,
  codes, text_eq, if◌then◌else◌, Result, ok, err, Error, failure, concat_map,
}
use federation.Xds.Server.{
  Response, Stream, AdsServer, Surroundings, or_nothing, generate_resources, deliver,
  send_to_stream, on_discovery_request,
}
use federation.Xds.Server.Steps.{ask, Reach, later}

-- discovery.DiscoveryRequest, as far as it is read.
pub record DiscoveryRequest : Type 0 where
  pub type_url : Text
  pub version_info : Text

-- What `Recv` returns, with the surroundings of the answer.
abbrev pub Arrival : Type 0
Arrival = Surroundings × Result DiscoveryRequest

-- `recvFromStream`, for what is received: it ends at the first error.
unfoldable pub recv_from_stream : List Arrival → Stream → AdsServer → AdsServer
recv_from_stream [] downstream s = s
recv_from_stream ((env, err e) ∷ rest) downstream s = s
recv_from_stream ((env, ok request) ∷ rest) downstream s =
    recv_from_stream rest downstream
      (on_discovery_request env downstream request.type_url request.version_info s)

-- `DeltaAggregatedResources`: codes.Unimplemented.
unfoldable pub delta_aggregated_resources : Stream → AdsServer → AdsServer × Option Error
delta_aggregated_resources downstream s = (s, some (failure (codes "Not Implemented")))

-- The requests before the first error.
unfoldable pub before_error : List Arrival → List (Surroundings × DiscoveryRequest)
before_error [] = []
before_error ((env, err e) ∷ rest) = []
before_error ((env, ok request) ∷ rest) = (env, request) ∷ before_error rest

abbrev pub snapshot : Surroundings → Text → Response
snapshot env type_url = record {
  type_url = type_url;
  version_info = env.version;
  resources = or_nothing (generate_resources env type_url);
  identifier = env.pod_name;
  nonce = env.version;
}

abbrev pub sent : Option Error → Response → List Response
sent none response = response ∷ []
sent (some e) response = []

-- What a request is answered by: nothing if it has a version or the answer cannot be sent.
unfoldable pub answers_to : Stream → Surroundings × DiscoveryRequest → List Response
answers_to downstream (env, request) =
    if text_eq request.version_info []
    then sent (env.send downstream (snapshot env request.type_url)) (snapshot env request.type_url)
    else []

-- Newest first.
unfoldable pub log_all :
    Stream → List Response → List (Stream × Response) → List (Stream × Response)
log_all downstream [] log = log
log_all downstream (response ∷ rest) log = log_all downstream rest ((downstream, response) ∷ log)

-- The state with more delivered.
abbrev pub with_answers : Stream → List Response → AdsServer → AdsServer
with_answers downstream responses s = record s {
  delivered = log_all downstream responses s.delivered;
}

log_all-append :
    (d : Stream) (xs ys : List Response) (log : List (Stream × Response))
    → log_all d (xs ++ ys) log ≡ log_all d ys (log_all d xs log)
unfolding log_all
log_all-append d [] ys log = refl
log_all-append d (x ∷ xs) ys log = log_all-append d xs ys ((d, x) ∷ log)

deliver_logs :
    (o : Option Error) (d : Stream) (response : Response) (s : AdsServer)
    → deliver o d response s ≡ with_answers d (sent o response) s
unfolding log_all
deliver_logs none d response s = refl
deliver_logs (some e) d response s = refl

on_request_logs :
    (d : Stream) (env : Surroundings) (request : DiscoveryRequest) (s : AdsServer)
    → on_discovery_request env d request.type_url request.version_info s
      ≡ with_answers d (answers_to d (env, request)) s
unfolding on_discovery_request answers_to send_to_stream log_all
on_request_logs d env request s = elim (Bool-cases (text_eq request.version_info [])) [
  | inl first ↦ rw first (deliver_logs _ d _ s)
  | inr again ↦ rw again refl
]

-- Receiving from a stream delivers, in order, the answers to the requests before the first error, and
-- leaves all else of the server as it is: whatever ends it, the subscriber stays subscribed and its
-- stream is not closed.
pub recv_from_stream_lem :
    (arrivals : List Arrival) (downstream : Stream) (s : AdsServer)
    → recv_from_stream arrivals downstream s
      ≡ with_answers downstream (concat_map (answers_to downstream) (before_error arrivals)) s
unfolding recv_from_stream before_error concat_map
recv_from_stream_lem [] d s = unfold log_all in refl
recv_from_stream_lem ((env, err e) ∷ rest) d s = unfold log_all in refl
recv_from_stream_lem ((env, ok request) ∷ rest) d s =
    recv_from_stream_lem rest d _
    ∙ ap (with_answers d (concat_map (answers_to d) (before_error rest)))
        (on_request_logs d env request s)
    ∙ ap (λ log. record s { delivered = log })
        (sym (
          log_all-append d (answers_to d (env, request))
            (concat_map (answers_to d) (before_error rest)) s.delivered))

-- It is made of the server's steps.
pub recv_from_stream-Reach :
    (arrivals : List Arrival) (downstream : Stream) {s : AdsServer}
    → Reach s
    → Reach (recv_from_stream arrivals downstream s)
unfolding recv_from_stream
recv_from_stream-Reach [] d r = r
recv_from_stream-Reach ((env, err e) ∷ rest) d r = r
recv_from_stream-Reach ((env, ok request) ∷ rest) d r =
    recv_from_stream-Reach rest d (later r (ask env d request.type_url request.version_info))
