-- ===== src/Xds/Server/Run.antt =====
-- internal/pkg/legacy/xds/adss/grpc_server.go: the handlers by type, and the life of the server. The
-- listener and the gRPC server are parameters: whether listening fails.
use mathlib.Core.List.{Memᴰ}
use federation.Common.{
  ℕ, ◌≡◌, ap, sym, Option, none, some, Option-cases, inl, inr, List, [], ◌∷◌, Text, codes, arith,
  Result, Error, wrap, ==_iff,
}
use federation.Common.GoMap.{lookup, insert, lookup-remove, text_key}
use federation.Xds.{Any, PushRequest}
use federation.Xds.Server.{
  id_key, Stream, Subscriber, Subscribers, AdsServer, Surroundings, push, close_all,
  close_subscribers,
}
use federation.Xds.Server.Push.{VisitsSubscribers}

add_handlers :
    List (Text × Result (List Any))
    → List (Text × Result (List Any))
    → List (Text × Result (List Any))
add_handlers m [] = m
add_handlers m ((type_url, h) ∷ rest) = add_handlers (insert type_url h m) rest

-- `NewServer`: the map of handlers, each with what it answers, and no subscribers.
unfoldable pub new_server :
    List (Text × Result (List Any)) → List (Text × Result (List Any)) × AdsServer
unfolding add_handlers
new_server handlers = (
  add_handlers [] handlers,
  record { subscribers = []; next_subscriber_id = 0; delivered = []; closed = [] },
)

-- The loop of `Run` until the context is done, for the requests that arrive, each with its
-- surroundings. An error is logged.
unfoldable pub serve : List (Surroundings × PushRequest) → AdsServer → AdsServer
serve [] s = s
serve ((env, request) ∷ rest) s = serve rest (push env request s).0

abbrev pub listen_context : Text
listen_context = codes "creating TCP listener"

-- `Run`; `env` are the surroundings of the end.
unfoldable pub run :
    Option Error
    → List (Surroundings × PushRequest)
    → Surroundings
    → AdsServer
    → AdsServer × Option Error
run (some e) requests env s = (s, some (wrap listen_context e))
run none requests env s = (close_subscribers env (serve requests s), none)

closed_absent :
    (es : Subscribers) (id : ℕ) (s : AdsServer)
    → lookup id s.subscribers ≡ none
    → lookup id (close_all es s).subscribers ≡ none
unfolding close_all
closed_absent [] id s h = h
closed_absent ((key, sub) ∷ rest) id s h =
    closed_absent rest id _ (rw (lookup-remove key id s.subscribers) (ground arith))

closed_keeps :
    (es : Subscribers) (s : AdsServer) (c : Stream)
    → Memᴰ c s.closed
    → Memᴰ c (close_all es s).closed
unfolding close_all
closed_keeps [] s c m = m
closed_keeps ((key, sub) ∷ rest) s c m = closed_keeps rest _ c (Memᴰ.tail m)

close_all_closes :
    (es : Subscribers) (id : ℕ) (sub : Subscriber) (s : AdsServer)
    → Memᴰ (id, sub) es
    → (lookup id (close_all es s).subscribers ≡ none) × Memᴰ sub.stream (close_all es s).closed
unfolding close_all
close_all_closes [] id sub s m = elim m [ ]
close_all_closes ((key, other) ∷ rest) id sub s (Memᴰ.head e) =
    let same : key ≡ id = sym (ap (λ (p : ℕ × Subscriber). p.0) e) in
    let whole : sub.stream ≡ other.stream = ap (λ (p : ℕ × Subscriber). p.1.stream) e in
    (
      closed_absent rest id _
          (rw (lookup-remove key id s.subscribers) (ground (arith, ==_iff key id))),
      closed_keeps rest _ sub.stream (Memᴰ.head whole),
    )
close_all_closes ((key, other) ∷ rest) id sub s (Memᴰ.tail m) = close_all_closes rest id sub _ m

-- The stream of a subscriber, if there is one, is closed.
abbrev pub IsClosed : Option Subscriber → AdsServer → Type 0
IsClosed none s = Unit
IsClosed (some sub) s = Memᴰ sub.stream s.closed

-- When the server stops nobody is subscribed, whatever was pushed, and each stream that was
-- subscribed until then is closed.
pub run_closes :
    (requests : List (Surroundings × PushRequest)) (env : Surroundings) (s : AdsServer) (id : ℕ)
    → VisitsSubscribers env.range
    → (lookup id (run none requests env s).0.subscribers ≡ none)
      × IsClosed (lookup id (serve requests s).subscribers) (run none requests env s).0
unfolding run close_subscribers
run_closes requests env s id visits =
    let last = serve requests s in
    elim (Option-cases (lookup id last.subscribers)) [
      | inl gone ↦ (closed_absent (env.range last.subscribers) id last gone, rw gone tt)
      | inr (sub, there) ↦
          let (absent, closed) =
            close_all_closes (env.range last.subscribers) id sub last
              (visits.each last.subscribers id sub there) in
          (absent, rw there closed)
    ]
