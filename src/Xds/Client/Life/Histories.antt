-- ===== src/Xds/Client/Life/Histories.antt =====
-- The life of the client, step by step, against its connections as `restart` goes through them.
use federation.Common.{
  ◌≡◌, refl, Bool, true, false, Option, List, [], ◌∷◌, Text, Error, Result, ok, err, if◌then◌else◌,
}
use federation.Xds.Client.{
  AdscConfig, Message, Connection, refused, opened, Client, on_message, handle_recv, request_all,
  restart,
}
use federation.Xds.Client.Life.{
  Phase, fresh, receiving, blocked, reconnecting, retrying, stopped, Moment, run, after_recv, go_on,
  live,
}

abbrev pub next_message : Result Message → List Message → List Message
next_message (err e) rest = []
next_message (ok m) rest = m ∷ rest

-- What comes on the stream that is open, until it breaks.
unfoldable pub messages_from : Phase → List Moment → List Message
messages_from fresh ms = []
messages_from reconnecting ms = []
messages_from retrying ms = []
messages_from stopped ms = []
messages_from receiving [] = []
messages_from receiving (m ∷ ms) =
    let rest = messages_from blocked ms in if m.cancelled then [] else rest
messages_from blocked [] = []
messages_from blocked (m ∷ ms) = next_message m.received (messages_from receiving ms)

-- A call of `Run`, what comes on its stream, and the connections after it if it succeeds or fails.
abbrev pub set_up :
    Result (Text → Option Error)
    → List Message
    → List Connection
    → List Connection
    → List Connection
set_up (err e) messages later again = refused e ∷ again
set_up (ok fails) messages later again = opened fails messages ∷ later

abbrev pub unless_broken : Result Message → List Connection → List Connection → List Connection
unless_broken (err e) later again = again
unless_broken (ok m) later again = later

-- The connections that are set up from now on.
unfoldable pub connections_from : Phase → List Moment → List Connection
connections_from stopped ms = []
connections_from p [] = []
connections_from fresh (m ∷ ms) =
    set_up m.setup (messages_from receiving ms) (connections_from receiving ms)
      (connections_from retrying ms)
connections_from reconnecting (m ∷ ms) =
    set_up m.setup (messages_from receiving ms) (connections_from receiving ms)
      (connections_from retrying ms)
connections_from retrying (m ∷ ms) =
    let next =
      set_up m.setup (messages_from receiving ms) (connections_from receiving ms)
        (connections_from retrying ms) in
    if m.cancelled then [] else next
connections_from receiving (m ∷ ms) =
    let rest = connections_from blocked ms in if m.cancelled then [] else rest
connections_from blocked (m ∷ ms) =
    unless_broken m.received (connections_from receiving ms) (connections_from reconnecting ms)

module _ {S : Type 0} (cfg : AdscConfig S) where
  abbrev after_messages : List Message → Client S → Client S
  after_messages messages c = record {
    requested = c.requested;
    state = handle_recv cfg messages c.state;
  }

  -- The rest of the open stream, then the connections.
  unfoldable IsExplained : List Moment → Type 0
  IsExplained ms =
      (p : Phase) (c : Client S)
      → (live cfg ms (record { phase = p; client = c })).client
        ≡ restart cfg (connections_from p ms) (after_messages (messages_from p ms) c)

  run_explained :
      (r : Result (Text → Option Error)) (ms : List Moment) (c : Client S)
      → IsExplained ms
      → (live cfg ms (run cfg r c)).client
        ≡ restart cfg
            (set_up r
              (messages_from receiving ms)
              (connections_from receiving ms)
              (connections_from retrying ms))
            c
  unfolding IsExplained run restart messages_from handle_recv
  run_explained (err e) ms c h = h retrying c
  run_explained (ok fails) ms c h =
      h receiving
        (record { requested = request_all cfg fails cfg.handlers c.requested; state = c.state })

  recv_explained :
      (r : Result Message) (ms : List Moment) (c : Client S)
      → IsExplained ms
      → (live cfg ms (after_recv cfg r c)).client
        ≡ restart cfg
            (unless_broken r (connections_from receiving ms) (connections_from reconnecting ms))
            (after_messages (next_message r (messages_from receiving ms)) c)
  unfolding IsExplained after_recv handle_recv messages_from
  recv_explained (err e) ms c h = h reconnecting c
  recv_explained (ok m) ms c h =
      h receiving (record { requested = c.requested; state = on_message cfg m c.state })

  look_explained :
      (cancelled : Bool) (ms : List Moment) (c : Client S)
      → IsExplained ms
      → (live cfg ms (record { phase = if cancelled then stopped else blocked; client = c })).client
        ≡ restart cfg
            (if cancelled then [] else connections_from blocked ms)
            (after_messages (if cancelled then [] else messages_from blocked ms) c)
  unfolding IsExplained connections_from messages_from handle_recv
  look_explained true ms c h = h stopped c
  look_explained false ms c h = h blocked c

  retry_explained :
      (cancelled : Bool) (m : Moment) (ms : List Moment) (c : Client S)
      → IsExplained ms
      → (live cfg ms
          (if cancelled then record { phase = stopped; client = c } else run cfg m.setup c)).client
        ≡ restart cfg
            (if cancelled
              then []
              else set_up m.setup
                  (messages_from receiving ms)
                  (connections_from receiving ms)
                  (connections_from retrying ms))
            c
  unfolding IsExplained connections_from messages_from handle_recv
  retry_explained true m ms c h = h stopped c
  retry_explained false m ms c h = run_explained m.setup ms c h

  live-IsExplained : (ms : List Moment) → IsExplained ms
  unfolding IsExplained live go_on connections_from messages_from handle_recv restart
  live-IsExplained ms stopped c = stays ms
    where
      stays : (ns : List Moment) → (live cfg ns (record { phase = stopped; client = c })).client ≡ c
      stays [] = refl
      stays (m ∷ ns) = stays ns
  live-IsExplained [] fresh c = refl
  live-IsExplained [] receiving c = refl
  live-IsExplained [] blocked c = refl
  live-IsExplained [] reconnecting c = refl
  live-IsExplained [] retrying c = refl
  live-IsExplained (m ∷ ms) fresh c = run_explained m.setup ms c (live-IsExplained ms)
  live-IsExplained (m ∷ ms) reconnecting c = run_explained m.setup ms c (live-IsExplained ms)
  live-IsExplained (m ∷ ms) retrying c = retry_explained m.cancelled m ms c (live-IsExplained ms)
  live-IsExplained (m ∷ ms) receiving c = look_explained m.cancelled ms c (live-IsExplained ms)
  live-IsExplained (m ∷ ms) blocked c = recv_explained m.received ms c (live-IsExplained ms)

  -- Step by step, from its first call of `Run`, the client comes to what going through the connections
  -- that the steps open gives, each with the messages that come on it before it breaks.
  pub live-restart :
      (ms : List Moment) (c : Client S)
      → (live cfg ms (record { phase = fresh; client = c })).client
        ≡ restart cfg (connections_from fresh ms) c
  unfolding IsExplained messages_from handle_recv
  live-restart ms c = live-IsExplained ms fresh c
