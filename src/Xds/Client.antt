-- ===== src/Xds/Client.antt =====
-- internal/pkg/legacy/xds/adsc/adsc.go: the client that is subscribed to a remote's discovery server.
-- `S` is what the handlers change. The stream is a parameter: which connections are opened, what is
-- received on them until they break, and which sends fail. Delays between connections are not there.
pub mod Dial
pub mod Life
use federation.Common.{
  ◌≡◌, refl, ◌∙◌, sym, Option, none, some, List, [], ◌∷◌, ◌++◌, Text, Error, concat_map,
}
use federation.Common.GoMap.{lookup, text_key}
use federation.Xds.{Any}

-- ResponseHandler: `Handle`.
abbrev pub ResponseHandler : Type 0 → Type 0
ResponseHandler S = Text → List Any → S → S × Option Error

-- ADSCConfig.
pub record AdscConfig (S : Type 0) : Type 0 where
  pub remote_name : Text
  pub handlers : List (Text × ResponseHandler S)

-- A response: its type and its resources.
abbrev pub Message : Type 0
Message = Text × List Any

-- A call of `Run`: the stream could not be set up; or sends on it fail or not, by the type that is
-- requested, and messages came until it broke.
pub data Connection : Type 0 where
  refused : Error → Connection
  opened : (Text → Option Error) → List Message → Connection

-- The messages of a connection.
abbrev pub messages_of : Connection → List Message
messages_of (refused e) = []
messages_of (opened fails messages) = messages

-- The client's log of requests that were sent, newest last, and the state of the handlers.
pub record Client (S : Type 0) : Type 0 where
  pub requested : List Text
  pub state : S

module _ {S : Type 0} (cfg : AdscConfig S) where
  -- The error of a handler is logged.
  abbrev pub handled : Option (ResponseHandler S) → List Any → S → S
  handled none resources s = s
  handled (some handler) resources s = (handler cfg.remote_name resources s).0

  unfoldable pub on_message : Message → S → S
  on_message (type_url, resources) s = handled (lookup type_url cfg.handlers) resources s

  -- `handleRecv`, until the stream breaks.
  unfoldable pub handle_recv : List Message → S → S
  handle_recv [] s = s
  handle_recv (m ∷ ms) s = handle_recv ms (on_message m s)

  -- `Send`.
  abbrev pub send : Option Error → Text → List Text → List Text
  send none type_url requested = requested ++ type_url ∷ []
  send (some e) type_url requested = requested

  -- The initial requests of `Run`, in the order of the list of handlers, where the code leaves it
  -- open: a failure is logged.
  unfoldable pub request_all :
      (Text → Option Error) → List (Text × ResponseHandler S) → List Text → List Text
  request_all fails [] requested = requested
  request_all fails ((type_url, h) ∷ rest) requested =
      request_all fails rest (send (fails type_url) type_url requested)

  -- `Restart`, again and again: a connection that is refused or broken is followed by the next.
  unfoldable pub restart : List Connection → Client S → Client S
  restart [] c = c
  restart (refused e ∷ rest) c = restart rest c
  restart (opened fails messages ∷ rest) c = restart rest (record {
    requested = request_all fails cfg.handlers c.requested;
    state = handle_recv messages c.state;
  })

  pub handle_recv-append :
      (ms ns : List Message) (s : S) → handle_recv (ms ++ ns) s ≡ handle_recv ns (handle_recv ms s)
  unfolding handle_recv
  handle_recv-append [] ns s = refl
  handle_recv-append (m ∷ ms) ns s = handle_recv-append ms ns (on_message m s)

  -- However often the connection is refused or breaks, what the handlers' state becomes is what it
  -- becomes when all the messages that were received are handled in order on one connection.
  pub restart-handle_recv :
      (connections : List Connection) (c : Client S)
      → (restart connections c).state ≡ handle_recv (concat_map messages_of connections) c.state
  unfolding restart concat_map
  restart-handle_recv [] c = unfold handle_recv in refl
  restart-handle_recv (refused e ∷ rest) c = restart-handle_recv rest c
  restart-handle_recv (opened fails messages ∷ rest) c =
      restart-handle_recv rest (record {
        requested = request_all fails cfg.handlers c.requested;
        state = handle_recv messages c.state;
      })
      ∙ sym (handle_recv-append messages (concat_map messages_of rest) c.state)
