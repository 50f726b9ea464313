-- ===== src/Xds/Client/Life.antt =====
-- internal/pkg/legacy/xds/adsc/adsc.go, and the goroutine of startFDSClient in
-- cmd/federation-controller/main.go: the client's goroutine and its timers, of which one at a time
-- goes on, with the cancellation of the context.
pub mod Ends
pub mod Returns
pub mod Histories
use federation.Common.{
  Bool, true, false, Option, none, some, List, [], ◌∷◌, Text, Error, Result, ok, err, if◌then◌else◌,
}
use federation.Xds.Client.{AdscConfig, Message, Client, on_message, request_all}

-- What goes on next.
pub data Phase : Type 0 where
  -- the goroutine that calls `Run` for the first time
  fresh : Phase
  -- the head of the loop of `handleRecv`
  receiving : Phase
  -- a call of `stream.Recv`
  blocked : Phase
  -- the timer after a broken stream, which calls `Restart`
  reconnecting : Phase
  -- the timer after a refused stream, which looks at the context before it calls `Restart`
  retrying : Phase
  stopped : Phase

-- What the phase finds: whether the context is done, what setting up the stream gives, the errors of
-- sends by type or an error, and what `Recv` returns.
pub record Moment : Type 0 where
  pub cancelled : Bool
  pub setup : Result (Text → Option Error)
  pub received : Result Message

pub record Life (S : Type 0) : Type 0 where
  pub phase : Phase
  pub client : Client S

module _ {S : Type 0} (cfg : AdscConfig S) where
  -- `Run`: without a stream a timer is set, by `Restart` or for the first call by startFDSClient.
  unfoldable pub run : Result (Text → Option Error) → Client S → Life S
  run (err e) c = record { phase = retrying; client = c }
  run (ok fails) c = record {
    phase = receiving;
    client = record { requested = request_all cfg fails cfg.handlers c.requested; state = c.state };
  }

  -- After `Recv`.
  unfoldable pub after_recv : Result Message → Client S → Life S
  after_recv (err e) c = record { phase = reconnecting; client = c }
  after_recv (ok m) c = record {
    phase = receiving;
    client = record { requested = c.requested; state = on_message cfg m c.state };
  }

  unfoldable pub go_on : Phase → Moment → Client S → Life S
  go_on fresh m c = run m.setup c
  go_on receiving m c = record { phase = if m.cancelled then stopped else blocked; client = c }
  go_on blocked m c = after_recv m.received c
  go_on reconnecting m c = run m.setup c
  go_on retrying m c = if m.cancelled then record { phase = stopped; client = c } else run m.setup c
  go_on stopped m c = record { phase = stopped; client = c }

  unfoldable pub live : List Moment → Life S → Life S
  live [] l = l
  live (m ∷ ms) l = live ms (go_on l.phase m l.client)
