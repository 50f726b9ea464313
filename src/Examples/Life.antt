-- ===== src/Examples/Life.antt =====
-- Examples for the life of a discovery client.
use federation.Common.{
  ◌++◌, ◌≡◌, refl, true, false, none, List, [], ◌∷◌, ok, err, not_found, arith, text_eq,
}
use federation.Common.GoMap.{lookup}
use federation.Xds.{exported_service_type_url}
use federation.Xds.Client.{restart, on_message, request_all}
use federation.Xds.Client.Life.{
  Moment, fresh, blocked, retrying, stopped, live, go_on, run, after_recv, receiving,
}
use federation.Xds.Client.Life.Returns.{IsRefused, live_returns}
use federation.Xds.Client.Life.Ends.{IsDone, live_ends}
use federation.Xds.Client.Life.Histories.{live-restart, connections_from}
use federation.Examples.Streams.{counting, started}

abbrev found : Moment
found = record {
  cancelled = false;
  setup = ok (λ t. none);
  received = ok (exported_service_type_url, []);
}

abbrev broken : Moment
broken = record { cancelled = false; setup = err not_found; received = err not_found }

abbrev over : Moment
over = record { cancelled = true; setup = err not_found; received = err not_found }

-- Refused once, then one response before the stream breaks, then refused again.
abbrev moments : List Moment
moments = broken ∷ found ∷ found ∷ found ∷ found ∷ broken ∷ broken ∷ []

live_test : live counting moments (record { phase = fresh; client = started }) ≡ record {
  phase = retrying;
  client = record { requested = exported_service_type_url ∷ []; state = 1 };
}
unfolding live go_on run after_recv request_all on_message lookup text_eq
live_test = refl

live-restart_example :
    (live counting moments (record { phase = fresh; client = started })).client
    ≡ restart counting (connections_from fresh moments) started
live-restart_example = live-restart counting moments started

over-IsDone : IsDone over
over-IsDone = record { done_ = refl; refuses = (not_found, refl); breaks = (not_found, refl) }

-- The context is done while the client waits for a response.
live_ends_example :
    ((live counting (over ∷ over ∷ over ∷ []) (record { phase = blocked; client = started })).phase
      ≡ stopped)
    × ((live counting
          (over ∷ over ∷ over ∷ [])
          (record { phase = blocked; client = started })).client
        ≡ started)
live_ends_example =
    live_ends counting (over ∷ over ∷ over ∷ []) (record { phase = blocked; client = started })
      (omega arith) (over-IsDone, (over-IsDone, (over-IsDone, tt)))

broken-IsRefused : IsRefused broken
broken-IsRefused = record { going = refl; refuses = (not_found, refl) }

-- Two refusals after the stream broke.
live_returns_example :
    live counting
      (broken ∷ (broken ∷ broken ∷ []) ++ found ∷ [])
      (record { phase = blocked; client = started })
    ≡ record {
      phase = receiving;
      client = record { requested = [] ++ exported_service_type_url ∷ []; state = 0 };
    }
live_returns_example =
    live_returns counting broken found (broken ∷ broken ∷ []) started not_found (λ t. none) refl
      (broken-IsRefused, (broken-IsRefused, tt)) refl refl (refl, tt)
