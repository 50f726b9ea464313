-- ===== src/Xds/Client/Life/Returns.antt =====
-- How the client comes back after its stream broke.
use mathlib.Core.List.{append_assoc, append-nil}
use federation.Common.{
  ◌≡◌, refl, sym, ◌∙◌, false, Option, none, List, [], ◌∷◌, ◌++◌, map, Text, Error, ok, err, All,
}
use federation.Xds.Client.{AdscConfig, ResponseHandler, Client, request_all}
use federation.Xds.Client.Life.{
  receiving, blocked, reconnecting, retrying, Moment, run, after_recv, go_on, live,
}

-- The context is not done, and no stream is set up.
pub record IsRefused (m : Moment) : Type 0 where
  pub going : m.cancelled ≡ false
  pub refuses : (e : Error) × (m.setup ≡ err e)

module _ {S : Type 0} (cfg : AdscConfig S) where
  -- Each type is requested, in order, if the sends succeed.
  request_all_lem :
      (fails : Text → Option Error) (hs : List (Text × ResponseHandler S)) (requested : List Text)
      → All (λ h. fails h.0 ≡ none) hs
      → request_all cfg fails hs requested ≡ requested ++ map (λ h. h.0) hs
  unfolding request_all
  request_all_lem fails [] requested fine = sym (append-nil requested)
  request_all_lem fails ((url, h) ∷ rest) requested (here, more) = rw here (
      request_all_lem fails rest (requested ++ url ∷ []) more
      ∙ append_assoc requested (url ∷ []) (map (λ h. h.0) rest))

  -- The timer tries again after each refusal.
  returning :
      (refusals : List Moment) (opened : Moment) (c : Client S) (fails : Text → Option Error)
      → All IsRefused refusals
      → opened.cancelled ≡ false
      → opened.setup ≡ ok fails
      → live cfg (refusals ++ opened ∷ []) (record { phase = retrying; client = c })
        ≡ run cfg (ok fails) c
  unfolding live go_on run
  returning [] opened c fails refused going set_up = rw going (rw set_up refl)
  returning (m ∷ ms) opened c fails (now, later) going set_up =
      rw (now.going) (rw (now.refuses.1) (returning ms opened c fails later going set_up))

  reconnects :
      (refusals : List Moment) (opened : Moment) (c : Client S) (fails : Text → Option Error)
      → All IsRefused refusals
      → opened.cancelled ≡ false
      → opened.setup ≡ ok fails
      → live cfg (refusals ++ opened ∷ []) (record { phase = reconnecting; client = c })
        ≡ run cfg (ok fails) c
  unfolding live go_on run
  reconnects [] opened c fails refused going set_up = rw set_up refl
  reconnects (m ∷ ms) opened c fails (now, later) going set_up =
      rw (now.refuses.1) (returning ms opened c fails later going set_up)

  -- After a stream broke, and any number of refusals while the context is not done, the first stream
  -- that is set up, and on which the sends succeed, is received from, each type has been requested once
  -- more, in order, and the handlers' state is what it was.
  pub live_returns :
      (broken opened : Moment) (refusals : List Moment) (c : Client S) (e : Error)
      (fails : Text → Option Error)
      → broken.received ≡ err e
      → All IsRefused refusals
      → opened.cancelled ≡ false
      → opened.setup ≡ ok fails
      → All (λ h. fails h.0 ≡ none) cfg.handlers
      → live cfg (broken ∷ refusals ++ opened ∷ []) (record { phase = blocked; client = c })
        ≡ record {
          phase = receiving;
          client = record {
            requested = c.requested ++ map (λ h. h.0) cfg.handlers;
            state = c.state;
          };
        }
  unfolding live go_on after_recv run
  live_returns broken opened refusals c e fails broke refused going set_up fine = rw broke (
      reconnects refusals opened c fails refused going set_up
      ∙ rw (request_all_lem fails cfg.handlers c.requested fine) refl)
