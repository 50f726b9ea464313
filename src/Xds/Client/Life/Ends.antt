-- ===== src/Xds/Client/Life/Ends.antt =====
-- When the client stops.
use federation.Common.{
  ℕ, ◌-◌, ◌≤◌, ◌≡◌, ◌≢◌, refl, ◌∙◌, true, false, Option, List, [], ◌∷◌, Text, Error, Result, ok,
  err, All, arith, length,
}
use federation.Xds.Client.{AdscConfig, Message, Client}
use federation.Xds.Client.Life.{
  Phase, fresh, receiving, blocked, reconnecting, retrying, stopped, Moment, Life, run, after_recv,
  go_on, live,
}

-- gRPC under a context that is done: no stream is set up, and `Recv` fails.
pub record IsDone (m : Moment) : Type 0 where
  pub done_ : m.cancelled ≡ true
  pub refuses : (e : Error) × (m.setup ≡ err e)
  pub breaks : (e : Error) × (m.received ≡ err e)

-- How many steps the end takes at most.
abbrev pub steps_left : Phase → ℕ
steps_left stopped = 0
steps_left receiving = 1
steps_left retrying = 1
steps_left fresh = 2
steps_left reconnecting = 2
steps_left blocked = 3

module _ {S : Type 0} (cfg : AdscConfig S) where
  -- Each step under a context that is done leaves fewer, and the client as it is.
  ending_step :
      (p : Phase) (m : Moment) (c : Client S)
      → IsDone m
      → (steps_left (go_on cfg p m c).phase ≤ steps_left p - 1) × ((go_on cfg p m c).client ≡ c)
  unfolding go_on run after_recv
  ending_step fresh m c d = rw (d.refuses.1) (omega arith, refl)
  ending_step receiving m c d = rw (d.done_) (omega arith, refl)
  ending_step blocked m c d = rw (d.breaks.1) (omega arith, refl)
  ending_step reconnecting m c d = rw (d.refuses.1) (omega arith, refl)
  ending_step retrying m c d = rw (d.done_) (omega arith, refl)
  ending_step stopped m c d = (omega arith, refl)

  none_left : (p : Phase) → steps_left p ≤ 0 → p ≡ stopped
  none_left stopped h = refl
  none_left fresh h = absurd (omega arith)
  none_left receiving h = absurd (omega arith)
  none_left blocked h = absurd (omega arith)
  none_left reconnecting h = absurd (omega arith)
  none_left retrying h = absurd (omega arith)

  live-stopped :
      (ms : List Moment) (l : Life S)
      → steps_left l.phase ≤ length ms
      → All IsDone ms
      → ((live cfg ms l).phase ≡ stopped) × ((live cfg ms l).client ≡ l.client)
  unfolding live
  live-stopped [] l h d = (none_left l.phase h, refl)
  live-stopped (m ∷ ms) l h (now, later) =
      let (fewer, same) = ending_step l.phase m l.client now in
      let (ends, kept) = live-stopped ms (go_on cfg l.phase m l.client) (omega arith) later in
      (ends, kept ∙ same)

  three_suffice : (p : Phase) → steps_left p ≤ 3
  three_suffice fresh = omega arith
  three_suffice receiving = omega arith
  three_suffice blocked = omega arith
  three_suffice reconnecting = omega arith
  three_suffice retrying = omega arith
  three_suffice stopped = omega arith

  -- Once the context is done, the client has stopped after three steps, whatever it was doing, and it
  -- has sent nothing and handled nothing since.
  pub live_ends :
      (ms : List Moment) (l : Life S)
      → 3 ≤ length ms
      → All IsDone ms
      → ((live cfg ms l).phase ≡ stopped) × ((live cfg ms l).client ≡ l.client)
  live_ends ms l h d = let few = three_suffice l.phase in live-stopped ms l (omega arith) d

  run_goes : (r : Result (Text → Option Error)) (c : Client S) → (run cfg r c).phase ≢ stopped
  unfolding run
  run_goes (err e) c q = cc
  run_goes (ok fails) c q = cc

  recv_goes : (r : Result Message) (c : Client S) → (after_recv cfg r c).phase ≢ stopped
  unfolding after_recv
  recv_goes (err e) c q = cc
  recv_goes (ok m) c q = cc

  going_step :
      (p : Phase) (m : Moment) (c : Client S)
      → m.cancelled ≡ false
      → p ≢ stopped
      → (go_on cfg p m c).phase ≢ stopped
  unfolding go_on
  going_step fresh m c h ne = run_goes m.setup c
  going_step receiving m c h ne = rw h (λ e. cc)
  going_step blocked m c h ne = recv_goes m.received c
  going_step reconnecting m c h ne = run_goes m.setup c
  going_step retrying m c h ne = rw h (run_goes m.setup c)
  going_step stopped m c h ne = absurd (ne refl)

  -- As long as the context is not done, the client does not stop, however often the stream is refused
  -- or breaks.
  pub live_goes_on :
      (ms : List Moment) (l : Life S)
      → All (λ m. m.cancelled ≡ false) ms
      → l.phase ≢ stopped
      → (live cfg ms l).phase ≢ stopped
  unfolding live
  live_goes_on [] l h ne = ne
  live_goes_on (m ∷ ms) l (now, later) ne =
      live_goes_on ms (go_on cfg l.phase m l.client) later (going_step l.phase m l.client now ne)
