-- ===== src/Xds/Server/Push.antt =====
-- Whom a push reaches, and who stays subscribed.
use mathlib.Core.List.{Memᴰ}
use federation.Common.{
  ℕ, ◌+◌, ◌%◌, ◌^◌, ◌<◌, ◌≤◌, ◌≡◌, ◌≢◌, refl, ap, sym, ◌∙◌, false, Bool-cases, inl, inr, ◌⊎◌,
  Option, none, some, List, [], ◌∷◌, if◌then◌else◌, arith, ok, Error, length, ◌==◌, ==_iff,
}
use federation.Common.GoMap.{insert, lookup, lookup-insert, lookup-remove}
use federation.Xds.{Any, PushRequest}
use federation.Xds.Server.{
  id_key, Response, Stream, Subscriber, Subscribers, AdsServer, Surroundings, after_send, push_loop,
  push_response, resources_of, push, subscribers_len, stream_aggregated_resources,
}

-- A range visits exactly the subscribers of the map.
pub record VisitsSubscribers (range : Subscribers → Subscribers) : Type 0 where
  pub only :
      (m : Subscribers) (id : ℕ) (sub : Subscriber)
      → Memᴰ (id, sub) (range m)
      → lookup id m ≡ some sub
  pub each :
      (m : Subscribers) (id : ℕ) (sub : Subscriber)
      → lookup id m ≡ some sub
      → Memᴰ (id, sub) (range m)

-- What a push does to one subscriber, by what its stream's `Send` returned.
abbrev pub Reached : Option Error → ℕ → Subscriber → Response → AdsServer → Type 0
Reached none id sub response s =
    (lookup id s.subscribers ≡ some sub) × Memᴰ (sub.stream, response) s.delivered
Reached (some e) id sub response s = (lookup id s.subscribers ≡ none) × Memᴰ sub.stream s.closed

module _ (env : Surroundings) (response : Response) where
  -- What a round keeps.
  absent_after :
      (o : Option Error) (id key : ℕ) (sub : Subscriber) (s : AdsServer)
      → lookup id s.subscribers ≡ none
      → lookup id (after_send o key sub response s).subscribers ≡ none
  absent_after none id key sub s h = h
  absent_after (some e) id key sub s h = rw (lookup-remove key id s.subscribers) (ground arith)

  present_after :
      (o : Option Error) (id key : ℕ) (other sub : Subscriber) (s : AdsServer)
      → lookup id s.subscribers ≡ some sub
      → (key ≢ id) ⊎ (o ≡ none)
      → lookup id (after_send o key other response s).subscribers ≡ some sub
  present_after none id key other sub s h d = h
  present_after (some e) id key other sub s h (inl ne) =
      rw (lookup-remove key id s.subscribers) (ground (arith, ==_iff key id))
  present_after (some e) id key other sub s h (inr q) = absurd (cc)

  delivered_after :
      (o : Option Error) (key : ℕ) (sub : Subscriber) (s : AdsServer) (d : Stream × Response)
      → Memᴰ d s.delivered
      → Memᴰ d (after_send o key sub response s).delivered
  delivered_after none key sub s d m = Memᴰ.tail m
  delivered_after (some e) key sub s d m = m

  closed_after :
      (o : Option Error) (key : ℕ) (sub : Subscriber) (s : AdsServer) (c : Stream)
      → Memᴰ c s.closed
      → Memᴰ c (after_send o key sub response s).closed
  closed_after none key sub s c m = m
  closed_after (some e) key sub s c m = Memᴰ.tail m

  -- What the loop keeps.
  pub absent_stays :
      (es : Subscribers) (id : ℕ) (s : AdsServer)
      → lookup id s.subscribers ≡ none
      → lookup id (push_loop env response es s).subscribers ≡ none
  unfolding push_loop
  absent_stays [] id s h = h
  absent_stays ((key, sub) ∷ rest) id s h =
      absent_stays rest id _ (absent_after (env.send sub.stream response) id key sub s h)

  delivered_stays :
      (es : Subscribers) (s : AdsServer) (d : Stream × Response)
      → Memᴰ d s.delivered
      → Memᴰ d (push_loop env response es s).delivered
  unfolding push_loop
  delivered_stays [] s d m = m
  delivered_stays ((key, sub) ∷ rest) s d m =
      delivered_stays rest _ d (delivered_after (env.send sub.stream response) key sub s d m)

  closed_stays :
      (es : Subscribers) (s : AdsServer) (c : Stream)
      → Memᴰ c s.closed
      → Memᴰ c (push_loop env response es s).closed
  unfolding push_loop
  closed_stays [] s c m = m
  closed_stays ((key, sub) ∷ rest) s c m =
      closed_stays rest _ c (closed_after (env.send sub.stream response) key sub s c m)

  -- The entries with a subscriber's key are that subscriber.
  abbrev IsTheOnly : Subscribers → ℕ → Subscriber → Type 0
  IsTheOnly es id sub = (other : Subscriber) → Memᴰ (id, other) es → other ≡ sub

  present_stays :
      (es : Subscribers) (id : ℕ) (sub : Subscriber) (s : AdsServer)
      → IsTheOnly es id sub
      → env.send sub.stream response ≡ none
      → lookup id s.subscribers ≡ some sub
      → lookup id (push_loop env response es s).subscribers ≡ some sub
  unfolding push_loop
  present_stays [] id sub s only fine h = h
  present_stays ((key, other) ∷ rest) id sub s only fine h =
      present_stays rest id sub _ (λ p m. only p (Memᴰ.tail m)) fine
        (present_after (env.send other.stream response) id key other sub s h
          (elim (Bool-cases (key == id)) [
            | inl same ↦
                let here : key ≡ id = (==_iff key id).0 same in
                let is_sub = only other (Memᴰ.head (ap (λ n. (n, other)) (sym here))) in
                inr (ap (λ (p : Subscriber). env.send p.stream response) is_sub ∙ fine)
            | inr differs ↦ inl (λ e. let same = (==_iff key id).1 e in cc)
          ]))

  round_reaches :
      (o : Option Error) (id : ℕ) (sub : Subscriber) (rest : Subscribers) (s : AdsServer)
      → env.send sub.stream response ≡ o
      → IsTheOnly rest id sub
      → lookup id s.subscribers ≡ some sub
      → Reached o id sub response (push_loop env response rest (after_send o id sub response s))
  round_reaches none id sub rest s e only h = (
    present_stays rest id sub _ only e h,
    delivered_stays rest _ (sub.stream, response) (Memᴰ.head refl),
  )
  round_reaches (some f) id sub rest s e only h = (
    absent_stays rest id _ (rw (lookup-remove id id s.subscribers) (ground (arith, ==_iff id id))),
    closed_stays rest _ sub.stream (Memᴰ.head refl),
  )

  loop_reaches :
      (es : Subscribers) (id : ℕ) (sub : Subscriber) (s : AdsServer)
      → Memᴰ (id, sub) es
      → IsTheOnly es id sub
      → lookup id s.subscribers ≡ some sub
      → Reached (env.send sub.stream response) id sub response (push_loop env response es s)
  unfolding push_loop
  loop_reaches [] id sub s m only h = elim m [ ]
  loop_reaches ((key, other) ∷ rest) id sub s m only h = elim (Bool-cases (key == id)) [
    | inl same ↦
        let here : key ≡ id = (==_iff key id).0 same in
        let is_sub = only other (Memᴰ.head (ap (λ n. (n, other)) (sym here))) in
        rw (here, is_sub)
          (round_reaches (env.send sub.stream response) id sub rest s refl
            (λ p q. only p (Memᴰ.tail q)) h)
    | inr differs ↦
        let ne : key ≢ id = λ e. let same = (==_iff key id).1 e in cc in
        loop_reaches rest id sub _ (in_rest m ne) (λ p q. only p (Memᴰ.tail q))
          (present_after (env.send other.stream response) id key other sub s h (inl ne))
  ]
    where
      in_rest : Memᴰ (id, sub) ((key, other) ∷ rest) → key ≢ id → Memᴰ (id, sub) rest
      in_rest (Memᴰ.head e) ne = absurd (ne (sym (ap (λ (p : ℕ × Subscriber). p.0) e)))
      in_rest (Memᴰ.tail q) ne = q

module _ (env : Surroundings) (visits : VisitsSubscribers env.range) where
  some_visited :
      (s : AdsServer) (id : ℕ) (sub : Subscriber)
      → lookup id s.subscribers ≡ some sub
      → (subscribers_len env s == 0) ≡ false
  unfolding subscribers_len
  some_visited s id sub h = go (env.range s.subscribers) (visits.each s.subscribers id sub h)
    where
      go : (es : Subscribers) → Memᴰ (id, sub) es → (length es == 0) ≡ false
      go [] m = elim m [ ]
      go (e ∷ es) m = ground arith

  -- A push whose resources are given or could be generated returns no error and does with each
  -- subscriber one of two things: one whose stream takes the response has it and stays subscribed;
  -- one whose stream refuses it is closed and no longer subscribed, and holds up no other.
  pub push-Reached :
      (request : PushRequest) (resources : List Any) (s : AdsServer) (id : ℕ) (sub : Subscriber)
      → resources_of env request request.resources ≡ ok resources
      → lookup id s.subscribers ≡ some sub
      → ((push env request s).1 ≡ none)
        × Reached
            (env.send sub.stream (push_response env request.type_url resources))
            id
            sub
            (push_response env request.type_url resources)
            (push env request s).0
  unfolding push
  push-Reached request resources s id sub made there = rw (some_visited s id sub there) (
      rw made (
        refl,
        loop_reaches env (push_response env request.type_url resources) (env.range s.subscribers) id
            sub s (visits.each s.subscribers id sub there)
            (λ other m. only_one (visits.only s.subscribers id other m)) there,
      ))
    where
      only_one : {other : Subscriber} → lookup id s.subscribers ≡ some other → other ≡ sub
      only_one h = let both = sym h ∙ there in cc

-- Every subscriber's number has been given out.
abbrev pub IsNumbered : AdsServer → Type 0
IsNumbered s =
    (id : ℕ) (sub : Subscriber) → lookup id s.subscribers ≡ some sub → id ≤ s.next_subscriber_id

-- A subscriber that is there, or else a new one.
abbrev pub or_new : Option Subscriber → Option Subscriber → Option Subscriber
or_new (some sub) new = some sub
or_new none new = new

numbered_by_insert :
    (n : ℕ) (new : Subscriber) (s : AdsServer) (id : ℕ) (o : Option Subscriber)
    → (lookup id s.subscribers ≡ o)
    → ((sub : Subscriber) → o ≡ some sub → id < n)
    → lookup id (insert n new s.subscribers) ≡ or_new o (if n == id then some new else none)
numbered_by_insert n new s id none h old = rw (lookup-insert n id new s.subscribers) (rw h refl)
numbered_by_insert n new s id (some sub) h old =
    let below = old sub refl in
    rw (lookup-insert n id new s.subscribers) (rw h (ground (arith, ==_iff n id)))

-- As long as the 64-bit counter does not wrap, a new connection gets a number of its own: under
-- every number there is the subscriber that was there, and else under the new number the new one;
-- and numbers in use remain given out.
pub stream_aggregated_resources-keeps :
    (downstream : Stream) (s : AdsServer) (id : ℕ)
    → IsNumbered s
    → s.next_subscriber_id + 1 < 2 ^ 64
    → let n = s.next_subscriber_id + 1 in
      let t = stream_aggregated_resources downstream s in
      (lookup id t.subscribers
        ≡ or_new
            (lookup id s.subscribers)
            (if n == id then some (record { id = n; stream = downstream }) else none))
      × IsNumbered t
unfolding stream_aggregated_resources
stream_aggregated_resources-keeps downstream s id numbered room =
    let n = s.next_subscriber_id + 1 in
    let small : n % 2 ^ 64 ≡ n = omega arith in
    let new : Subscriber = record { id = n; stream = downstream } in
    rw small (
      numbered_by_insert n new s id (lookup id s.subscribers) refl
          (λ sub h. let old = numbered id sub h in omega arith),
      λ k sub h. stays_numbered k sub (sym (lookup-insert n k new s.subscribers) ∙ h),
    )
  where
    stays_numbered :
        (k : ℕ) (sub : Subscriber)
        → (if (s.next_subscriber_id + 1) == k
            then some (record { id = s.next_subscriber_id + 1; stream = downstream })
            else lookup k s.subscribers)
          ≡ some sub
        → k ≤ s.next_subscriber_id + 1
    stays_numbered k sub h = elim (Bool-cases ((s.next_subscriber_id + 1) == k)) [
      | inl same ↦ let e = (==_iff (s.next_subscriber_id + 1) k).0 same in omega arith
      | inr differs ↦ let old = numbered k sub (rw differs at h) in omega arith
    ]
