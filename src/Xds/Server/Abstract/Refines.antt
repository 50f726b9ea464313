-- ===== src/Xds/Server/Abstract/Refines.antt =====
-- The discovery server keeps the streams that its specification expects.
use federation.Common.{
  ℕ, ◌≡◌, refl, ap, subst, sym, ◌∙◌, inl, inr, Bool, true, ◌↔◌, false, Bool-cases, Option, none,
  some, Option-cases, List, Error, if◌then◌else◌, arith, ◌==◌, ==_iff, Result, ok, err, not, ◌&&◌,
  ◌||◌,
}
use federation.Common.GoMap.{lookup}
use federation.Xds.{Any, PushRequest}
use federation.Xds.Server.{
  id_key, Stream, Subscriber, AdsServer, Surroundings, push_response, resources_of, push_resources,
  push, subscribers_len,
}
use federation.Xds.Server.Push.{VisitsSubscribers, Reached, absent_stays, push-Reached}
use federation.Xds.Server.Steps.{
  Step, connect, ask, broadcast, visit, drop, stop, Reach, start, later, Inv,
}
use federation.Xds.Server.Steps.Kept.{Reach-Inv}
use federation.Xds.Server.Abstract.{
  is_sent, takes, after, is_expected, event_of, events_of, IsSubscribed, Says,
}
use federation.Xds.Server.Abstract.Rounds.{
  connect-Says, drop-Says, ask-Says, visit-Says, close-Says,
}

module _ (d : Stream) (s : AdsServer) (inv : Inv s) where
  failed_push :
      (env : Surroundings) (request : PushRequest) (e : Error)
      → resources_of env request request.resources ≡ err e
      → (push env request s).0 ≡ s
  unfolding push push_resources
  failed_push env request e made = elim (Bool-cases (subscribers_len env s == 0)) [
    | inl nobody ↦ rw nobody refl
    | inr somebody ↦ rw somebody (rw made refl)
  ]

  push_absent :
      (env : Surroundings) (request : PushRequest) (id : ℕ)
      → lookup id s.subscribers ≡ none
      → lookup id (push env request s).0.subscribers ≡ none
  unfolding push push_resources
  push_absent env request id gone = elim (Bool-cases (subscribers_len env s == 0)) [
    | inl nobody ↦ rw nobody gone
    | inr somebody ↦ rw somebody (made (resources_of env request request.resources))
  ]
    where
      made :
          (r : Result (List Any)) → lookup id (push_resources env request r s).0.subscribers ≡ none
      made (err e) = gone
      made (ok resources) = absent_stays env _ (env.range s.subscribers) id s gone

  -- What a push with resources does with a number.
  reached :
      (env : Surroundings) (request : PushRequest) (resources : List Any) (id : ℕ)
      (sub : Subscriber)
      → VisitsSubscribers env.range
      → resources_of env request request.resources ≡ ok resources
      → lookup id s.subscribers ≡ some sub
      → lookup id (push env request s).0.subscribers ≡ (
          if is_sent (env.send sub.stream (push_response env request.type_url resources))
          then some sub
          else none)
  reached env request resources id sub visits made there =
      go (env.send sub.stream (push_response env request.type_url resources))
        (push-Reached env visits request resources s id sub made there).1
    where
      go :
          (o : Option Error)
          → Reached o id sub (push_response env request.type_url resources) (push env request s).0
          → lookup id (push env request s).0.subscribers ≡ (if is_sent o then some sub else none)
      go none r = r.0
      go (some e) r = r.0

  push-Says :
      (env : Surroundings) (request : PushRequest) (resources : List Any) (was : Bool)
      → VisitsSubscribers env.range
      → resources_of env request request.resources ≡ ok resources
      → Says d s was
      → Says d
          (push env request s).0
          (was && is_sent (env.send d (push_response env request.type_url resources)))
  unfolding IsSubscribed
  push-Says env request resources was visits made h = (
    λ (id, sub, there, e). elim (Option-cases (lookup id s.subscribers)) [
      | inl gone ↦ let absent = push_absent env request id gone in absurd (cc)
      | inr (old, here) ↦
          let now = sym (reached env request resources id old visits made here) ∙ there in
          let (sent, one) = stayed _ now in
          let same : old.stream ≡ d = ap (λ (x : Subscriber). x.stream) one ∙ e in
          rw (h.0 (id, old, here, same)) (rw (sym same) sent)
    ],
    λ f.
        let (yet, sent) = both f in
        let (id, sub, there, e) = h.1 yet in
        (id, sub, reached env request resources id sub visits made there ∙ rw e (rw sent refl), e),
  )
    where
      both : {b : Bool} → was && b ≡ true → (was ≡ true) × (b ≡ true)
      both f = ground arith

      stayed :
          {old sub : Subscriber} (b : Bool)
          → (if b then some old else none) ≡ some sub
          → (b ≡ true) × (old ≡ sub)
      stayed true q = (refl, cc)
      stayed false q = absurd (cc)

  broadcast-Says :
      (env : Surroundings) (request : PushRequest) (r : Result (List Any)) (was : Bool)
      → VisitsSubscribers env.range
      → resources_of env request request.resources ≡ r
      → Says d s was
      → Says d (push env request s).0 (was && takes env request r d)
  broadcast-Says env request (err e) was visits made h =
      rw (failed_push env request e made) (subst (Says d s) (ground arith) h)
  broadcast-Says env request (ok resources) was visits made h =
      push-Says env request resources was visits made h

-- A visit to the stream's own subscriber asks the stream.
visit_asks :
    (send : Stream → Option Error) (c d : Stream)
    → (not (c == d) || is_sent (send c)) ≡ (not (c == d) || is_sent (send d))
visit_asks send c d = elim (Bool-cases (c == d)) [
  | inl same ↦ rw ((==_iff c d).0 same) refl
  | inr other ↦ rw other refl
]

Step-Says :
    (d : Stream) {s t : AdsServer} (st : Step s t) (was : Bool)
    → Inv s
    → Says d s was
    → Says d t (after (event_of st) d was)
unfolding event_of after
Step-Says d {s} (connect downstream new room) was inv h = connect-Says d s inv downstream was room h
Step-Says d {s} (ask env downstream type_url version) was inv h =
    ask-Says d s inv env downstream type_url version was h
Step-Says d {s} (broadcast env request visits) was inv h =
    broadcast-Says d s inv env request _ was visits refl h
Step-Says d {s} (visit env response key sub there) was inv h =
    rw (sym (visit_asks (λ c. env.send c response) sub.stream d))
      (visit-Says d s inv (env.send sub.stream response) response key sub was there h)
Step-Says d {s} (drop key sub there) was inv h = drop-Says d s inv key sub was there h
Step-Says d {s} (stop env visits) was inv h = close-Says d s inv env visits

-- In every state that the discovery server can reach, by connections, requests, pushes, their rounds
-- and its end in any order, a stream is subscribed exactly if the specification, which sees only the
-- events that led there, expects it.
pub Reach-Refines :
    {s : AdsServer} (r : Reach s) (d : Stream)
    → IsSubscribed d s ↔ (is_expected (events_of r) d ≡ true)
unfolding is_expected events_of
Reach-Refines start d =
    unfold IsSubscribed in unfold lookup in (λ (id, sub, there, e). absurd (cc), λ f. absurd (cc))
Reach-Refines (later r st) d = Step-Says d st _ (Reach-Inv r) (Reach-Refines r d)
