-- ===== src/Xds/Server/Abstract/Rounds.antt =====
-- What connections, requests, single rounds and the end of the discovery server do to its subscribed
-- streams.
use federation.Common.{
  ℕ, ◌+◌, ◌%◌, ◌^◌, ◌<◌, ◌≡◌, refl, ap, subst, sym, ◌∙◌, ◌⊎◌, inl, inr, Bool, true, false,
  Bool-cases, Option, none, some, [], Text, Error, text_eq, arith, ◌==◌, ==_iff, not, ◌&&◌, ◌||◌,
}
use federation.Common.GoMap.{lookup, insert, lookup-insert, lookup-remove}
use federation.Xds.Server.{
  id_key, Response, Stream, Subscriber, AdsServer, Surroundings, deliver, after_send, close_one,
  close_subscribers, stream_aggregated_resources, on_discovery_request, send_to_stream,
}
use federation.Xds.Server.Push.{VisitsSubscribers}
use federation.Xds.Server.Run.{run, run_closes, serve}
use federation.Xds.Server.Steps.{Inv}
use federation.Xds.Server.Abstract.{is_sent, IsSubscribed, Says}

module _ (d : Stream) (s : AdsServer) (inv : Inv s) where
  pub connect-Says :
      (c : Stream) (was : Bool)
      → s.next_subscriber_id + 1 < 2 ^ 64
      → Says d s was
      → Says d (stream_aggregated_resources c s) (c == d || was)
  unfolding stream_aggregated_resources IsSubscribed
  connect-Says c was room h =
      let n = s.next_subscriber_id + 1 in
      let small : n % 2 ^ 64 ≡ n = omega arith in
      rw small (
        λ (id, sub, there, e). found id sub (split id sub there) e,
        λ f. elim (Bool-cases (c == d)) [
          | inl same ↦ (
            n,
            new,
            lookup-insert n n new s.subscribers ∙ (ground (arith, ==_iff n n)),
            (==_iff c d).0 same,
          )
          | inr other ↦ old (h.1 (rw other at f))
        ],
      )
    where
      new : Subscriber
      new = record { id = s.next_subscriber_id + 1; stream = c }

      split :
          (id : ℕ) (p : Subscriber)
          → lookup id (insert (s.next_subscriber_id + 1) new s.subscribers) ≡ some p
          → (p ≡ new) ⊎ (lookup id s.subscribers ≡ some p)
      split id p there =
          let e = sym (lookup-insert (s.next_subscriber_id + 1) id new s.subscribers) ∙ there in
          elim (Bool-cases ((s.next_subscriber_id + 1) == id)) [
            | inl same ↦ let r : some new ≡ some p = rw same at e in inl (cc)
            | inr other ↦ inr (rw other at e)
          ]

      found :
          (id : ℕ) (sub : Subscriber)
          → (sub ≡ new) ⊎ (lookup id s.subscribers ≡ some sub)
          → sub.stream ≡ d
          → (c == d || was) ≡ true
      found id sub (inl r) e =
          let same = (==_iff c d).1 (sym (ap (λ (x : Subscriber). x.stream) r) ∙ e) in rw same refl
      found id sub (inr there) e = let yet = h.0 (id, sub, there, e) in ground arith

      old :
          IsSubscribed d s
          → (id : ℕ) × (sub : Subscriber) × (lookup id
                (insert (s.next_subscriber_id + 1) new s.subscribers)
              ≡ some sub)
            × (sub.stream ≡ d)
      old (id, sub, there, e) = (
        id,
        sub,
        (let below = inv.given id sub there in
            rw (lookup-insert (s.next_subscriber_id + 1) id new s.subscribers)
              (ground (arith, ==_iff (s.next_subscriber_id + 1) id))),
        e,
      )

  -- A subscriber other than one that is dropped has another stream.
  apart :
      (key id : ℕ) (sub p : Subscriber)
      → lookup key s.subscribers ≡ some sub
      → lookup id s.subscribers ≡ some p
      → p.stream ≡ d
      → (key == id) ≡ (sub.stream == d)
  apart key id sub p there here e = elim (Bool-cases (key == id)) [
    | inl same ↦
        let q = (==_iff key id).0 same in
        let twice : some sub ≡ some p = sym there ∙ (ap (λ k. lookup k s.subscribers) q ∙ here) in
        let one : sub ≡ p = cc in
        let reads = (==_iff sub.stream d).1 (ap (λ (x : Subscriber). x.stream) one ∙ e) in cc
    | inr other ↦ elim (Bool-cases (sub.stream == d)) [
      | inl same ↦
          let q = inv.alone key id sub p there here ((==_iff sub.stream d).0 same ∙ sym e) in
          let bad = (==_iff key id).1 q in absurd (cc)
      | inr differs ↦ cc
    ]
  ]

  pub drop-Says :
      (key : ℕ) (sub : Subscriber) (was : Bool)
      → lookup key s.subscribers ≡ some sub
      → Says d s was
      → Says d (close_one key sub s) (was && not (sub.stream == d))
  unfolding IsSubscribed
  drop-Says key sub was there h = (
    λ (id, p, h', e).
        let (ne, here) = kept id p h' in
        rw (h.0 (id, p, here, e)) (rw (sym (apart key id sub p there here e)) (rw ne refl)),
    λ f.
        let (yet, differs) = both f in
        let (id, p, here, e) = h.1 yet in
        let ne = apart key id sub p there here e ∙ differs in
        (id, p, rw (lookup-remove key id s.subscribers) (rw ne here), e),
  )
    where
      kept :
          (id : ℕ) (p : Subscriber)
          → lookup id (close_one key sub s).subscribers ≡ some p
          → ((key == id) ≡ false) × (lookup id s.subscribers ≡ some p)
      kept id p h' =
          let e = sym (lookup-remove key id s.subscribers) ∙ h' in
          elim (Bool-cases (key == id)) [
            | inl same ↦ absurd (let bad = rw same at e in cc)
            | inr other ↦ (other, rw other at e)
          ]

      both : {b : Bool} → was && not b ≡ true → (was ≡ true) × (b ≡ false)
      both f = ground arith

  pub ask-Says :
      (env : Surroundings) (downstream : Stream) (type_url version : Text) (was : Bool)
      → Says d s was
      → Says d (on_discovery_request env downstream type_url version s) was
  unfolding on_discovery_request send_to_stream IsSubscribed
  ask-Says env downstream type_url version was h = elim (Bool-cases (text_eq version [])) [
    | inl first ↦ rw first (delivered _ _)
    | inr again ↦ rw again h
  ]
    where
      delivered :
          (o : Option Error) (response : Response) → Says d (deliver o downstream response s) was
      delivered none response = h
      delivered (some e) response = h

  pub visit-Says :
      (o : Option Error) (response : Response) (key : ℕ) (sub : Subscriber) (was : Bool)
      → lookup key s.subscribers ≡ some sub
      → Says d s was
      → Says d (after_send o key sub response s) (was && (not (sub.stream == d) || is_sent o))
  unfolding IsSubscribed
  visit-Says none response key sub was there h =
      subst (Says d (after_send none key sub response s)) (ground arith) h
  visit-Says (some e) response key sub was there h =
      subst (Says d (close_one key sub s)) (ground arith) (drop-Says key sub was there h)

  pub close-Says :
      (env : Surroundings) → VisitsSubscribers env.range → Says d (close_subscribers env s) false
  unfolding IsSubscribed run serve
  close-Says env visits = (
    λ (id, sub, there, e). let gone = (run_closes [] env s id visits).0 in absurd (cc),
    λ f. absurd (cc),
  )
