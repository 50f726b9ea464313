-- ===== src/Xds/Server/Steps/Kept.antt =====
-- What every step of the discovery server keeps.
use mathlib.Core.List.{Memᴰ}
use federation.Common.{
  ℕ, suc, ◌+◌, ◌%◌, ◌^◌, ◌<◌, ◌≤◌, ◌≡◌, ◌≢◌, refl, ap, subst, sym, ◌∙◌, ◌⊎◌, inl, inr, Bool, true,
  false, Bool-cases, Option, none, some, List, [], ◌∷◌, Text, Error, if◌then◌else◌, arith, ◌==◌,
  ==_iff, Result, ok, err,
}
use federation.Common.GoMap.{lookup, insert, lookup-insert, lookup-remove}
use federation.Xds.{Any, PushRequest}
use federation.Xds.Server.{
  id_key, Response, Stream, Subscriber, Subscribers, AdsServer, Surroundings, deliver, after_send,
  push_loop, push_resources, push, subscribers_len, close_all, close_one, close_subscribers,
  stream_aggregated_resources, on_discovery_request, send_to_stream,
}
use federation.Xds.Server.Push.{VisitsSubscribers}
use federation.Xds.Server.Steps.{
  IsNew, Step, connect, ask, broadcast, visit, drop, stop, Reach, start, later, Inv,
}

-- The subscribers of a state are among those of another.
abbrev IsWithin : AdsServer → AdsServer → Type 0
IsWithin s s₀ =
    (id : ℕ) (sub : Subscriber)
    → lookup id s.subscribers ≡ some sub
    → lookup id s₀.subscribers ≡ some sub

-- The entries that are still to be visited were in the map at first.
abbrev WereThere : Subscribers → AdsServer → Type 0
WereThere es s₀ =
    (id : ℕ) (sub : Subscriber) → Memᴰ (id, sub) es → lookup id s₀.subscribers ≡ some sub

module _ (s₀ : AdsServer) (inv₀ : Inv s₀) where
  stays_of_dropped :
      (key id : ℕ) (sub sub' : Subscriber) (s : AdsServer)
      → lookup id (close_one key sub s).subscribers ≡ some sub'
      → (key ≢ id) × (lookup id s.subscribers ≡ some sub')
  stays_of_dropped key id sub sub' s h =
      let e = sym (lookup-remove key id s.subscribers) ∙ h in
      elim (Bool-cases (key == id)) [
        | inl same ↦ absurd (let bad = rw same at e in cc)
        | inr other ↦ (λ q. let same = (==_iff key id).1 q in cc, rw other at e)
      ]

  Inv-dropped :
      (key : ℕ) (sub : Subscriber) (s : AdsServer)
      → lookup key s₀.subscribers ≡ some sub
      → IsWithin s s₀
      → Inv s
      → Inv (close_one key sub s)
  Inv-dropped key sub s was within inv = record {
    own = λ id p h. inv.own id p (stays_of_dropped key id sub p s h).1;
    given = λ id p h. inv.given id p (stays_of_dropped key id sub p s h).1;
    open_ = λ id p h. still_open id p (stays_of_dropped key id sub p s h);
    alone = λ id id' p p' h h' e.
        inv.alone id id' p p' (stays_of_dropped key id sub p s h).1
          (stays_of_dropped key id' sub p' s h').1 e;
  }
    where
      still_open :
          (id : ℕ) (p : Subscriber)
          → (key ≢ id) × (lookup id s.subscribers ≡ some p)
          → ¬ Memᴰ p.stream (sub.stream ∷ s.closed)
      still_open id p (ne, h) (Memᴰ.head e) =
          ne (sym (inv₀.alone id key p sub (within id p h) was e))
      still_open id p (ne, h) (Memᴰ.tail m) = inv.open_ id p h m

  IsWithin-dropped :
      (key : ℕ) (sub : Subscriber) (s : AdsServer)
      → IsWithin s s₀
      → IsWithin (close_one key sub s) s₀
  IsWithin-dropped key sub s within id p h = within id p (stays_of_dropped key id sub p s h).1

  after_send-Inv :
      (o : Option Error) (response : Response) (key : ℕ) (sub : Subscriber) (s : AdsServer)
      → lookup key s₀.subscribers ≡ some sub
      → IsWithin s s₀
      → Inv s
      → Inv (after_send o key sub response s) × IsWithin (after_send o key sub response s) s₀
  after_send-Inv none response key sub s was within inv =
      (record { own = inv.own; given = inv.given; open_ = inv.open_; alone = inv.alone }, within)
  after_send-Inv (some e) response key sub s was within inv =
      (Inv-dropped key sub s was within inv, IsWithin-dropped key sub s within)

  push_loop-Inv :
      (env : Surroundings) (response : Response) (es : Subscribers) (s : AdsServer)
      → WereThere es s₀
      → IsWithin s s₀
      → Inv s
      → Inv (push_loop env response es s)
  unfolding push_loop
  push_loop-Inv env response [] s were within inv = inv
  push_loop-Inv env response ((key, sub) ∷ rest) s were within inv =
      let (inv', within') =
        after_send-Inv (env.send sub.stream response) response key sub s
          (were key sub (Memᴰ.head refl)) within inv in
      push_loop-Inv env response rest _ (λ id p m. were id p (Memᴰ.tail m)) within' inv'

  close_all-Inv :
      (es : Subscribers) (s : AdsServer)
      → WereThere es s₀
      → IsWithin s s₀
      → Inv s
      → Inv (close_all es s)
  unfolding close_all
  close_all-Inv [] s were within inv = inv
  close_all-Inv ((key, sub) ∷ rest) s were within inv =
      close_all-Inv rest _ (λ id p m. were id p (Memᴰ.tail m)) (IsWithin-dropped key sub s within)
        (Inv-dropped key sub s (were key sub (Memᴰ.head refl)) within inv)

-- A delivery leaves the subscribers and the closed streams alone.
Inv-deliver :
    (o : Option Error) (downstream : Stream) (response : Response) (s : AdsServer)
    → Inv s
    → Inv (deliver o downstream response s)
Inv-deliver none downstream response s inv = record {
  own = inv.own;
  given = inv.given;
  open_ = inv.open_;
  alone = inv.alone;
}
Inv-deliver (some e) downstream response s inv = inv

module _ (s : AdsServer) (inv : Inv s) where
  Inv-ask :
      (env : Surroundings) (downstream : Stream) (type_url version : Text)
      → Inv (on_discovery_request env downstream type_url version s)
  unfolding on_discovery_request send_to_stream
  Inv-ask env downstream type_url version =
      elim (Bool-cases (federation.Common.text_eq version [])) [
        | inl first ↦ rw first (Inv-deliver _ downstream _ s inv)
        | inr again ↦ rw again inv
      ]

  Inv-push_resources :
      (env : Surroundings) (request : PushRequest) (r : Result (List Any))
      → VisitsSubscribers env.range
      → Inv (push_resources env request r s).0
  unfolding push_resources
  Inv-push_resources env request (err e) visits = inv
  Inv-push_resources env request (ok resources) visits =
      push_loop-Inv s inv env _ (env.range s.subscribers) s
        (λ id p m. visits.only s.subscribers id p m) (λ id p h. h) inv

  Inv-push :
      (env : Surroundings) (request : PushRequest)
      → VisitsSubscribers env.range
      → Inv (push env request s).0
  unfolding push
  Inv-push env request visits = elim (Bool-cases (subscribers_len env s == 0)) [
    | inl nobody ↦ rw nobody inv
    | inr somebody ↦ rw somebody (Inv-push_resources env request _ visits)
  ]

  Inv-close : (env : Surroundings) → VisitsSubscribers env.range → Inv (close_subscribers env s)
  unfolding close_subscribers
  Inv-close env visits =
      close_all-Inv s inv (env.range s.subscribers) s (λ id p m. visits.only s.subscribers id p m)
        (λ id p h. h) inv

  Inv-connect :
      (downstream : Stream)
      → IsNew downstream s
      → s.next_subscriber_id + 1 < 2 ^ 64
      → Inv (stream_aggregated_resources downstream s)
  unfolding stream_aggregated_resources
  Inv-connect downstream new room =
      let n = s.next_subscriber_id + 1 in
      let small : n % 2 ^ 64 ≡ n = omega arith in
      rw small (record {
        own = λ id p h. own_of id p (split id p h);
        given = λ id p h. given_of id p (split id p h);
        open_ = λ id p h. open_of id p (split id p h);
        alone = λ id id' p p' h h' e. alone_of id id' p p' (split id p h) (split id' p' h') e;
      })
    where
      fresh : Subscriber
      fresh = record { id = s.next_subscriber_id + 1; stream = downstream }

      split :
          (id : ℕ) (p : Subscriber)
          → lookup id (insert (s.next_subscriber_id + 1) fresh s.subscribers) ≡ some p
          → ((id ≡ s.next_subscriber_id + 1) × (p ≡ fresh)) ⊎ (lookup id s.subscribers ≡ some p)
      split id p h =
          let e = sym (lookup-insert (s.next_subscriber_id + 1) id fresh s.subscribers) ∙ h in
          elim (Bool-cases ((s.next_subscriber_id + 1) == id)) [
            | inl same ↦
                let q = (==_iff (s.next_subscriber_id + 1) id).0 same in
                let r : some fresh ≡ some p = rw same at e in inl (sym q, cc)
            | inr other ↦ inr (rw other at e)
          ]

      own_of :
          (id : ℕ) (p : Subscriber)
          → ((id ≡ s.next_subscriber_id + 1) × (p ≡ fresh)) ⊎ (lookup id s.subscribers ≡ some p)
          → p.id ≡ id
      own_of id p (inl (q, r)) = ap (λ (x : Subscriber). x.id) r ∙ sym q
      own_of id p (inr h) = inv.own id p h

      given_of :
          (id : ℕ) (p : Subscriber)
          → ((id ≡ s.next_subscriber_id + 1) × (p ≡ fresh)) ⊎ (lookup id s.subscribers ≡ some p)
          → id ≤ s.next_subscriber_id + 1
      given_of id p (inl (q, r)) = omega arith
      given_of id p (inr h) = let old = inv.given id p h in omega arith

      open_of :
          (id : ℕ) (p : Subscriber)
          → ((id ≡ s.next_subscriber_id + 1) × (p ≡ fresh)) ⊎ (lookup id s.subscribers ≡ some p)
          → ¬ Memᴰ p.stream s.closed
      open_of id p (inl (q, r)) m =
          new.unclosed (subst (λ (x : Subscriber). Memᴰ x.stream s.closed) r m)
      open_of id p (inr h) m = inv.open_ id p h m

      alone_of :
          (id id' : ℕ) (p p' : Subscriber)
          → ((id ≡ s.next_subscriber_id + 1) × (p ≡ fresh)) ⊎ (lookup id s.subscribers ≡ some p)
          → ((id' ≡ s.next_subscriber_id + 1) × (p' ≡ fresh)) ⊎ (lookup id' s.subscribers ≡ some p')
          → p.stream ≡ p'.stream
          → id ≡ id'
      alone_of id id' p p' (inl (q, r)) (inl (q', r')) e = q ∙ sym q'
      alone_of id id' p p' (inl (q, r)) (inr h') e =
          absurd (new.unused id' p' h' (sym e ∙ ap (λ (x : Subscriber). x.stream) r))
      alone_of id id' p p' (inr h) (inl (q', r')) e =
          absurd (new.unused id p h (e ∙ ap (λ (x : Subscriber). x.stream) r'))
      alone_of id id' p p' (inr h) (inr h') e = inv.alone id id' p p' h h' e

Step-Inv : {s t : AdsServer} → Step s t → Inv s → Inv t
Step-Inv {s} (connect downstream new room) inv = Inv-connect s inv downstream new room
Step-Inv {s} (ask env downstream type_url version) inv =
    Inv-ask s inv env downstream type_url version
Step-Inv {s} (broadcast env request visits) inv = Inv-push s inv env request visits
Step-Inv {s} (visit env response key sub there) inv =
    (after_send-Inv s inv (env.send sub.stream response) response key sub s there (λ id p h. h)
      inv).0
Step-Inv {s} (drop key sub there) inv = Inv-dropped s inv key sub s there (λ id p h. h) inv
Step-Inv {s} (stop env visits) inv = Inv-close s inv env visits

-- In every state that the server can reach, each subscriber stands under its own number, which was
-- given out, on a stream that was not closed and that no other subscriber has.
pub Reach-Inv : {s : AdsServer} → Reach s → Inv s
unfolding lookup
Reach-Inv start = record {
  own = λ id sub h. absurd (cc);
  given = λ id sub h. absurd (cc);
  open_ = λ id sub h. absurd (cc);
  alone = λ id id' sub sub' h h' e. absurd (cc);
}
Reach-Inv (later r st) = Step-Inv st (Reach-Inv r)
