-- ===== src/Controllers/Retry/Kept.antt =====
-- What is stored after an update that was tried again.
use federation.Common.{
  ◌≡◌, refl, ap, subst, sym, ◌∙◌, ◌⊎◌, Option, none, some, List, Text, Error, Result, ok, err,
}
use federation.Kube.Api.{NamespacedName}
use federation.Controllers.{ObjectClient, World, interrupted}
use federation.Controllers.Retry.{
  RetryOnConflict, Retries, Attempts, last, again, attempt, write_back, copied, retry_call,
}

-- What Kubernetes documents of versioned objects, for one of the client's calls that write: `view` is
-- what the server has, and `Same` relates objects that agree in what the call writes.
pub record Versioned {S O : Type 0} (client : ObjectClient S O)
    (update_fn : O → S → S × Option Error) : Type 1 where
  pub view : S → NamespacedName → Option O
  pub version : O → Text
  pub Same : O → O → Type 0
  -- Marked for deletion and without finalizers.
  pub Leaving : O → Type 0
  -- `Get` may answer from a cache: with what the server had at some time.
  pub got :
      (k : NamespacedName) (s : S) (x : O) → client.get k s ≡ ok x → (t : S) × (view t k ≡ some x)
  pub named : (k : NamespacedName) (s : S) (x : O) → view s k ≡ some x → client.key_of x ≡ k
  -- Objects of one name that bear one version are one object.
  pub unchanged :
      (k : NamespacedName) (s t : S) (x y : O)
      → view s k ≡ some x
      → view t k ≡ some y
      → version x ≡ version y
      → x ≡ y
  -- A write succeeds only over the version that it bears, and then stores the object, or removes it if
  -- nothing holds back its deletion.
  pub over_version :
      (o : O) (s : S)
      → (update_fn o s).1 ≡ none
      → (x : O) × (view s (client.key_of o) ≡ some x) × (version x ≡ version o)
  pub stored :
      (o : O) (s : S)
      → (update_fn o s).1 ≡ none
      → ((y : O) × (view (update_fn o s).0 (client.key_of o) ≡ some y) × Same y o)
        ⊎ ((view (update_fn o s).0 (client.key_of o) ≡ none) × Leaving o)

-- A mutation leaves the name and the version of an object alone.
pub record KeepsIdentity {S O : Type 0} {client : ObjectClient S O}
    {update_fn : O → S → S × Option Error} (v : Versioned client update_fn) (mutate : O → O)
    : Type 0 where
  pub key_of : (x : O) → client.key_of (mutate x) ≡ client.key_of x
  pub version : (x : O) → v.version (mutate x) ≡ v.version x

module _ {S O : Type 0} (client : ObjectClient S O) (update_fn : O → S → S × Option Error)
    (v : Versioned client update_fn) (mutate : O → O) (keeps : KeepsIdentity v mutate) where
  -- The last write turned the object that was there into the mutation of it.
  pub record Applied (k : NamespacedName) (final : World S) : Type 0 where
    pub before : S
    pub current : O
    pub there : v.view before k ≡ some current
    pub written : final.server ≡ (update_fn (mutate current) before).0
    pub result :
        ((y : O) × (v.view final.server k ≡ some y) × v.Same y (mutate current))
        ⊎ ((v.view final.server k ≡ none) × v.Leaving (mutate current))

  written-Applied :
      (k : NamespacedName) (s t : S) (x : O) (others : List (S → S))
      → v.view s k ≡ some x
      → (update_fn (mutate x) t).1 ≡ none
      → Applied k (record { server = (update_fn (mutate x) t).0; others = others })
  written-Applied k s t x others h well =
      let at_k : client.key_of (mutate x) ≡ k = keeps.key_of x ∙ v.named k s x h in
      let (y, here, versions) = v.over_version (mutate x) t well in
      let here' : v.view t k ≡ some y = ap (v.view t) (sym at_k) ∙ here in
      let one : x ≡ y = v.unchanged k s t x y h here' (sym (versions ∙ keeps.version x)) in
      record {
        before = t;
        current = x;
        there = here' ∙ ap some (sym one);
        written = refl;
        result =
            subst
              (λ (n : NamespacedName).
                ((z : O) × (v.view (update_fn (mutate x) t).0 n ≡ some z) × v.Same z (mutate x))
                ⊎ ((v.view (update_fn (mutate x) t).0 n ≡ none) × v.Leaving (mutate x)))
              at_k (v.stored (mutate x) t well);
      }

  write_back-Applied :
      (k : NamespacedName) (now : World S) (r : Result O)
      → client.get k now.server ≡ r
      → (write_back client update_fn mutate r now).1 ≡ none
      → Applied k (write_back client update_fn mutate r now).0
  write_back-Applied k now (err e) h well = absurd (cc)
  write_back-Applied k now (ok x) h well =
      let (seen, there) = v.got k now.server x h in
      written-Applied k seen (interrupted now).server x (interrupted now).others there well

  Attempts-Applied :
      (k : NamespacedName) (w : World S) (r : World S × Option Error)
      → Attempts (attempt client update_fn mutate k) w r
      → r.1 ≡ none
      → Applied k r.0
  unfolding attempt
  Attempts-Applied k w r (last e) well =
      subst (λ (q : World S × Option Error). Applied k q.0) e
        (write_back-Applied k (interrupted w) (client.get k (interrupted w).server) refl
          (ap (λ (q : World S × Option Error). q.1) e ∙ well))
  Attempts-Applied k w r (again clash more) well = Attempts-Applied k _ r more well

  -- A retried update that returns no error has, with its last write, put in place of the object that
  -- was stored at that moment the mutation of that object, or removed it if nothing holds back its
  -- deletion: whatever others wrote before, between the attempts or within them, is not lost.
  pub retry_call-Applied :
      (retry : RetryOnConflict S) (original : O) (w : World S)
      → Retries retry
      → (retry_call client retry update_fn original mutate w).1 ≡ none
      → Applied (client.key_of original) (retry_call client retry update_fn original mutate w).0
  unfolding retry_call
  retry_call-Applied retry original w retries well = by_copy (client.deep_copy original) well
    where
      by_copy :
          (o : Option O)
          → (copied client retry update_fn mutate (client.key_of original) o w).1 ≡ none
          → Applied
              (client.key_of original)
              (copied client retry update_fn mutate (client.key_of original) o w).0
      by_copy none h = absurd (cc)
      by_copy (some c) h =
          Attempts-Applied (client.key_of original) w _
            (retries (attempt client update_fn mutate (client.key_of original)) w) h
