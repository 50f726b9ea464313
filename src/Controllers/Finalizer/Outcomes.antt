-- ===== src/Controllers/Finalizer/Outcomes.antt =====
-- What is stored once a finalizer was added or removed.
use federation.Common.{
  ◌≡◌, refl, ◌∙◌, ◌⊎◌, inl, inr, Bool, true, false, ◌&&◌, not, Option, none, some, Text, Error,
  if◌then◌else◌, Bool-cases,
}
use federation.Controllers.{ObjectClient, World}
use federation.Controllers.Retry.{Attempt, RetryOnConflict, Retries, retry_update}
use federation.Controllers.Retry.Kept.{Versioned, KeepsIdentity, retry_call-Applied}
use federation.Controllers.Finalizer.{
  Finalizers, adding, removing, add, finalize, after_cleanup, with_answer, Handled,
}

clash : {b : Bool} → b ≡ true → b ≡ false → ⊥
clash present absent = cc

-- What controllerutil documents, for one name of a finalizer.
pub record Documented {S O : Type 0} {client : ObjectClient S O}
    (v : Versioned client client.update) (util : Finalizers O) (finalizer_name : Text)
    : Type 0 where
  pub add_contains : (o : O) → util.contains (util.add o finalizer_name).0 finalizer_name ≡ true
  pub add_unchanged :
      (o : O)
      → (util.add o finalizer_name).1 ≡ false
      → (util.contains o finalizer_name ≡ true) × ((util.add o finalizer_name).0 ≡ o)
  pub remove_lacks : (o : O) → util.contains (util.remove o finalizer_name).0 finalizer_name ≡ false
  pub add_keeps : KeepsIdentity v (λ o. (util.add o finalizer_name).0)
  pub remove_keeps : KeepsIdentity v (λ o. (util.remove o finalizer_name).0)
  pub same_contains :
      (x y : O) → v.Same x y → util.contains x finalizer_name ≡ util.contains y finalizer_name
  pub leaving_lacks : (o : O) → v.Leaving o → util.contains o finalizer_name ≡ false

module _ {S O : Type 0} (client : ObjectClient S O) (retry : RetryOnConflict S)
    (retries : Retries retry) (util : Finalizers O) (finalizer_name : Text)
    (v : Versioned client client.update) (documented : Documented v util finalizer_name) where
  -- Under the name of the object is one with the finalizer.
  abbrev pub Held : O → World S → Type 0
  Held obj w =
      (y : O) × (v.view w.server (client.key_of obj) ≡ some y)
      × (util.contains y finalizer_name ≡ true)

  -- Under the name of the object is nothing, or an object without the finalizer.
  abbrev pub Released : O → World S → Type 0
  Released obj w =
      ((y : O) × (v.view w.server (client.key_of obj) ≡ some y)
        × (util.contains y finalizer_name ≡ false))
      ⊎ (v.view w.server (client.key_of obj) ≡ none)

  added_Held :
      (obj : O) (w : World S)
      → (retry_update client retry obj (adding client retry util finalizer_name) w).1 ≡ none
      → Held obj (retry_update client retry obj (adding client retry util finalizer_name) w).0
  unfolding retry_update
  added_Held obj w well =
      let done =
        retry_call-Applied client client.update v (λ o. (util.add o finalizer_name).0)
          documented.add_keeps retry obj w retries well in
      elim done.result [
        | inl (y, there, same) ↦
            (y, there, documented.same_contains y _ same ∙ documented.add_contains done.current)
        | inr (gone, leaving) ↦ absurd (
            clash (documented.add_contains done.current) (
              documented.leaving_lacks (adding client retry util finalizer_name done.current)
                leaving))
      ]

  removed_Released :
      (obj : O) (w : World S)
      → (retry_update client retry obj (removing client retry util finalizer_name) w).1 ≡ none
      → Released obj (retry_update client retry obj (removing client retry util finalizer_name) w).0
  unfolding retry_update
  removed_Released obj w well =
      let done =
        retry_call-Applied client client.update v (λ o. (util.remove o finalizer_name).0)
          documented.remove_keeps retry obj w retries well in
      elim done.result [
        | inl (y, there, same) ↦
            inl (y, there, documented.same_contains y _ same ∙ documented.remove_lacks done.current)
        | inr (gone, leaving) ↦ inr gone
      ]

  -- After a write: no error and `P` of the world, or an error.
  abbrev pub Either : (World S → Type 0) → Handled S → Type 0
  Either P r = ((r.failed ≡ none) × P r.after) ⊎ ((x : Error) × (r.failed ≡ some x))

  either :
      (P : World S → Type 0) (b : Bool) (r : World S × Option Error)
      → (r.1 ≡ none → P r.0)
      → Either P (with_answer client retry util finalizer_name b r)
  either P b (w, none) f = inl (refl, f refl)
  either P b (w, some x) f = inr (x, refl)

  -- How `Add` ends: the object had the finalizer, and nothing changed; or it had not, and is stored
  -- with it, or there is an error.
  unfoldable pub AddOutcome : O → World S → O × Handled S → Type 0
  AddOutcome obj w (obj', r) =
      ((util.contains obj finalizer_name ≡ true)
        × (obj' ≡ obj)
        × (r ≡ record { after = w; answer = true; failed = none }))
      ⊎ ((util.contains obj' finalizer_name ≡ true) × (r.answer ≡ false) × Either (Held obj') r)

  pub add_cases :
      (obj : O) (w : World S) → AddOutcome obj w (add client retry util finalizer_name obj w)
  unfolding add AddOutcome
  add_cases obj w = elim (Bool-cases (util.add obj finalizer_name).1) [
    | inl updated ↦ rw updated (
        inr (
          documented.add_contains obj,
          refl,
          either (Held (util.add obj finalizer_name).0) false
              (retry_update client retry (util.add obj finalizer_name).0
                (adding client retry util finalizer_name) w)
              (added_Held (util.add obj finalizer_name).0 w),
        ))
    | inr same ↦
        let (had, kept) = documented.add_unchanged obj same in rw same (inl (had, kept, refl))
  ]

  -- How `Finalize` ends: there is nothing to do, and nothing changed; the clean-up failed, and the
  -- finalizer was left alone; or it succeeded, and the finalizer is removed, or there is an error.
  unfoldable pub FinalizeOutcome : O → World S → World S × Option Error → Handled S → Type 0
  FinalizeOutcome obj w (cleaned, e) r =
      ((util.deleting obj && util.contains obj finalizer_name ≡ false)
        × (r ≡ record { after = w; answer = false; failed = none }))
      ⊎ ((util.deleting obj && util.contains obj finalizer_name ≡ true)
          × (r.answer ≡ true)
          × (((x : Error) × (e ≡ some x) × (r.after ≡ cleaned) × (r.failed ≡ some x))
              ⊎ ((e ≡ none) × Either (Released obj) r)))

  cleaned_cases :
      (obj : O) (w : World S) (c : World S × Option Error)
      → util.deleting obj && util.contains obj finalizer_name ≡ true
      → FinalizeOutcome obj w c (after_cleanup client retry util finalizer_name obj c)
  unfolding FinalizeOutcome
  cleaned_cases obj w (w', some x) needed = inr (needed, refl, inl (x, refl, refl, refl))
  cleaned_cases obj w (w', none) needed = inr (
    needed,
    refl,
    inr (
      refl,
      either (Released obj) true
          (retry_update client retry obj (removing client retry util finalizer_name) w')
          (removed_Released obj w'),
    ),
  )

  pub finalize_cases :
      (obj : O) (cleanup_fn : Attempt S) (w : World S)
      → FinalizeOutcome obj w
          (cleanup_fn w)
          (finalize client retry util finalizer_name obj cleanup_fn w)
  unfolding finalize FinalizeOutcome
  finalize_cases obj cleanup_fn w =
      by_need (util.deleting obj && util.contains obj finalizer_name) refl
    where
      by_need :
          (needed : Bool)
          → util.deleting obj && util.contains obj finalizer_name ≡ needed
          → FinalizeOutcome obj w (cleanup_fn w) (
              if not needed
              then record { after = w; answer = false; failed = none }
              else after_cleanup client retry util finalizer_name obj (cleanup_fn w))
      by_need true h = cleaned_cases obj w (cleanup_fn w) h
      by_need false h = inl (h, refl)
