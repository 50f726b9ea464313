-- ===== src/Controllers/MeshFederation/Outcomes.antt =====
-- How a run of the controller ends.
use mathlib.Core.List.{foldl}
use federation.Common.{
  ◌≡◌, refl, subst, ◌⊎◌, inl, inr, Bool, true, false, Bool-cases, Option, none, some, List, [], ◌∷◌,
  Text, codes, Error, wrap, is_not_found, Result, ok, err,
}
use federation.Kube.Api.{NamespacedName}
use federation.Controllers.{ObjectClient, World, interrupted}
use federation.Controllers.Retry.{RetryOnConflict, Retries, retry_status_update}
use federation.Controllers.Retry.Kept.{Versioned, KeepsIdentity, Applied, retry_call-Applied}
use federation.Controllers.MeshFederation.{
  MeshFederation, Conditions, with_conditions, available, set_all, merged, update_conditions,
  on_get, reconcile,
}

module _ {S M L C : Type 0} (util : Conditions C) (client : ObjectClient S (MeshFederation M L C))
    (retry : RetryOnConflict S) (retries : Retries retry)
    (v : Versioned client client.update_status)
    (keeps : (f : List C → List C)
      → KeepsIdentity v (λ (saved : MeshFederation M L C).
        with_conditions saved (f saved.status.conditions))) where
  -- The conditions set one after the other, with what `SetStatusCondition` leaves each time.
  abbrev pub in_turn : List C → List C → List C
  in_turn conditions saved = foldl (λ cs c. (util.set_status_condition cs c).0) saved conditions

  set_all_lem :
      (conditions saved : List C) → set_all util conditions saved ≡ in_turn conditions saved
  unfolding set_all
  set_all_lem [] saved = refl
  set_all_lem (c ∷ rest) saved = set_all_lem rest (util.set_status_condition saved c).0

  -- An object with the conditions set on its own, and all else of it as it was.
  abbrev pub with_all : List C → MeshFederation M L C → MeshFederation M L C
  with_all conditions saved = record {
    object_meta = saved.object_meta;
    spec = saved.spec;
    status = record { conditions = in_turn conditions saved.status.conditions };
  }

  -- The last write put in place of an object of this name the object with its conditions changed.
  Changes : (List C → List C) → NamespacedName → World S → Type 0
  Changes f k w =
      Applied client client.update_status v
        (λ (saved : MeshFederation M L C). with_conditions saved (f saved.status.conditions))
        (keeps f) k w

  Changes-in_turn :
      (conditions : List C) (k : NamespacedName) (w : World S)
      → Changes (set_all util conditions) k w
      → Applied client client.update_status v (with_all conditions) (keeps (in_turn conditions)) k w
  unfolding Changes
  Changes-in_turn conditions k w h =
      subst (λ f. Changes f k w) (λ i saved. set_all_lem conditions saved i) h

  -- The object of this name got its status written, with these conditions set in turn on those that it
  -- had at that moment, or there is an error.
  abbrev pub Written : MeshFederation M L C → List C → World S × Option Error → Type 0
  Written x conditions (w, e) =
      ((e ≡ none)
        × Applied client client.update_status v (with_all conditions) (keeps (in_turn conditions))
            (client.key_of x) w)
      ⊎ ((error : Error) × (e ≡ some error))

  -- By what `SetStatusCondition` left.
  abbrev pub Changed :
      MeshFederation M L C → List C × Bool → World S → World S × Option Error → Type 0
  Changed x (conditions, changed) w r =
      ((changed ≡ false) × (r ≡ (w, none))) ⊎ ((changed ≡ true) × Written x conditions r)

  -- By the result of `Get`, on the world before the run.
  unfoldable pub Outcome :
      Text → Result (MeshFederation M L C) → World S → World S × Option Error → Type 0
  Outcome reason (err e) w r =
      ((is_not_found e ≡ true) × (r ≡ (w, none)))
      ⊎ ((is_not_found e ≡ false) × (r ≡ (w, some (wrap reason e))))
  Outcome reason (ok x) w r =
      Changed x
        (util.set_status_condition x.status.conditions (
          util.condition (codes "Available") (codes "True") (codes "MeshFederationReconciled")
            (codes "Reconcile completed successfully")))
        w r

  update-Written :
      (x : MeshFederation M L C) (conditions : List C) (w : World S)
      → Written x conditions (update_conditions util client retry x (conditions, true) w)
  unfolding retry_status_update Changes
  update-Written x conditions w =
      ends
        (retry_status_update client retry (with_conditions x conditions)
          (merged util client retry conditions) w)
        (λ well.
          subst
            (λ (k : NamespacedName).
              Changes (set_all util conditions) k
                (retry_status_update client retry (with_conditions x conditions)
                  (merged util client retry conditions) w).0)
            ((keeps (λ _. conditions)).key_of x)
            (retry_call-Applied client client.update_status v (merged util client retry conditions)
              (keeps (set_all util conditions)) retry (with_conditions x conditions) w retries
              well))
    where
      ends :
          (r : World S × Option Error)
          → (r.1 ≡ none → Changes (set_all util conditions) (client.key_of x) r.0)
          → Written x conditions r
      ends (w', none) f = inl (refl, Changes-in_turn conditions (client.key_of x) w' (f refl))
      ends (w', some e) f = inr (e, refl)

  by_change :
      (x : MeshFederation M L C) (c : List C × Bool) (w : World S)
      → Changed x c w (update_conditions util client retry x c w)
  by_change x (conditions, false) w = inl (refl, refl)
  by_change x (conditions, true) w = inr (refl, update-Written x conditions w)

  on_error :
      (e : Error) (reason : Text) (w : World S)
      → Outcome reason (err e) w (on_get util client retry reason (err e) w)
  unfolding Outcome
  on_error e reason w = elim (Bool-cases (is_not_found e)) [
    | inl gone ↦ rw gone (inl (refl, refl))
    | inr other ↦ rw other (inr (refl, refl))
  ]

  -- A run changes nothing if the object is not found, cannot be fetched, which is its error, or has the
  -- condition already; else the status of the stored object is written with the conditions that
  -- the run found, and the new one, set in turn on those that it has at that moment, or there is an
  -- error. The object may have been read from a cache.
  pub reconcile_cases :
      (name : NamespacedName) (reason : Text) (w : World S)
      → Outcome reason
          (client.get name (interrupted w).server)
          (interrupted w)
          (reconcile util client retry name reason w)
  unfolding reconcile Outcome
  reconcile_cases name reason w = by_get (client.get name (interrupted w).server)
    where
      by_get :
          (r : Result (MeshFederation M L C))
          → Outcome reason r (interrupted w) (on_get util client retry reason r (interrupted w))
      by_get (err e) = on_error e reason (interrupted w)
      by_get (ok x) =
          by_change x (util.set_status_condition x.status.conditions (available util))
            (interrupted w)
