-- ===== src/Controllers/Predicate.antt =====
-- internal/controller/predicate.go, and the filter of events that SetupWithManager of
-- internal/controller/meshfederation/meshfederation_controller.go sets. The generation predicate and
-- `predicate.Or` are controller-runtime's, as documented.
use federation.Common.{
  ℕ, ◌≡◌, ◌≢◌, ◌↔◌, inl, inr, refl, sym, Bool, true, false, not, ◌&&◌, ◌||◌, ◌==◌, ==_iff, List, [],
  ◌∷◌, Text, text_eq, text_eq_iff, arith, Bool-cases,
}

-- The metadata that filters look at.
pub record Meta : Type 0 where
  pub generation : ℕ
  pub finalizers : List Text

pub data ObjectEvent : Type 0 where
  created : Meta → ObjectEvent
  updated : Meta → Meta → ObjectEvent  -- old, new
  deleted : Meta → ObjectEvent
  generic : Meta → ObjectEvent

-- `reflect.DeepEqual` on slices of strings that are not nil.
unfoldable pub texts_deep_equal : List Text → List Text → Bool
texts_deep_equal [] [] = true
texts_deep_equal (x ∷ xs) (y ∷ ys) = let rest = texts_deep_equal xs ys in text_eq x y && rest
texts_deep_equal [] (y ∷ ys) = false
texts_deep_equal (x ∷ xs) [] = false

-- `FinalizerChanged`: predicate.Funcs passes an event whose function is not set.
unfoldable pub finalizer_changed : ObjectEvent → Bool
finalizer_changed (created o) = true
finalizer_changed (updated old new) = not (texts_deep_equal new.finalizers old.finalizers)
finalizer_changed (deleted o) = true
finalizer_changed (generic o) = true

-- `WithEventFilter`, over GenerationChangedPredicate.
unfoldable pub event_filter : (ObjectEvent → Bool) → ObjectEvent → Bool
event_filter generation_changed e = generation_changed e || finalizer_changed e

pub texts_deep_equal_iff : (xs ys : List Text) → (texts_deep_equal xs ys ≡ true) ↔ (xs ≡ ys)
unfolding texts_deep_equal
texts_deep_equal_iff [] [] = (λ h. refl, λ h. refl)
texts_deep_equal_iff [] (y ∷ ys) = (λ h. absurd (cc), λ h. absurd (cc))
texts_deep_equal_iff (x ∷ xs) [] = (λ h. absurd (cc), λ h. absurd (cc))
texts_deep_equal_iff (x ∷ xs) (y ∷ ys) =
    let rest = texts_deep_equal_iff xs ys in ground (arith, text_eq_iff x y)

-- GenerationChangedPredicate, on updates.
pub record Documented (generation_changed : ObjectEvent → Bool) : Type 0 where
  pub on_update :
      (old new : Meta)
      → (generation_changed (updated old new) ≡ true) ↔ (old.generation ≢ new.generation)

-- An update reaches the controller exactly if it changes the generation or the finalizers, and so not
-- when it changes only the status, as the controller's own updates do.
pub event_filter_iff :
    (generation_changed : ObjectEvent → Bool) (old new : Meta)
    → Documented generation_changed
    → (event_filter generation_changed (updated old new) ≡ false)
      ↔ ((old.generation ≡ new.generation) × (old.finalizers ≡ new.finalizers))
unfolding event_filter finalizer_changed
event_filter_iff generation_changed old new d =
    let same = texts_deep_equal_iff new.finalizers old.finalizers in
    let gen = d.on_update old new in
    (
      λ h.
          let (kept, unchanged) = neither (generation_changed (updated old new)) _ h in
          (same_number (λ ne. let on = gen.1 ne in cc), sym (same.0 unchanged)),
      λ (kept, unchanged). both_off (λ on. gen.0 on kept) (same.1 (sym unchanged)),
    )
  where
    neither : (a b : Bool) → (a || not b) ≡ false → (a ≡ false) × (b ≡ true)
    neither a b h = ground arith

    same_number : ¬ (old.generation ≢ new.generation) → old.generation ≡ new.generation
    same_number h = elim (Bool-cases (old.generation == new.generation)) [
      | inl e ↦ (==_iff old.generation new.generation).0 e
      | inr other ↦ absurd (h (λ q. let e = (==_iff old.generation new.generation).1 q in cc))
    ]

    both_off : {a b : Bool} → ¬ (a ≡ true) → b ≡ true → (a || not b) ≡ false
    both_off h e = ground arith
