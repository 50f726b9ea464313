-- ===== src/Kube/Sync/Correct.antt =====
-- The contract of `sync`: what the API server has after it.
use federation.Common.{
  ◌≡◌, refl, ap, ◌∙◌, sym, inl, inr, Bool, Bool-cases, Option, none, some, Option-cases, arith,
  List, Result, ok, err,
}
use federation.Common.GoMap.{lookup}
use federation.Common.Outcomes.{Outcome, done}
use federation.Config.{Labels}
use federation.Kubernetes.{Object}
use federation.Kube.Api.{
  Api, Documented, NamespacedName, name_key, Range, to_map, labelled, leftover,
}
use federation.Kube.Sync.{Contexts, and_then, for_each, apply_body, delete_body, sync_listed, sync}
use federation.Kube.Sync.Loops.{and_then_done, and_then_keeps}
use federation.Kube.Sync.Maps.{Visits}
use federation.Kube.Sync.Rounds.{HasSpec}
use federation.Kube.Sync.Converge.{
  apply_loop_else, delete_loop_else, apply_loop_does, delete_loop_does,
}

-- What a name should hold, from what it held: the wanted spec; or, where nothing is wanted, what
-- was there without the label.
abbrev pub AsWanted :
    {Spec : Type 0}
    → (Labels → Labels → Bool)
    → Labels
    → Option (Object Spec)
    → Option (Object Spec)
    → Option (Object Spec)
    → Type 0
AsWanted matches selector (some o) before after = HasSpec after o
AsWanted matches selector none before after = after ≡ leftover matches selector before

-- An object that a listing shows is there.
shown :
    {Spec : Type 0} (matches : Labels → Labels → Bool) (selector : Labels)
    (v : Option (Object Spec)) (x : Object Spec)
    → labelled matches selector v ≡ some x
    → v ≡ some x
shown matches selector none x h = absurd (cc)
shown matches selector (some y) x h = ground arith

module _ {S Spec : Type 0} (api : Api S Spec) (doc : Documented api) (range : Range Spec)
    (visits : Visits range) (contexts : Contexts) where
  open doc use {view, matches}

  module _ (selector : Labels) (wanted old : List (Object Spec)) (s : S) (k : NamespacedName)
      (listing : api.list selector s ≡ ok old) where
    -- The two loops after the listing.
    abbrev first : S × Outcome (Unit {0})
    first = for_each (apply_body api contexts (to_map old)) (range (to_map wanted)) s

    abbrev second : S → S × Outcome (Unit {0})
    second t = for_each (delete_body api contexts (to_map wanted)) (range (to_map old)) t

    -- A name that is not wanted and not listed is left alone, however the loops end.
    loops_else :
        lookup k (to_map wanted) ≡ none
        → lookup k (to_map old) ≡ none
        → view (and_then first second).0 k ≡ view s k
    loops_else unwanted unlisted =
        and_then_keeps (λ t. view t k ≡ view s k) first second
          (apply_loop_else api doc range visits contexts (to_map old) wanted s k unwanted)
          (λ t e. delete_loop_else api doc range visits contexts old wanted t k (inr unlisted) ∙ e)

    unwanted_case :
        (v : Option (Object Spec))
        → view s k ≡ v
        → lookup k (to_map wanted) ≡ none
        → (and_then first second).1 ≡ done tt
        → view (and_then first second).0 k ≡ leftover matches selector v
    unwanted_case none e unwanted well =
        loops_else unwanted (doc.listed selector s old k listing ∙ ap (labelled matches selector) e)
        ∙ e
    unwanted_case (some x) e unwanted well =
        let at_k = doc.listed selector s old k listing ∙ ap (labelled matches selector) e in
        elim (Bool-cases (matches selector x.labels)) [
          | inl yes_label ↦
              let (well1, e') = and_then_done first second well in
              let there : lookup k (to_map old) ≡ some x = rw yes_label at at_k in
              rw yes_label (
                rw e' (
                  delete_loop_does api doc range visits contexts old wanted first.0 k x there
                    unwanted (ap (λ (r : S × Outcome (Unit {0})). r.1) (sym e') ∙ well)))
          | inr no_label ↦
              let absent : lookup k (to_map old) ≡ none = rw no_label at at_k in
              rw no_label (loops_else unwanted absent ∙ e)
        ]

    wanted_case :
        (o : Object Spec)
        → lookup k (to_map wanted) ≡ some o
        → (and_then first second).1 ≡ done tt
        → HasSpec (view (and_then first second).0 k) o
    wanted_case o there well =
        let (well1, e) = and_then_done first second well in
        let seen : (x : Object Spec) → lookup k (to_map old) ≡ some x → view s k ≡ some x = λ x h.
          shown matches selector (view s k) x (sym (doc.listed selector s old k listing) ∙ h) in
        let stays =
          delete_loop_else api doc range visits contexts old wanted first.0 k (inl (o, there)) in
        rw e (
          rw stays (
            apply_loop_does api doc range visits contexts (to_map old) wanted s k o there seen
              well1))

  listed_case :
      (selector : Labels) (wanted : List (Object Spec)) (s : S) (k : NamespacedName)
      (r : Result (List (Object Spec)))
      → api.list selector s ≡ r
      → (sync_listed api range contexts wanted r s).1 ≡ done tt
      → AsWanted matches selector
          (lookup k (to_map wanted))
          (view s k)
          (view (sync_listed api range contexts wanted r s).0 k)
  unfolding sync_listed
  listed_case selector wanted s k (err e) listing well = absurd (cc)
  listed_case selector wanted s k (ok old) listing well =
      elim (Option-cases (lookup k (to_map wanted))) [
        | inl none_wanted ↦
            rw none_wanted
              (unwanted_case selector wanted old s k listing (view s k) refl none_wanted well)
        | inr (o, there) ↦ rw there (wanted_case selector wanted old s k listing o there well)
      ]

  -- If the calls to the server succeed, then under every name there is afterwards the spec of the
  -- object wanted there, and where none is wanted, nothing that bears the label, and else what was
  -- there before.
  pub sync_converges :
      (selector : Labels) (wanted : List (Object Spec)) (s : S) (k : NamespacedName)
      → (sync api range contexts selector wanted s).1 ≡ done tt
      → AsWanted matches selector
          (lookup k (to_map wanted))
          (view s k)
          (view (sync api range contexts selector wanted s).0 k)
  unfolding sync
  sync_converges selector wanted s k well =
      listed_case selector wanted s k (api.list selector s) refl well

  untouched_case :
      (selector : Labels) (wanted : List (Object Spec)) (s : S) (k : NamespacedName)
      (r : Result (List (Object Spec)))
      → api.list selector s ≡ r
      → lookup k (to_map wanted) ≡ none
      → labelled matches selector (view s k) ≡ none
      → view (sync_listed api range contexts wanted r s).0 k ≡ view s k
  unfolding sync_listed
  untouched_case selector wanted s k (err e) listing unwanted hidden = refl
  untouched_case selector wanted s k (ok old) listing unwanted hidden =
      loops_else selector wanted old s k listing unwanted
        (doc.listed selector s old k listing ∙ hidden)

  -- Whatever calls fail, an object that is neither wanted nor bears the label is as it was.
  pub sync_untouched :
      (selector : Labels) (wanted : List (Object Spec)) (s : S) (k : NamespacedName)
      → lookup k (to_map wanted) ≡ none
      → labelled matches selector (view s k) ≡ none
      → view (sync api range contexts selector wanted s).0 k ≡ view s k
  unfolding sync
  sync_untouched selector wanted s k unwanted hidden =
      untouched_case selector wanted s k (api.list selector s) refl unwanted hidden
