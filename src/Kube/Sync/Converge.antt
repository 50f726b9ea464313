-- ===== src/Kube/Sync/Converge.antt =====
-- What a run of `sync` leaves behind.
use federation.Common.{
  ◌≡◌, ◌≢◌, refl, ap, ◌∙◌, sym, subst, inl, inr, ◌⊎◌, Bool, true, false, Bool-cases, none, some,
  List,
}
use federation.Common.GoMap.{lookup}
use federation.Common.Outcomes.{Outcome, done}
use federation.Kubernetes.{Object}
use federation.Kube.Api.{
  Api, Documented, NamespacedName, name_key, same_name, same_name_iff, key, ObjectMap, Range,
  to_map,
}
use federation.Kube.Sync.{
  Contexts, for_each, needs_apply, apply_if, delete_unless, apply_body, delete_body,
}
use federation.Kube.Sync.Loops.{for_each_keeps, for_each_does}
use federation.Kube.Sync.Maps.{Visits, to_map_keyed}
use federation.Kube.Sync.Rounds.{
  HasSpec, apply_if_else, delete_unless_else, applied_well, deleted_well, no_need,
}

-- Two names are one or not.
name_cases : (j k : NamespacedName) → (j ≡ k) ⊎ (j ≢ k)
name_cases j k = elim (Bool-cases (same_name j k)) [
  | inl e ↦ inl ((same_name_iff j k).0 e)
  | inr n ↦ inr (λ e. absurd (let bad = sym n ∙ (same_name_iff j k).1 e in cc))
]

module _ {S Spec : Type 0} (api : Api S Spec) (doc : Documented api) (range : Range Spec)
    (visits : Visits range) (contexts : Contexts) where
  open doc use {view}

  -- The first loop does not touch a name that is not wanted, however it ends.
  pub apply_loop_else :
      (old : ObjectMap Spec) (wanted : List (Object Spec)) (s : S) (k : NamespacedName)
      → lookup k (to_map wanted) ≡ none
      → view (for_each (apply_body api contexts old) (range (to_map wanted)) s).0 k ≡ view s k
  unfolding apply_body
  apply_loop_else old wanted s k h =
      for_each_keeps (apply_body api contexts old) (λ t. view t k ≡ view s k)
        (range (to_map wanted))
        (λ (j, o) m t e.
          let there = visits.only (to_map wanted) j o m in
          let ne : key o ≢ k = λ q.
            let at_k : j ≡ k = sym (to_map_keyed wanted j o there) ∙ q in
            let clash = sym h ∙ ap (λ n. lookup n (to_map wanted)) (sym at_k) ∙ there in cc in
          apply_if_else api doc contexts (needs_apply api contexts o (lookup j old)) o t k ne ∙ e)
        s refl

  -- The second loop does not touch a wanted name, nor one that was not listed, however it ends.
  pub delete_loop_else :
      (old wanted : List (Object Spec)) (s : S) (k : NamespacedName)
      → ((w : Object Spec) × (lookup k (to_map wanted) ≡ some w)) ⊎ (lookup k (to_map old) ≡ none)
      → view (for_each (delete_body api contexts (to_map wanted)) (range (to_map old)) s).0 k
        ≡ view s k
  unfolding delete_body
  delete_loop_else old wanted s k h =
      for_each_keeps (delete_body api contexts (to_map wanted)) (λ t. view t k ≡ view s k)
        (range (to_map old)) (λ (j, o) m t e. round j o t (visits.only (to_map old) j o m) h ∙ e) s
        refl
    where
      round :
          (j : NamespacedName) (o : Object Spec) (t : S)
          → lookup j (to_map old) ≡ some o
          → ((w : Object Spec) × (lookup k (to_map wanted) ≡ some w))
            ⊎ (lookup k (to_map old) ≡ none)
          → view (delete_unless api contexts (lookup j (to_map wanted)) o t).0 k ≡ view t k
      round j o t there c = elim (name_cases (key o) k) [
        | inr ne ↦ delete_unless_else api doc contexts (lookup j (to_map wanted)) o t k ne
        | inl q ↦
            let at_k : j ≡ k = sym (to_map_keyed old j o there) ∙ q in
            elim c [
              | inl (w, e) ↦ rw (ap (λ n. lookup n (to_map wanted)) at_k ∙ e) refl
              | inr e ↦
                  absurd
                    (let clash = sym e ∙ ap (λ n. lookup n (to_map old)) (sym at_k) ∙ there in cc)
            ]
      ]

  module _ (old : ObjectMap Spec) (wanted : List (Object Spec)) (s : S) (k : NamespacedName)
      (o : Object Spec) (h : lookup k (to_map wanted) ≡ some o)
      (seen : (x : Object Spec) → lookup k old ≡ some x → view s k ≡ some x) where
    -- Under `k` there is the wanted spec, or still what was there at the start.
    Fine : S → Type 0
    Fine t = HasSpec (view t k) o ⊎ (view t k ≡ view s k)

    -- A round for the name `k` itself.
    round_if :
        (b : Bool) (t : S)
        → (key o ≡ k)
        → needs_apply api contexts o (lookup k old) ≡ b
        → Fine t
        → (apply_if api contexts b o t).1 ≡ done tt
        → HasSpec (view (apply_if api contexts b o t).0 k) o
    unfolding Fine
    round_if true t at_k need fine well =
        subst (λ n. HasSpec (view (apply_if api contexts true o t).0 n) o) at_k
          (applied_well api doc contexts o t well)
    round_if false t at_k need (inl there) well = there
    round_if false t at_k need (inr same) well =
        let (x, found, spec) = no_need api doc contexts o (lookup k old) need in
        (x, same ∙ seen x found, spec)

    round_here :
        (j : NamespacedName) (p : Object Spec) (t : S)
        → lookup j (to_map wanted) ≡ some p
        → key p ≡ k
        → Fine t
        → (apply_body api contexts old (j, p) t).1 ≡ done tt
        → HasSpec (view (apply_body api contexts old (j, p) t).0 k) o
    unfolding apply_body
    round_here j p t there at_k fine well =
        let j_k : j ≡ k = sym (to_map_keyed wanted j p there) ∙ at_k in
        let both : some p ≡ some o = sym there ∙ ap (λ n. lookup n (to_map wanted)) j_k ∙ h in
        let p_o : p ≡ o = cc in
        let need = needs_apply api contexts o (lookup k old) in
        let same : apply_if api contexts (needs_apply api contexts p (lookup j old)) p t
            ≡ apply_if api contexts need o t =
          cc in
        rw same (
          round_if need t (to_map_keyed wanted k o h) refl fine
            (ap (λ (r : S × Outcome (Unit {0})). r.1) (sym same) ∙ well))

    round_else :
        (j : NamespacedName) (p : Object Spec) (t : S)
        → key p ≢ k
        → view (apply_body api contexts old (j, p) t).0 k ≡ view t k
    unfolding apply_body
    round_else j p t ne =
        apply_if_else api doc contexts (needs_apply api contexts p (lookup j old)) p t k ne

    -- A first loop that ended well leaves the wanted spec.
    pub apply_loop_does :
        (for_each (apply_body api contexts old) (range (to_map wanted)) s).1 ≡ done tt
        → HasSpec (view (for_each (apply_body api contexts old) (range (to_map wanted)) s).0 k) o
    unfolding Fine
    apply_loop_does =
        for_each_does (apply_body api contexts old) Fine (λ t. HasSpec (view t k) o)
          (range (to_map wanted)) (k, o) (visits.each (to_map wanted) k o h)
          (λ (j, p) m t fine well. elim (name_cases (key p) k) [
            | inl q ↦ inl (round_here j p t (visits.only (to_map wanted) j p m) q fine well)
            | inr ne ↦ rw (round_else j p t ne) fine
          ])
          (λ t fine well. round_here k o t h (to_map_keyed wanted k o h) fine well)
          (λ (j, p) m t there well. elim (name_cases (key p) k) [
            | inl q ↦ round_here j p t (visits.only (to_map wanted) j p m) q (inl there) well
            | inr ne ↦ rw (round_else j p t ne) there
          ])
          s (inr refl)

  -- A second loop that ended well leaves nothing under a name that was listed and is not wanted.
  pub delete_loop_does :
      (old wanted : List (Object Spec)) (s : S) (k : NamespacedName) (x : Object Spec)
      → lookup k (to_map old) ≡ some x
      → lookup k (to_map wanted) ≡ none
      → (for_each (delete_body api contexts (to_map wanted)) (range (to_map old)) s).1 ≡ done tt
      → view (for_each (delete_body api contexts (to_map wanted)) (range (to_map old)) s).0 k ≡ none
  unfolding delete_body
  delete_loop_does old wanted s k x there gone =
      for_each_does (delete_body api contexts (to_map wanted)) (λ t. Unit) (λ t. view t k ≡ none)
        (range (to_map old)) (k, x) (visits.each (to_map old) k x there) (λ b m t u well. tt)
        (λ t u well. remove k x t refl (to_map_keyed old k x there) well)
        (λ (j, o) m t e well. elim (name_cases (key o) k) [
          | inl q ↦
              let j_k : j ≡ k = sym (to_map_keyed old j o (visits.only (to_map old) j o m)) ∙ q in
              remove j o t j_k q well
          | inr ne ↦ delete_unless_else api doc contexts (lookup j (to_map wanted)) o t k ne ∙ e
        ])
        s tt
    where
      remove :
          (j : NamespacedName) (o : Object Spec) (t : S)
          → j ≡ k
          → key o ≡ k
          → (delete_unless api contexts (lookup j (to_map wanted)) o t).1 ≡ done tt
          → view (delete_unless api contexts (lookup j (to_map wanted)) o t).0 k ≡ none
      remove j o t j_k q well =
          let e : lookup j (to_map wanted) ≡ none = ap (λ n. lookup n (to_map wanted)) j_k ∙ gone in
          rw e (
            subst (λ n. view (delete_unless api contexts none o t).0 n ≡ none) q
              (deleted_well api doc contexts o t (rw e at well)))
