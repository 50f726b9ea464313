-- ===== src/Kube/Sync/Settled.antt =====
-- When `sync` has nothing to do.
use mathlib.Core.List.{Memᴰ}
use federation.Common.{◌≡◌, refl, true, Option, none, some, List, [], ◌∷◌, ok}
use federation.Common.GoMap.{lookup}
use federation.Common.Outcomes.{done}
use federation.Config.{Labels}
use federation.Kubernetes.{Object}
use federation.Kube.Api.{Api, NamespacedName, name_key, Range, to_map}
use federation.Kube.Sync.{
  Step, Contexts, for_each, needs_apply, apply_if, delete_unless, apply_body, delete_body, sync,
}
use federation.Kube.Sync.Maps.{Visits}

-- What is wanted under a name against what is listed there.
abbrev pub Agrees :
    {S Spec : Type 0} → Api S Spec → Option (Object Spec) → Option (Object Spec) → Type 0
Agrees api (some o) (some x) = api.deep_equal x.spec o.spec ≡ true
Agrees api none none = Unit
Agrees api _ _ = ⊥

module _ {S Spec : Type 0} (api : Api S Spec) (range : Range Spec) (visits : Visits range)
    (contexts : Contexts) where
  -- Rounds that do nothing make a loop that does nothing.
  idle_loop :
      {A : Type 0} (body : A → Step S) (es : List A) (s : S)
      → ((a : A) → Memᴰ a es → body a s ≡ (s, done tt))
      → for_each body es s ≡ (s, done tt)
  unfolding for_each
  idle_loop body [] s h = refl
  idle_loop body (a ∷ rest) s h =
      rw (h a (Memᴰ.head refl)) (idle_loop body rest s (λ b m. h b (Memᴰ.tail m)))

  apply_idle :
      (o : Object Spec) (v : Option (Object Spec)) (s : S)
      → Agrees api (some o) v
      → apply_if api contexts (needs_apply api contexts o v) o s ≡ (s, done tt)
  unfolding needs_apply
  apply_idle o none s h = absurd h
  apply_idle o (some x) s h = rw h refl

  delete_idle :
      (o x : Object Spec) (w : Option (Object Spec)) (s : S)
      → Agrees api w (some x)
      → delete_unless api contexts w o s ≡ (s, done tt)
  delete_idle o x (some w) s h = refl
  delete_idle o x none s h = absurd h

  -- If the listed objects are, name by name, the wanted ones with deeply equal specs, a run makes no
  -- change: the state is the same, and there is no error.
  pub sync_settled :
      (selector : Labels) (wanted old : List (Object Spec)) (s : S)
      → api.list selector s ≡ ok old
      → ((k : NamespacedName) → Agrees api (lookup k (to_map wanted)) (lookup k (to_map old)))
      → sync api range contexts selector wanted s ≡ (s, done tt)
  unfolding sync
  sync_settled selector wanted old s listing agree = rw listing (
      rw (idle_loop (apply_body api contexts (to_map old)) (range (to_map wanted)) s applies)
        (idle_loop (delete_body api contexts (to_map wanted)) (range (to_map old)) s deletes))
    where
      applies :
          (a : NamespacedName × Object Spec)
          → Memᴰ a (range (to_map wanted))
          → apply_body api contexts (to_map old) a s ≡ (s, done tt)
      applies (k, o) m =
          apply_idle o (lookup k (to_map old)) s
            (rw (visits.only (to_map wanted) k o m) at (agree k))

      deletes :
          (a : NamespacedName × Object Spec)
          → Memᴰ a (range (to_map old))
          → delete_body api contexts (to_map wanted) a s ≡ (s, done tt)
      deletes (k, x) m =
          delete_idle x x (lookup k (to_map wanted)) s
            (rw (visits.only (to_map old) k x m) at (agree k))
