-- ===== src/Kube/Sync/Apart.antt =====
-- What a run leaves alone if its client does.
use federation.Common.{Bool, true, false, Option, none, some, List, Text, Result, ok, err}
use federation.Common.GoMap.{lookup}
use federation.Config.{Labels}
use federation.Kubernetes.{Object}
use federation.Kube.Api.{Api, NamespacedName, name_key, key, Range, to_map}
use federation.Kube.Sync.{
  Step, Contexts, report, apply_if, apply_body, needs_apply, delete_unless, delete_body,
  sync_listed, sync,
}
use federation.Kube.Sync.Loops.{and_then_keeps, for_each_keeps}
use federation.Kube.Sync.Rounds.{report_state, report_found_state}

-- The calls that write keep `P`.
pub record IsApart {S Spec : Type 0} (P : S → Type 0) (api : Api S Spec) : Type 0 where
  pub applied : (o : Object Spec) (s : S) → P s → P (api.apply o s).0
  pub deleted : (k : NamespacedName) (s : S) → P s → P (api.delete k s).0

-- A step keeps `P`, however it ends.
abbrev pub Keeps : {S : Type 0} → (S → Type 0) → Step S → Type 0
Keeps {S} P step = (s : S) → P s → P (step s).0

module _ {S Spec : Type 0} (P : S → Type 0) (api : Api S Spec) (apart : IsApart P api) where
  pub Keeps-apply :
      (context : Text) (o : Object Spec) → Keeps P (λ s. report context (api.apply o s))
  Keeps-apply context o s p = rw (report_state context (api.apply o s)) (apart.applied o s p)

  module _ (contexts : Contexts) where
    Keeps-apply_if : (b : Bool) (o : Object Spec) → Keeps P (apply_if api contexts b o)
    Keeps-apply_if true o s p = Keeps-apply contexts.apply o s p
    Keeps-apply_if false o s p = p

    Keeps-delete_unless :
        (wanted : Option (Object Spec)) (o : Object Spec)
        → Keeps P (delete_unless api contexts wanted o)
    Keeps-delete_unless none o s p =
        rw (report_found_state contexts.delete (api.delete (key o) s)) (apart.deleted (key o) s p)
    Keeps-delete_unless (some w) o s p = p

    Keeps-sync_listed :
        (range : Range Spec) (wanted : List (Object Spec)) (r : Result (List (Object Spec)))
        → Keeps P (sync_listed api range contexts wanted r)
    unfolding sync_listed apply_body delete_body
    Keeps-sync_listed range wanted (err e) s p = p
    Keeps-sync_listed range wanted (ok old) s p =
        and_then_keeps P _ _
          (for_each_keeps (apply_body api contexts (to_map old)) P (range (to_map wanted))
            (λ (k, o) m. Keeps-apply_if (needs_apply api contexts o (lookup k (to_map old))) o) s p)
          (for_each_keeps (delete_body api contexts (to_map wanted)) P (range (to_map old))
            (λ (k, o) m. Keeps-delete_unless (lookup k (to_map wanted)) o))

    -- A run keeps what the calls of its client keep.
    pub Keeps-sync :
        (range : Range Spec) (selector : Labels) (wanted : List (Object Spec))
        → Keeps P (sync api range contexts selector wanted)
    unfolding sync
    Keeps-sync range selector wanted s p = Keeps-sync_listed range wanted (api.list selector s) s p
