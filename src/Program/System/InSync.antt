-- ===== src/Program/System/InSync.antt =====
-- What it means that the objects of a kind on the API server are those that were generated, which runs
-- bring them there and which calls keep them there.
use federation.Common.{◌≡◌, refl, inl, inr, Bool, Bool-cases, Option, none, some, List, Error}
use federation.Common.GoMap.{lookup, text_key}
use federation.Common.Outcomes.{Outcome, done, fail, panic}
use federation.Config.{Labels}
use federation.Kubernetes.{Object, peer_label}
use federation.Istio.{ServiceEntrySpec, WorkloadEntrySpec}
use federation.Kube.Api.{Api, Documented, NamespacedName, name_key, Range, to_map, labelled}
use federation.Kube.Sync.{Contexts, sync}
use federation.Kube.Sync.Apart.{IsApart}
use federation.Kube.Sync.Correct.{AsWanted, sync_converges}
use federation.Kube.Sync.Maps.{Visits}
use federation.Kube.Sync.Rounds.{HasSpec}
use federation.Kube.Reconcilers.{with_wanted}
use federation.Program.Reconcilers.{Cluster}
use federation.Program.System.Apart.{RestApart}

-- What a name holds is what is wanted there: the spec, or nothing with the label.
abbrev pub Holds :
    {Spec : Type 0}
    → (Labels → Labels → Bool)
    → Option (Object Spec)
    → Option (Object Spec)
    → Type 0
Holds matches (some o) v = HasSpec v o
Holds matches none v = labelled matches peer_label v ≡ none

Holds-AsWanted :
    {Spec : Type 0} (matches : Labels → Labels → Bool) (wanted before after : Option (Object Spec))
    → AsWanted matches peer_label wanted before after
    → Holds matches wanted after
Holds-AsWanted matches (some o) before after h = h
Holds-AsWanted matches none none after h = rw h refl
Holds-AsWanted matches none (some x) after h = elim (Bool-cases (matches peer_label x.labels)) [
  | inl shown ↦ let gone : after ≡ none = rw shown at h in rw gone refl
  | inr hidden ↦ let kept : after ≡ some x = rw hidden at h in rw kept (rw hidden refl)
]

-- The calls for the other kinds leave service entries alone.
pub record LeavesView {S Spec Other : Type 0} (view : S → NamespacedName → Option (Object Spec))
    (api : Api S Other) : Type 0 where
  pub applied :
      (o : Object Other) (s : S) (k : NamespacedName) → view (api.apply o s).0 k ≡ view s k
  pub deleted :
      (j : NamespacedName) (s : S) (k : NamespacedName) → view (api.delete j s).0 k ≡ view s k

-- The calls for kinds other than service and workload entries.
pub record LeaveView {S Spec : Type 0} (cluster : Cluster S)
    (view : S → NamespacedName → Option (Object Spec)) : Type 0 where
  pub gateways : LeavesView view cluster.gateways
  pub peer_authentications : LeavesView view cluster.peer_authentications
  pub destination_rules : LeavesView view cluster.destination_rules
  pub envoy_filters : LeavesView view cluster.envoy_filters
  pub routes : LeavesView view cluster.routes

-- The calls for the other kinds leave service entries alone.
pub record KindsApart {S : Type 0} (cluster : Cluster S)
    (view : S → NamespacedName → Option (Object ServiceEntrySpec)) : Type 0 where
  pub rest : LeaveView cluster view
  pub workload_entries : LeavesView view cluster.workload_entries

-- The calls for the other kinds leave workload entries alone.
pub record WorkloadsApart {S : Type 0} (cluster : Cluster S)
    (view : S → NamespacedName → Option (Object WorkloadEntrySpec)) : Type 0 where
  pub rest : LeaveView cluster view
  pub service_entries : LeavesView view cluster.service_entries

module _ {S Spec : Type 0} (api : Api S Spec) (doc : Documented api) where
  -- What was generated was so without an error, and it is what the server has.
  abbrev pub IsBuilt : Outcome (List (Object Spec)) → S → Type 0
  IsBuilt built s =
      (wanted : List (Object Spec)) × (built ≡ done wanted)
      × ((k : NamespacedName) → Holds doc.matches (lookup k (to_map wanted)) (doc.view s k))

  pub IsBuilt-IsApart :
      {Other : Type 0} (other : Api S Other) (built : Outcome (List (Object Spec)))
      → LeavesView doc.view other
      → IsApart (IsBuilt built) other
  IsBuilt-IsApart other built leaves = record {
    applied = λ o s (w, e, h). (w, e, λ k. rw (leaves.applied o s k) (h k));
    deleted = λ j s (w, e, h). (w, e, λ k. rw (leaves.deleted j s k) (h k));
  }

  pub IsBuilt-RestApart :
      (cluster : Cluster S) (built : Outcome (List (Object Spec)))
      → LeaveView cluster doc.view
      → RestApart (IsBuilt built) cluster
  IsBuilt-RestApart cluster built kinds = record {
    gateways = IsBuilt-IsApart cluster.gateways built kinds.gateways;
    peer_authentications =
        IsBuilt-IsApart cluster.peer_authentications built kinds.peer_authentications;
    destination_rules = IsBuilt-IsApart cluster.destination_rules built kinds.destination_rules;
    envoy_filters = IsBuilt-IsApart cluster.envoy_filters built kinds.envoy_filters;
    routes = IsBuilt-IsApart cluster.routes built kinds.routes;
  }

  -- A run that ends well brings about what was generated.
  pub sync-IsBuilt :
      (range : Range Spec) (contexts : Contexts) (context : Error → Error)
      (built : Outcome (List (Object Spec))) (s : S)
      → Visits range
      → (with_wanted context built (sync api range contexts peer_label) s).1 ≡ done tt
      → IsBuilt built (with_wanted context built (sync api range contexts peer_label) s).0
  sync-IsBuilt range contexts context (done wanted) s visits well = (
    wanted,
    refl,
    λ k.
        Holds-AsWanted doc.matches (lookup k (to_map wanted)) (doc.view s k) _
          (sync_converges api doc range visits contexts peer_label wanted s k well),
  )
  sync-IsBuilt range contexts context (fail x) s visits well = absurd (cc)
  sync-IsBuilt range contexts context panic s visits well = absurd (cc)
