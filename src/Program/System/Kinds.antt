-- ===== src/Program/System/Kinds.antt =====
-- The kinds whose objects follow the imports, as what the program's invariants need of them, and the
-- service and workload entries as such.
use federation.Common.{
  ◌≡◌, refl, sym, ap, subst, ◌∙◌, inl, inr, true, Option, none, some, Text, text_eq,
}
use mathlib.Core.List.{Memᴰ}
use federation.Common.GoMap.{lookup, text_key}
use federation.Common.Outcomes.{done}
use federation.Config.{Federation}
use federation.Kubernetes.{ServiceLister}
use federation.Xds.{
  PushRequest, gateway_type_url, service_entry_type_url, workload_entry_type_url, route_type_url,
  peer_authentication_type_url, destination_rule_type_url, envoy_filter_type_url,
}
use federation.Fds.Store.{ImportedServiceStore}
use federation.Fds.Import.{import_pushes}
use federation.Istio as IstioModel
use federation.Istio.{Library}
use federation.Istio.ServiceEntries.{service_entries}
use federation.Istio.WorkloadEntries.{workload_entries}
use federation.Kube.Api.{Documented, name_key}
use federation.Kube.Sync.{Step}
use federation.Kube.Sync.Maps.{Visits}
use federation.Kube.Reconcilers.{
  reconcile_service_entries, reconcile_workload_entries, service_entry_contexts,
  workload_entry_contexts,
}
use federation.Kube.Reconcilers.Apart.{
  Keeps-reconcile_service_entries, Keeps-reconcile_workload_entries,
}
use federation.Kube.Manager.{Reconciler}
use federation.Program.Reconcilers.{Cluster, istio_factory}
use federation.Program.Reconcilers.Served.{is_some, is_one_of, needed_types, served-eq-needed}
use federation.Program.System.{sources, manager, run_service_entries, run_workload_entries}
use federation.Program.System.Apart.{RoleOf, IsEntryType, different, manager-Role}
use federation.Program.System.InSync.{
  IsBuilt, IsBuilt-IsApart, IsBuilt-RestApart, sync-IsBuilt, KindsApart, WorkloadsApart,
}

-- A type with its run and what that brings about, which all other runs keep; an import asks for it.
pub record Kind {S : Type 0} (cluster : Cluster S) (lib : Library) (cfg : Federation) (ns : Text)
    (lister : ServiceLister) : Type 1 where
  pub url : Text
  pub run : ImportedServiceStore → Step S
  pub Synced : ImportedServiceStore → S → Type 0
  pub syncs :
      (store : ImportedServiceStore) (s : S)
      → (run store s).1 ≡ done tt
      → Synced store (run store s).0
  pub role :
      (store : ImportedServiceStore) (u : Text) (r : Reconciler S)
      → lookup u (manager cluster lib cfg ns lister store) ≡ some r
      → RoleOf (Synced store) url (run store) u r.reconcile
  pub needed : is_one_of (needed_types cfg) url ≡ true
  pub asked_for : (q : PushRequest) × Memᴰ q import_pushes × (q.type_url ≡ url)

module _ {S : Type 0} {cluster : Cluster S} {lib : Library} {cfg : Federation} {ns : Text}
    {lister : ServiceLister} (kind : Kind cluster lib cfg ns lister) where
  -- A reconciler that has the kind's run, run without an error, brings it about.
  pub ran-Synced :
      (store : ImportedServiceStore) (r : Reconciler S)
      → r.reconcile ≡ kind.run store
      → (s : S) → (r.reconcile s).1 ≡ done tt
      → kind.Synced store (r.reconcile s).0
  ran-Synced store r q s well =
      subst (λ (step : Step S). kind.Synced store (step s).0) (sym q)
        (kind.syncs store s (ap (λ (step : Step S). (step s).1) (sym q) ∙ well))

  -- Each of the manager's reconcilers, run without an error, keeps it.
  pub kept_by-Synced :
      (store : ImportedServiceStore) (url : Text) (r : Reconciler S)
      → lookup url (manager cluster lib cfg ns lister store) ≡ some r
      → (s : S) → kind.Synced store s
      → (r.reconcile s).1 ≡ done tt
      → kind.Synced store (r.reconcile s).0
  kept_by-Synced store url r found s p well = elim (kind.role store url r found) [
    | inl (same, q) ↦ ran-Synced store r q s well
    | inr (other, keeps) ↦ keeps s p
  ]

  -- The manager has its reconciler.
  pub kind_served :
      (store : ImportedServiceStore)
      → (r : Reconciler S) × (lookup kind.url (manager cluster lib cfg ns lister store) ≡ some r)
        × (r.reconcile ≡ kind.run store)
  kind_served store = by_found (lookup kind.url (manager cluster lib cfg ns lister store)) refl (
      served-eq-needed cluster lib cfg ns (sources cluster lib cfg ns lister store) kind.url
      ∙ kind.needed)
    where
      by_found :
          (o : Option (Reconciler S))
          → lookup kind.url (manager cluster lib cfg ns lister store) ≡ o
          → is_some o ≡ true
          → (r : Reconciler S) × (lookup kind.url (manager cluster lib cfg ns lister store)
              ≡ some r)
            × (r.reconcile ≡ kind.run store)
      by_found none e h = absurd (cc)
      by_found (some r) e h = elim (kind.role store kind.url r e) [
        | inl (same, q) ↦ (r, e, q)
        | inr (other, keeps) ↦ absurd (other refl)
      ]

module _ {S : Type 0} (cluster : Cluster S) (doc : Documented cluster.service_entries)
    (visits : Visits cluster.range_service_entries) (kinds : KindsApart cluster doc.view)
    (lib : Library) (cfg : Federation) (ns : Text) (lister : ServiceLister) where
  abbrev pub factory : ImportedServiceStore → IstioModel.ConfigFactory
  factory store = istio_factory cfg ns (sources cluster lib cfg ns lister store)

  -- The service entries are those that the imports of the store want.
  abbrev pub InSync : ImportedServiceStore → S → Type 0
  InSync store s = IsBuilt cluster.service_entries doc (service_entries lib (factory store)) s

  pub services-IsEntryType : IsEntryType service_entry_type_url
  unfolding text_eq
  services-IsEntryType = record {
    gateways = different gateway_type_url service_entry_type_url refl;
    peer_authentications = different peer_authentication_type_url service_entry_type_url refl;
    destination_rules = different destination_rule_type_url service_entry_type_url refl;
    envoy_filters = different envoy_filter_type_url service_entry_type_url refl;
    routes = different route_type_url service_entry_type_url refl;
  }

  unfoldable pub service_entries_kind : Kind cluster lib cfg ns lister
  unfolding text_eq is_one_of reconcile_service_entries
  service_entries_kind = record {
    url = service_entry_type_url;
    run = run_service_entries cluster lib cfg ns lister;
    Synced = InSync;
    syncs = λ store s well.
        sync-IsBuilt cluster.service_entries doc cluster.range_service_entries
          service_entry_contexts _ (service_entries lib (factory store)) s visits well;
    role = λ store.
        manager-Role (InSync store) service_entry_type_url
          (run_service_entries cluster lib cfg ns lister store) cluster
          (IsBuilt-RestApart cluster.service_entries doc cluster _ kinds.rest) services-IsEntryType
          lib cfg ns lister store (inl (refl, refl))
          (inr (
            different workload_entry_type_url service_entry_type_url refl,
            Keeps-reconcile_workload_entries (InSync store) _ _ lib _
                (IsBuilt-IsApart cluster.service_entries doc _ _ kinds.workload_entries),
          ));
    needed = refl;
    asked_for =
        (record { type_url = service_entry_type_url; resources = none }, Memᴰ.head refl, refl);
  }

module _ {S : Type 0} (cluster : Cluster S) (doc : Documented cluster.workload_entries)
    (visits : Visits cluster.range_workload_entries) (kinds : WorkloadsApart cluster doc.view)
    (lib : Library) (cfg : Federation) (ns : Text) (lister : ServiceLister) where
  -- The workload entries are those that the imports of the store want.
  abbrev pub WorkloadsInSync : ImportedServiceStore → S → Type 0
  WorkloadsInSync store s =
      IsBuilt cluster.workload_entries doc
        (workload_entries lib (istio_factory cfg ns (sources cluster lib cfg ns lister store))) s

  pub workloads-IsEntryType : IsEntryType workload_entry_type_url
  unfolding text_eq
  workloads-IsEntryType = record {
    gateways = different gateway_type_url workload_entry_type_url refl;
    peer_authentications = different peer_authentication_type_url workload_entry_type_url refl;
    destination_rules = different destination_rule_type_url workload_entry_type_url refl;
    envoy_filters = different envoy_filter_type_url workload_entry_type_url refl;
    routes = different route_type_url workload_entry_type_url refl;
  }

  unfoldable pub workload_entries_kind : Kind cluster lib cfg ns lister
  unfolding text_eq is_one_of reconcile_workload_entries
  workload_entries_kind = record {
    url = workload_entry_type_url;
    run = run_workload_entries cluster lib cfg ns lister;
    Synced = WorkloadsInSync;
    syncs = λ store s well.
        sync-IsBuilt cluster.workload_entries doc cluster.range_workload_entries
          workload_entry_contexts _ (workload_entries lib _) s visits well;
    role = λ store.
        manager-Role (WorkloadsInSync store) workload_entry_type_url
          (run_workload_entries cluster lib cfg ns lister store) cluster
          (IsBuilt-RestApart cluster.workload_entries doc cluster _ kinds.rest)
          workloads-IsEntryType lib cfg ns lister store
          (inr (
            different service_entry_type_url workload_entry_type_url refl,
            Keeps-reconcile_service_entries (WorkloadsInSync store) _ _ lib _
                (IsBuilt-IsApart cluster.workload_entries doc _ _ kinds.service_entries),
          ))
          (inl (refl, refl));
    needed = refl;
    asked_for = (
      record { type_url = workload_entry_type_url; resources = none },
      Memᴰ.tail (Memᴰ.head refl),
      refl,
    );
  }
