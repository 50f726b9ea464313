-- ===== src/Program/System/Apart.antt =====
-- Which of the manager's reconcilers change what a type's reconciler brings about.
use federation.Common.{
  ◌≡◌, ◌≢◌, sym, subst, ◌∙◌, ◌⊎◌, inl, inr, Bool, Bool-cases, true, false, some, List, [], ◌∷◌,
  ◌++◌, Text, text_eq, text_eq_iff, All, All-append, if◌then◌else◌,
}
use federation.Common.GoMap.{lookup, insert, lookup-insert, text_key}
use federation.Config.{Federation, any_remote_peer_with_openshift_router_ingress, is_router}
use federation.Kubernetes.{ServiceLister}
use federation.Xds.{
  gateway_type_url, service_entry_type_url, workload_entry_type_url, route_type_url,
  peer_authentication_type_url, destination_rule_type_url, envoy_filter_type_url,
}
use federation.Istio.{Library}
use federation.Fds.Store.{ImportedServiceStore}
use federation.Kube.Sync.{Step}
use federation.Kube.Sync.Apart.{IsApart, Keeps}
use federation.Kube.Reconcilers.Apart.{
  Keeps-reconcile_gateway, Keeps-reconcile_peer_authentication, Keeps-reconcile_destination_rules,
  Keeps-reconcile_envoy_filters, Keeps-reconcile_routes,
}
use federation.Kube.Manager.{Reconciler, ReconcilerManager, new_reconciler_manager, register}
use federation.Program.Reconcilers.{
  Cluster, Sources, reconcilers, always, for_router_peers, for_local_router,
}
use federation.Program.System.{sources, manager, run_service_entries, run_workload_entries}

-- The calls for kinds other than service and workload entries keep `P`.
pub record RestApart {S : Type 0} (P : S → Type 0) (cluster : Cluster S) : Type 0 where
  pub gateways : IsApart P cluster.gateways
  pub peer_authentications : IsApart P cluster.peer_authentications
  pub destination_rules : IsApart P cluster.destination_rules
  pub envoy_filters : IsApart P cluster.envoy_filters
  pub routes : IsApart P cluster.routes

-- A type is none of theirs.
pub record IsEntryType (own : Text) : Type 0 where
  pub gateways : gateway_type_url ≢ own
  pub peer_authentications : peer_authentication_type_url ≢ own
  pub destination_rules : destination_rule_type_url ≢ own
  pub envoy_filters : envoy_filter_type_url ≢ own
  pub routes : route_type_url ≢ own

pub different : (url own : Text) → text_eq url own ≡ false → url ≢ own
different url own h e = let same = (text_eq_iff url own).1 e in cc

-- A run for a type is that of the type at hand, or one of another type, which keeps `P`.
abbrev pub RoleOf : {S : Type 0} → (S → Type 0) → Text → Step S → Text → Step S → Type 0
RoleOf P own run url step = ((url ≡ own) × (step ≡ run)) ⊎ ((url ≢ own) × Keeps P step)

-- Every entry of the map, and every new one, is as `R` says.
pub registered :
    {S : Type 0} (R : Text → Reconciler S → Type 0) (m : ReconcilerManager S)
    (rs : List (Reconciler S))
    → ((url : Text) (r : Reconciler S) → lookup url m ≡ some r → R url r)
    → All (λ r. R r.type_url r) rs
    → (url : Text) (r : Reconciler S) → lookup url (register m rs) ≡ some r
    → R url r
unfolding register
registered R m [] old new = old
registered R m (q ∷ qs) old (here, more) = registered R (insert q.type_url q m) qs both more
  where
    both : (url : Text) (r : Reconciler _) → lookup url (insert q.type_url q m) ≡ some r → R url r
    both url r h =
        let e = sym (lookup-insert q.type_url url q m) ∙ h in
        elim (Bool-cases (text_eq q.type_url url)) [
          | inl same ↦
              let k : q.type_url ≡ url = (text_eq_iff q.type_url url).0 same in
              let f : some q ≡ some r = rw same at e in
              let g : q ≡ r = cc in subst (λ (u : Text). R u r) k (subst (R q.type_url) g here)
          | inr other ↦ old url r (rw other at e)
        ]

module _ {S : Type 0} (P : S → Type 0) (own : Text) (run : Step S) (cluster : Cluster S)
    (rest : RestApart P cluster) (entry : IsEntryType own) (lib : Library) (cfg : Federation)
    (ns : Text) (lister : ServiceLister) (store : ImportedServiceStore)
    (service : RoleOf P own run service_entry_type_url
      (run_service_entries cluster lib cfg ns lister store))
    (workload : RoleOf P own run workload_entry_type_url
      (run_workload_entries cluster lib cfg ns lister store)) where
  abbrev Role : Reconciler S → Type 0
  Role r = RoleOf P own run r.type_url r.reconcile

  abbrev src : Sources
  src = sources cluster lib cfg ns lister store

  roles-always : All Role (always cluster lib cfg ns src)
  roles-always = (
    inr (entry.gateways, Keeps-reconcile_gateway P _ _ rest.gateways),
    (
      service,
      (
        workload,
        (
          inr (
            entry.peer_authentications,
            Keeps-reconcile_peer_authentication P _ ns rest.peer_authentications,
          ),
          tt,
        ),
      ),
    ),
  )

  roles-router_peers :
      (b : Bool) → All Role (if b then for_router_peers cluster lib cfg ns src else [])
  roles-router_peers true = (
    inr (entry.destination_rules, Keeps-reconcile_destination_rules P _ _ _ rest.destination_rules),
    tt,
  )
  roles-router_peers false = tt

  roles-local_router :
      (b : Bool) → All Role (if b then for_local_router cluster lib cfg ns src else [])
  roles-local_router true = (
    inr (entry.envoy_filters, Keeps-reconcile_envoy_filters P _ _ _ rest.envoy_filters),
    (inr (entry.routes, Keeps-reconcile_routes P _ _ _ rest.routes), tt),
  )
  roles-local_router false = tt

  -- The manager's entries have these roles.
  pub manager-Role :
      (url : Text) (r : Reconciler S)
      → lookup url (manager cluster lib cfg ns lister store) ≡ some r
      → RoleOf P own run url r.reconcile
  unfolding new_reconciler_manager reconcilers lookup
  manager-Role url r h =
      registered (λ u q. RoleOf P own run u q.reconcile) [] (reconcilers cluster lib cfg ns src)
        (λ u q e. absurd (cc))
        (All-append Role
          (always cluster lib cfg ns src
            ++ (if any_remote_peer_with_openshift_router_ingress cfg.mesh_peers
                then for_router_peers cluster lib cfg ns src
                else []))
          _
          (All-append Role (always cluster lib cfg ns src) _ roles-always
            (roles-router_peers (any_remote_peer_with_openshift_router_ingress cfg.mesh_peers)))
          (roles-local_router (is_router cfg.mesh_peers.local.ingress_type)))
        url r h
