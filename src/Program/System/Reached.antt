-- ===== src/Program/System/Reached.antt =====
-- From a service that a peer exports to the entry for it on the API server.
use mathlib.Core.List.{Memᴰ}
use federation.Common.{
  ◌≡◌, ◌≢◌, refl, sym, ap, ap₂, subst, ◌∙◌, some, List, ◌++◌, Text, text_eq_iff, ok, All,
}
use federation.Common.GoMap.{lookup, text_key}
use federation.Common.Outcomes.{done, panic}
use federation.Config.{Federation, Remote}
use federation.Kubernetes.{Object, ServiceLister}
use federation.Xds.{Any}
use federation.Fds.{Codec, FederatedService}
use federation.Fds.Store.{ImportedServiceStore, update, from, from-update}
use federation.Fds.Import.{handle, decode_all}
use federation.Istio.{Library, ServiceEntrySpec, WorkloadEntrySpec}
use federation.Istio.ServiceEntries.{ByName, svc_entry_name, import_endpoint}
use federation.Istio.ServiceEntries.Entered.{Keyed-own}
use federation.Istio.ServiceEntries.Spec.{
  HasSpec, IsEndpoint, import_endpoint-IsEndpoint, dashed_name,
}
use federation.Istio.ServiceEntries.Reach.{
  IsMissing, IsAnswered, IsUnambiguous, GivesValues, service_entries-built,
}
use federation.Kube.Api.{Documented, NamespacedName, name_key, key, to_map}
use federation.Kube.Sync.Last.{IsAlone, to_map-last}
use federation.Kube.Sync.Maps.{Visits}
use federation.Kube.Manager.{Reconciler, start}
use federation.Program.Reconcilers.{Cluster}
use federation.Program.System.{manager, run_service_entries}
use federation.Program.System.InSync.{KindsApart, Holds}
use federation.Program.System.Kinds.{InSync, factory, service_entries_kind}
use federation.Program.System.Arrival.{handle-Synced}

-- `maps.Values` gives nothing but values of the map.
abbrev pub GivesOnlyValues : Library → Type 0
GivesOnlyValues lib =
    (m : ByName) (e : Object ServiceEntrySpec)
    → Memᴰ e (lib.values m)
    → (k : Text) × (lookup k m ≡ some e)

module _ {S : Type 0} (cluster : Cluster S) (doc : Documented cluster.service_entries)
    (visits : Visits cluster.range_service_entries) (kinds : KindsApart cluster doc.view)
    (lib : Library) (all_values : GivesValues lib) (only_values : GivesOnlyValues lib)
    (cfg : Federation) (ns : Text) (lister : ServiceLister) where
  -- The server has an entry under the service's dashed name, with the service's host alone, its
  -- ports, and an endpoint for the service at the address.
  abbrev pub IsReachable : S → FederatedService → Remote → Text → Type 0
  IsReachable s svc remote addr =
      (x : Object ServiceEntrySpec) × (doc.view s
          (cfg.mesh_peers.local.control_plane.namespace, dashed_name svc remote)
        ≡ some x)
      × HasSpec lib svc remote x.spec
      × (w : WorkloadEntrySpec) × Memᴰ w x.spec.endpoints
      × IsEndpoint lib remote svc addr w

  -- In sync, a service that a remote exports and the mesh lacks is reachable at each of the remote's
  -- addresses.
  pub InSync-IsReachable :
      (store : ImportedServiceStore) (s : S) (remote : Remote) (svc : FederatedService)
      (addr : Text)
      → InSync cluster doc visits kinds lib cfg ns lister store s
      → All
          (IsAnswered (factory cluster doc visits kinds lib cfg ns lister store))
          cfg.mesh_peers.remotes
      → Memᴰ remote cfg.mesh_peers.remotes
      → Memᴰ svc (from store remote)
      → IsMissing (factory cluster doc visits kinds lib cfg ns lister store) svc
      → IsUnambiguous (factory cluster doc visits kinds lib cfg ns lister store) svc remote
      → Memᴰ addr remote.addresses
      → IsReachable s svc remote addr
  InSync-IsReachable store s remote svc addr (wanted, built, holds) answered mem in_r missing unique
        at_addr =
      let (xs, m, p, keyed, (e, at_key, there)) =
        service_entries-built lib (factory cluster doc visits kinds lib cfg ns lister store) remote
          svc addr answered mem in_r missing at_addr in
      let same : wanted ≡ xs ++ lib.values m = cc in
      let found : lookup (key e) (to_map wanted) ≡ some e =
        ap (λ (os : List (Object ServiceEntrySpec)). lookup (key e) (to_map os)) same
        ∙ to_map-last e xs (lib.values m) (alone m (λ k o h. (keyed k o h).0) e at_key)
            (all_values m (svc_entry_name svc remote) e at_key) in
      let own =
        Keyed-own lib (factory cluster doc visits kinds lib cfg ns lister store) svc remote m e
          keyed unique at_key in
      let (x, on_server, spec) =
        subst (λ o. Holds doc.matches o (doc.view s (key e))) found (holds (key e)) in
      (
        x,
        sym (ap₂ (λ (n k : Text). doc.view s (n, k)) own.namespaced own.named) ∙ on_server,
        subst (HasSpec lib svc remote) (sym spec) own.with_spec,
        import_endpoint lib remote svc addr,
        subst (λ (p : ServiceEntrySpec). Memᴰ (import_endpoint lib remote svc addr) p.endpoints)
            (sym spec) there,
        import_endpoint-IsEndpoint lib remote svc addr,
      )
    where
      alone :
          (m : ByName)
          → ((k : Text) (e : Object ServiceEntrySpec) → lookup k m ≡ some e → e.name ≡ k)
          → (e : Object ServiceEntrySpec) → lookup (svc_entry_name svc remote) m ≡ some e
          → IsAlone e (lib.values m)
      alone m keyed e at_key o n q =
          let (k, h) = only_values m o n in
          let here : k ≡ svc_entry_name svc remote =
            sym (keyed k o h)
            ∙ ap (λ (r : NamespacedName). r.1) q
            ∙ keyed (svc_entry_name svc remote) e at_key in
          let both : some o ≡ some e = sym h ∙ ap (λ (j : Text). lookup j m) here ∙ at_key in cc

  -- With an API server as documented, whose calls for other kinds leave service entries alone, a
  -- service that a peer exports and the mesh lacks is reachable through it, at each of the addresses of
  -- the remote that the peer is, once the response that names it was handled and the requests of its
  -- handler were: if no reconciler panics and the runs for service entries are without errors, every
  -- imported host name can be read and the lister answers for it, and no other host name, ports or
  -- remote gives the dashed name of the service's entry.
  pub handle-IsReachable :
      (c : Codec) (remote : Remote) (resources : List Any) (services : List FederatedService)
      (before : ImportedServiceStore) (s : S) (svc : FederatedService) (addr : Text)
      → decode_all c resources ≡ ok services
      → ((url : Text) (r : Reconciler S) (t : S)
          → lookup url (manager cluster lib cfg ns lister (update remote.name services before))
            ≡ some r
          → (r.reconcile t).1 ≢ panic)
      → ((t : S)
          → (run_service_entries cluster lib cfg ns lister (update remote.name services before) t).1
            ≡ done tt)
      → All
          (IsAnswered (
            factory cluster doc visits kinds lib cfg ns lister
              (update remote.name services before)))
          cfg.mesh_peers.remotes
      → Memᴰ remote cfg.mesh_peers.remotes
      → Memᴰ svc services
      → IsMissing
          (factory cluster doc visits kinds lib cfg ns lister (update remote.name services before))
          svc
      → IsUnambiguous
          (factory cluster doc visits kinds lib cfg ns lister (update remote.name services before))
          svc
          remote
      → Memᴰ addr remote.addresses
      → IsReachable
          (start
            (manager cluster lib cfg ns lister (handle c remote.name resources before).store)
            (handle c remote.name resources before).pushed
            s).0
          svc
          remote
          addr
  unfolding service_entries_kind
  handle-IsReachable c remote resources services before s svc addr e calm succeed answered mem in_r
        missing unique at_addr =
      InSync-IsReachable (update remote.name services before) _ remote svc addr
        (handle-Synced (service_entries_kind cluster doc visits kinds lib cfg ns lister) c
          remote.name resources services before s e calm succeed)
        answered mem (subst (Memᴰ svc) (sym read) in_r) missing unique at_addr
    where
      read : from (update remote.name services before) remote ≡ services
      read =
          from-update before remote.name services remote
          ∙ rw ((text_eq_iff remote.name remote.name).1 refl) refl
