-- ===== src/Program/Reconcilers/Served.antt =====
-- Which push requests find a reconciler.
use federation.Common.{
  ◌≡◌, refl, ap, ◌∙◌, Bool, true, false, ◌||◌, Bool-cases, inl, inr, Option, none, some, List, [],
  ◌∷◌, ◌++◌, Text, text_eq, if◌then◌else◌, arith,
}
use federation.Common.GoMap.{lookup, insert, lookup-insert, text_key}
use federation.Config.{Federation, any_remote_peer_with_openshift_router_ingress, is_router}
use federation.Xds.{
  gateway_type_url, service_entry_type_url, workload_entry_type_url, route_type_url,
  peer_authentication_type_url, destination_rule_type_url, envoy_filter_type_url,
}
use federation.Istio.{Library}
use federation.Kube.Manager.{Reconciler, ReconcilerManager, new_reconciler_manager, register}
use federation.Program.Reconcilers.{Cluster, Sources, reconcilers}

abbrev pub is_some {ℓ} : {A : Type ℓ} → Option A → Bool
is_some none = false
is_some (some a) = true

-- One of the types is the text.
unfoldable pub is_one_of : List Text → Text → Bool
is_one_of [] t = false
is_one_of (u ∷ us) t = text_eq u t || is_one_of us t

-- The types that a configuration needs reconcilers for.
abbrev pub needed_types : Federation → List Text
needed_types cfg =
    ((gateway_type_url ∷ service_entry_type_url ∷ workload_entry_type_url
        ∷ peer_authentication_type_url ∷ [])
      ++ (if any_remote_peer_with_openshift_router_ingress cfg.mesh_peers
          then destination_rule_type_url ∷ []
          else []))
    ++ (if is_router cfg.mesh_peers.local.ingress_type
        then envoy_filter_type_url ∷ route_type_url ∷ []
        else [])

module _ {S : Type 0} where
  types : List (Reconciler S) → List Text
  types [] = []
  types (r ∷ rs) = r.type_url ∷ types rs

  types-append : (rs qs : List (Reconciler S)) → types (rs ++ qs) ≡ types rs ++ types qs
  unfolding types
  types-append [] qs = refl
  types-append (r ∷ rs) qs = ap (◌∷◌ r.type_url) (types-append rs qs)

  is_some-register :
      (m : ReconcilerManager S) (rs : List (Reconciler S)) (url : Text)
      → is_some (lookup url (register m rs)) ≡ (is_one_of (types rs) url || is_some (lookup url m))
  unfolding register types is_one_of
  is_some-register m [] url = refl
  is_some-register m (r ∷ rs) url =
      is_some-register (insert r.type_url r m) rs url
      ∙ (rw (lookup-insert r.type_url url r m) (ground arith))

module _ {S : Type 0} (cluster : Cluster S) (lib : Library) (cfg : Federation) (ns : Text)
    (src : Sources) where
  types-reconcilers : types (reconcilers cluster lib cfg ns src) ≡ needed_types cfg
  unfolding reconcilers types
  types-reconcilers =
      elim (Bool-cases (any_remote_peer_with_openshift_router_ingress cfg.mesh_peers)) [
        | inl peers ↦ elim (Bool-cases (is_router cfg.mesh_peers.local.ingress_type)) [
          | inl here ↦ rw peers (rw here refl)
          | inr elsewhere ↦ rw peers (rw elsewhere refl)
        ]
        | inr none_so ↦ elim (Bool-cases (is_router cfg.mesh_peers.local.ingress_type)) [
          | inl here ↦ rw none_so (rw here refl)
          | inr elsewhere ↦ rw none_so (rw elsewhere refl)
        ]
      ]

  -- A push request finds a reconciler exactly if it is for gateways, service entries, workload
  -- entries or peer authentications, or for destination rules where some remote is behind the
  -- OpenShift router, or for envoy filters or routes where the mesh itself is.
  pub served-eq-needed :
      (url : Text)
      → is_some (lookup url (new_reconciler_manager (reconcilers cluster lib cfg ns src)))
        ≡ is_one_of (needed_types cfg) url
  unfolding new_reconciler_manager lookup
  served-eq-needed url =
      is_some-register [] (reconcilers cluster lib cfg ns src) url
      ∙ rw types-reconcilers (ground arith)
