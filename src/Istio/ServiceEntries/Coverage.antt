-- ===== src/Istio/ServiceEntries/Coverage.antt =====
-- What one import does to the map of service entries of `ServiceEntries`.
use mathlib.Core.List.{Memᴰ}
use federation.Common.{
  ◌≡◌, refl, ap, sym, subst, ◌∙◌, Bool-cases, inl, inr, some, Option-cases, map, Text, text_eq,
  text_eq_iff, text_eq_refl, if◌then◌else◌, Memᴰ-append_left, Memᴰ-append_right, Memᴰ-map,
}
use federation.Common.GoMap.{lookup, lookup-insert, text_key}
use federation.Config.{Remote}
use federation.Kubernetes.{Object}
use federation.Fds.{FederatedService}
use federation.Istio.{ConfigFactory, Library, ServiceEntrySpec, WorkloadEntrySpec, Resolution}
use federation.Istio.ServiceEntries.Spec.{IsEntryOf, Resolves, svc_entry_name_lem}
use federation.Istio.ServiceEntries.{
  ByName, svc_entry_name, merged_entry, add_import, import_endpoint,
}

-- The services, each with a remote, that entries are made for.
abbrev pub Sources : Type 1
Sources = FederatedService → Remote → Type 0

-- Every entry stands under its own name, and is that of a service of a remote that entries are made
-- for.
abbrev pub Keyed : Library → ConfigFactory → Sources → ByName → Type 0
Keyed lib cf P m =
    (k : Text) (e : Object ServiceEntrySpec)
    → lookup k m ≡ some e
    → (e.name ≡ k)
      × (svc : FederatedService) × (remote : Remote) × P svc remote
      × IsEntryOf lib cf svc remote e

-- The entry under a key has the endpoint.
abbrev pub Reaches : ByName → Text → WorkloadEntrySpec → Type 0
Reaches m k w = (e : Object ServiceEntrySpec) × (lookup k m ≡ some e) × Memᴰ w e.spec.endpoints

module _ (lib : Library) (cf : ConfigFactory) (res : Resolution) (remote : Remote)
    (svc : FederatedService) where
  -- The entry that `add_import` stores.
  abbrev stored : ByName → Object ServiceEntrySpec
  stored m =
      merged_entry cf res remote svc (map (import_endpoint lib remote svc) remote.addresses)
        (lookup (svc_entry_name svc remote) m)

  lookup-add_import :
      (k : Text) (m : ByName)
      → lookup k (add_import lib cf res remote svc m)
        ≡ (if text_eq (svc_entry_name svc remote) k then some (stored m) else lookup k m)
  unfolding add_import
  lookup-add_import k m = lookup-insert (svc_entry_name svc remote) k (stored m) m

  -- What is stored is the entry of a service of a remote that entries are made for.
  Stored : Sources → Object ServiceEntrySpec → Type 0
  Stored P e =
      (e.name ≡ svc_entry_name svc remote)
      × (s : FederatedService) × (r : Remote) × P s r
      × IsEntryOf lib cf s r e

  stored-Stored :
      (P : Sources) (m : ByName)
      → Resolves lib res remote
      → P svc remote
      → Keyed lib cf P m
      → Stored P (stored m)
  unfolding merged_entry Stored
  stored-Stored P m by_first source h = elim (Option-cases (lookup (svc_entry_name svc remote) m)) [
    | inl e ↦ rw e (
      refl,
      svc,
      remote,
      source,
      record {
        named = svc_entry_name_lem svc remote;
        namespaced = refl;
        labelled = refl;
        with_spec = record {
          one_host = refl;
          same_ports = refl;
          inside = refl;
          resolved = by_first;
        };
      },
    )
    | inr (old, e) ↦
        let (name, s, r, from_s, is) = h (svc_entry_name svc remote) old e in
        rw e (
          name,
          s,
          r,
          from_s,
          record {
            named = is.named;
            namespaced = is.namespaced;
            labelled = is.labelled;
            with_spec = record {
              one_host = is.with_spec.one_host;
              same_ports = is.with_spec.same_ports;
              inside = is.with_spec.inside;
              resolved = is.with_spec.resolved;
            };
          },
        )
  ]

  pub add_import-Keyed :
      (P : Sources) (m : ByName)
      → Resolves lib res remote
      → P svc remote
      → Keyed lib cf P m
      → Keyed lib cf P (add_import lib cf res remote svc m)
  unfolding Stored
  add_import-Keyed P m by_first source h k e p =
      let name = svc_entry_name svc remote in
      elim (Bool-cases (text_eq name k)) [
        | inl same ↦
            let found : some e ≡ some (stored m) = sym p ∙ lookup-add_import k m ∙ rw same refl in
            let is : stored m ≡ e = cc in
            let (named, s, r, from_s, rest) =
              subst (Stored P) is (stored-Stored P m by_first source h) in
            (named ∙ (text_eq_iff name k).0 same, s, r, from_s, rest)
        | inr other ↦ h k e (sym (lookup-add_import k m ∙ rw other refl) ∙ p)
      ]

  -- Endpoints that were there stay.
  stored_keeps :
      (m : ByName) (old : Object ServiceEntrySpec) (w : WorkloadEntrySpec)
      → lookup (svc_entry_name svc remote) m ≡ some old
      → Memᴰ w old.spec.endpoints
      → Memᴰ w (stored m).spec.endpoints
  unfolding merged_entry
  stored_keeps m old w e mem = rw e (Memᴰ-append_left mem _)

  pub add_import_keeps :
      (m : ByName) (k : Text) (w : WorkloadEntrySpec)
      → Reaches m k w
      → Reaches (add_import lib cf res remote svc m) k w
  add_import_keeps m k w (e, p, mem) =
      let name = svc_entry_name svc remote in
      elim (Bool-cases (text_eq name k)) [
        | inl same ↦ (
          stored m,
          rw (lookup-add_import k m) (rw same refl),
          stored_keeps m e w (ap (λ j. lookup j m) ((text_eq_iff name k).0 same) ∙ p) mem,
        )
        | inr other ↦ (e, rw (lookup-add_import k m) (rw other p), mem)
      ]

  stored_adds :
      (m : ByName) (addr : Text)
      → Memᴰ addr remote.addresses
      → Memᴰ (import_endpoint lib remote svc addr) (stored m).spec.endpoints
  unfolding merged_entry
  stored_adds m addr mem = elim (Option-cases (lookup (svc_entry_name svc remote) m)) [
    | inl e ↦ rw e (Memᴰ-map (import_endpoint lib remote svc) mem)
    | inr (old, e) ↦
        rw e (Memᴰ-append_right old.spec.endpoints (Memᴰ-map (import_endpoint lib remote svc) mem))
  ]

  pub add_import_adds :
      (m : ByName) (addr : Text)
      → Memᴰ addr remote.addresses
      → Reaches
          (add_import lib cf res remote svc m)
          (svc_entry_name svc remote)
          (import_endpoint lib remote svc addr)
  add_import_adds m addr mem = (
    stored m,
    rw (lookup-add_import (svc_entry_name svc remote) m)
        (rw (text_eq_refl (svc_entry_name svc remote)) refl),
    stored_adds m addr mem,
  )
