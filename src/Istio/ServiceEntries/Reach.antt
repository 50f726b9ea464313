-- ===== src/Istio/ServiceEntries/Reach.antt =====
-- The loops of `ServiceEntries`, and which endpoints are in what they build.
use mathlib.Core.List.{Memᴰ}
use federation.Common.{
  ◌≡◌, refl, ap, subst, ◌∙◌, sym, inl, inr, ◌⊎◌, some, List, [], ◌∷◌, ◌++◌, Text, All, Result, ok,
  err, not_found,
}
use federation.Common.GoMap.{lookup, text_key}
use federation.Common.Outcomes.{done}
use federation.Config.{Remote}
use federation.Kubernetes.{Object, Service}
use federation.Fds.{FederatedService}
use federation.Fds.Store.{from}
use federation.Istio.{ConfigFactory, Library, ServiceEntrySpec, WorkloadEntrySpec, Resolution}
use federation.Istio.Names.{get_service_name_and_ns}
use federation.Istio.ServiceEntries.{
  ByName, Entries, svc_entry_name, add_import, import_endpoint, on_lookup, import_loop,
  resolution_of, remote_body, remote_loop, service_entries, at_first_address, controller_entry,
  service_entry_for_remote_federation_controller,
}
use federation.Istio.ServiceEntries.Spec.{Resolves, dashed_name}
use federation.Istio.ServiceEntries.Coverage.{
  Sources, Keyed, Reaches, add_import-Keyed, add_import_keeps, add_import_adds,
}

-- The lister has no service of the imported one's name and namespace.
abbrev pub IsMissing : ConfigFactory → FederatedService → Type 0
IsMissing cf svc =
    (parts : Text × Text) × (get_service_name_and_ns svc.hostname ≡ done parts)
    × (cf.service_lister.get parts.1 parts.0 ≡ err not_found)

-- It has one.
abbrev pub IsLocal : ConfigFactory → FederatedService → Type 0
IsLocal cf svc =
    (parts : Text × Text) × (get_service_name_and_ns svc.hostname ≡ done parts)
    × (found : Service) × (cf.service_lister.get parts.1 parts.0 ≡ ok found)

-- Every service imported from the remote is readable, and the lister knows whether it is local.
abbrev pub IsAnswered : ConfigFactory → Remote → Type 0
IsAnswered cf remote =
    All (λ (svc : FederatedService). IsMissing cf svc ⊎ IsLocal cf svc)
      (from cf.imported_service_store remote)

-- An entry is made for the service and the remote: a remote of the configuration exports the service,
-- which the mesh lacks.
abbrev pub IsNeeded : ConfigFactory → Sources
IsNeeded cf svc remote =
    Memᴰ remote cf.cfg.mesh_peers.remotes
    × Memᴰ svc (from cf.imported_service_store remote)
    × IsMissing cf svc

-- No entry of the same name is made for anything else.
abbrev pub IsUnambiguous : ConfigFactory → FederatedService → Remote → Type 0
IsUnambiguous cf svc remote =
    (s : FederatedService) (r : Remote)
    → IsNeeded cf s r
    → dashed_name s r ≡ dashed_name svc remote
    → (s.hostname ≡ svc.hostname) × (s.ports ≡ svc.ports) × (r ≡ remote)

-- What a part of the loops does to the map: entries keep their endpoints, and the missing services
-- of a list get theirs.
record Grows (lib : Library) (cf : ConfigFactory) (remote : Remote) (svcs : List FederatedService)
    (m m' : ByName) : Type 0 where
  keyed : Keyed lib cf (IsNeeded cf) m'
  keeps : (k : Text) (w : WorkloadEntrySpec) → Reaches m k w → Reaches m' k w
  adds :
      (svc : FederatedService)
      → Memᴰ svc svcs
      → IsMissing cf svc
      → (addr : Text) → Memᴰ addr remote.addresses
      → Reaches m' (svc_entry_name svc remote) (import_endpoint lib remote svc addr)

module _ (lib : Library) (cf : ConfigFactory) (remote : Remote) where
  -- No service is both missing and local.
  pub missing_or_local : (svc : FederatedService) → IsMissing cf svc → IsLocal cf svc → ⊥
  missing_or_local svc (p, e, h) (q, e', found, h') =
      let same : p ≡ q = cc in
      let clash : Path (Result Service) (err not_found) (ok found) =
        sym h ∙ ap (λ (r : Text × Text). cf.service_lister.get r.1 r.0) same ∙ h' in
      cc

  Grows-missing :
      (res : Resolution) (svc : FederatedService) (rest : List FederatedService) (m m' : ByName)
      → Grows lib cf remote rest (add_import lib cf res remote svc m) m'
      → Grows lib cf remote (svc ∷ rest) m m'
  Grows-missing res svc rest m m' g = record {
    keyed = g.keyed;
    keeps = λ k w r. g.keeps k w (add_import_keeps lib cf res remote svc m k w r);
    adds = found;
  }
    where
      found :
          (s : FederatedService)
          → Memᴰ s (svc ∷ rest)
          → IsMissing cf s
          → (addr : Text) → Memᴰ addr remote.addresses
          → Reaches m' (svc_entry_name s remote) (import_endpoint lib remote s addr)
      found s (Memᴰ.head e) missing addr at_addr = rw e (
          g.keeps (svc_entry_name svc remote) (import_endpoint lib remote svc addr)
            (add_import_adds lib cf res remote svc m addr at_addr))
      found s (Memᴰ.tail mem) missing addr at_addr = g.adds s mem missing addr at_addr

  Grows-local :
      (svc : FederatedService) (rest : List FederatedService) (m m' : ByName)
      → IsLocal cf svc
      → Grows lib cf remote rest m m'
      → Grows lib cf remote (svc ∷ rest) m m'
  Grows-local svc rest m m' here g = record { keyed = g.keyed; keeps = g.keeps; adds = found }
    where
      found :
          (s : FederatedService)
          → Memᴰ s (svc ∷ rest)
          → IsMissing cf s
          → (addr : Text) → Memᴰ addr remote.addresses
          → Reaches m' (svc_entry_name s remote) (import_endpoint lib remote s addr)
      found s (Memᴰ.head e) missing addr at_addr =
          absurd (missing_or_local svc (rw e at missing) here)
      found s (Memᴰ.tail mem) missing addr at_addr = g.adds s mem missing addr at_addr

  import_loop-Grows :
      (res : Resolution) (svcs : List FederatedService) (m : ByName)
      → All (λ (svc : FederatedService). IsMissing cf svc ⊎ IsLocal cf svc) svcs
      → Resolves lib res remote
      → ((svc : FederatedService) → Memᴰ svc svcs → IsMissing cf svc → IsNeeded cf svc remote)
      → Keyed lib cf (IsNeeded cf) m
      → (m' : ByName) × (import_loop lib cf res remote svcs m ≡ done m')
        × Grows lib cf remote svcs m m'
  unfolding import_loop on_lookup
  import_loop-Grows res [] m h by_first needed k =
      (m, refl, record { keyed = k; keeps = λ j w r. r; adds = λ svc mem. elim mem [ ] })
  import_loop-Grows res (svc ∷ rest) m (inl (parts, e, g), h) by_first needed k =
      let added = add_import lib cf res remote svc m in
      let (m', p, grow) =
        import_loop-Grows res rest added h by_first (λ s mem. needed s (Memᴰ.tail mem))
          (add_import-Keyed lib cf res remote svc (IsNeeded cf) m by_first
            (needed svc (Memᴰ.head refl) (parts, e, g)) k) in
      (m', rw e (rw g p), Grows-missing res svc rest m m' grow)
  import_loop-Grows res (svc ∷ rest) m (inr (parts, e, found, g), h) by_first needed k =
      let (m', p, grow) =
        import_loop-Grows res rest m h by_first (λ s mem. needed s (Memᴰ.tail mem)) k in
      (m', rw e (rw g p), Grows-local svc rest m m' (parts, e, found, g) grow)

not-Memᴰ-nil : {a : Text} → ¬ Memᴰ a []
not-Memᴰ-nil m = elim m [ ]

-- The same for the loop over the remotes.
record GrowsAll (lib : Library) (cf : ConfigFactory) (remotes : List Remote) (m m' : ByName)
    : Type 0 where
  keyed : Keyed lib cf (IsNeeded cf) m'
  keeps : (k : Text) (w : WorkloadEntrySpec) → Reaches m k w → Reaches m' k w
  adds :
      (remote : Remote)
      → Memᴰ remote remotes
      → (svc : FederatedService) → Memᴰ svc (from cf.imported_service_store remote)
      → IsMissing cf svc
      → (addr : Text) → Memᴰ addr remote.addresses
      → Reaches m' (svc_entry_name svc remote) (import_endpoint lib remote svc addr)

module _ (lib : Library) (cf : ConfigFactory) where
  controller_built :
      (remote : Remote) (addr : Text) (rest : List Text)
      → remote.addresses ≡ addr ∷ rest
      → service_entry_for_remote_federation_controller lib cf remote
        ≡ done (controller_entry lib cf remote addr)
  unfolding service_entry_for_remote_federation_controller
  controller_built remote addr rest e = ap (at_first_address lib cf remote) e

  remote_body-Grows :
      (remote : Remote) (entries : List (Object ServiceEntrySpec)) (m : ByName)
      → IsAnswered cf remote
      → Memᴰ remote cf.cfg.mesh_peers.remotes
      → Keyed lib cf (IsNeeded cf) m
      → (addrs : List Text) → remote.addresses ≡ addrs
      → (acc : Entries) × (remote_body lib cf remote addrs (entries, m) ≡ done acc)
        × Grows lib cf remote (from cf.imported_service_store remote) m acc.1
  unfolding remote_body
  remote_body-Grows remote entries m h mem k [] e = (
    (entries, m),
    refl,
    record {
      keyed = k;
      keeps = λ j w r. r;
      adds = λ svc in_r missing addr at_addr. absurd (not-Memᴰ-nil (rw e at at_addr));
    },
  )
  remote_body-Grows remote entries m h mem k (addr ∷ rest) e =
      let (m', p, g) =
        import_loop-Grows lib cf remote (resolution_of lib.network addr)
          (from cf.imported_service_store remote) m h (addr, rest, e, refl)
          (λ svc in_r missing. (mem, in_r, missing)) k in
      (
        (entries ++ controller_entry lib cf remote addr ∷ [], m'),
        rw (controller_built remote addr rest e) (rw p refl),
        g,
      )

  remote_loop-Grows :
      (remotes : List Remote) (acc : Entries)
      → All (IsAnswered cf) remotes
      → ((r : Remote) → Memᴰ r remotes → Memᴰ r cf.cfg.mesh_peers.remotes)
      → Keyed lib cf (IsNeeded cf) acc.1
      → (acc' : Entries) × (remote_loop lib cf remotes acc ≡ done acc')
        × GrowsAll lib cf remotes acc.1 acc'.1
  unfolding remote_loop
  remote_loop-Grows [] acc h known k =
      (acc, refl, record { keyed = k; keeps = λ j w r. r; adds = λ remote mem. elim mem [ ] })
  remote_loop-Grows (remote ∷ rest) (entries, m) (h, hs) known k =
      let (mid, p, g) =
        remote_body-Grows remote entries m h (known remote (Memᴰ.head refl)) k remote.addresses
          refl in
      let (last, p', g') =
        remote_loop-Grows rest mid hs (λ r mem. known r (Memᴰ.tail mem)) g.keyed in
      (
        last,
        rw p p',
        record {
          keyed = g'.keyed;
          keeps = λ j w r. g'.keeps j w (g.keeps j w r);
          adds = found mid.1 last.1 g g';
        },
      )
    where
      -- What the remote `r` imports is reached in the last map.
      Found : ByName → Remote → Type 0
      Found l r =
          (svc : FederatedService)
          → Memᴰ svc (from cf.imported_service_store r)
          → IsMissing cf svc
          → (addr : Text) → Memᴰ addr r.addresses
          → Reaches l (svc_entry_name svc r) (import_endpoint lib r svc addr)

      found :
          (m' l : ByName)
          → Grows lib cf remote (from cf.imported_service_store remote) m m'
          → GrowsAll lib cf rest m' l
          → (r : Remote) → Memᴰ r (remote ∷ rest)
          → Found l r
      found m' l g g' r (Memᴰ.head e) = subst (Found l) (sym e) (λ svc in_r missing addr at_addr.
          g'.keeps (svc_entry_name svc remote) (import_endpoint lib remote svc addr)
            (g.adds svc in_r missing addr at_addr))
      found m' l g g' r (Memᴰ.tail mem) = g'.adds r mem

-- `maps.Values` gives every value of the map.
abbrev pub GivesValues : Library → Type 0
GivesValues lib =
    (m : ByName) (k : Text) (e : Object ServiceEntrySpec)
    → lookup k m ≡ some e
    → Memᴰ e (lib.values m)

-- What is built: entries for controllers, then the values of a map in which each entry stands under its
-- name, and in which a service that the mesh lacks has its endpoint.
pub service_entries-built :
    (lib : Library) (cf : ConfigFactory) (remote : Remote) (svc : FederatedService) (addr : Text)
    → All (IsAnswered cf) cf.cfg.mesh_peers.remotes
    → Memᴰ remote cf.cfg.mesh_peers.remotes
    → Memᴰ svc (from cf.imported_service_store remote)
    → IsMissing cf svc
    → Memᴰ addr remote.addresses
    → (xs : List (Object ServiceEntrySpec)) × (m : ByName) × (service_entries lib cf
        ≡ done (xs ++ lib.values m))
      × Keyed lib cf (IsNeeded cf) m
      × Reaches m (svc_entry_name svc remote) (import_endpoint lib remote svc addr)
unfolding service_entries
service_entries-built lib cf remote svc addr answered mem in_r missing at_addr =
    let (acc, p, g) =
      remote_loop-Grows lib cf cf.cfg.mesh_peers.remotes ([], []) answered (λ r m. m)
        (λ k e h. absurd (unfold lookup in cc)) in
    (acc.0, acc.1, rw p refl, g.keyed, g.adds remote mem svc in_r missing addr at_addr)
