-- ===== src/Istio/WorkloadEntries/Exact.antt =====
-- Exactly which workload entries there are.
use mathlib.Core.List.{Memᴰ}
use federation.Common.{
  ℕ, suc, ◌+◌, ◌≡◌, refl, ap, sym, ◌∙◌, arith, length, Text, codes, inl, inr, ◌⊎◌, ◌↔◌, subst,
  Memᴰ-append_cases, Memᴰ-append_left, Memᴰ-append_right, List, [], ◌∷◌, ◌++◌, All,
}
use federation.Common.Outcomes.{Outcome, done, ◌>>=◌}
use federation.Common.Decimal.{format}
use federation.Config.{Remote, get_port}
use federation.Kubernetes.{Object}
use federation.Fds.{FederatedService}
use federation.Fds.Store.{from}
use federation.Networking.{GivesAll, resolve, resolve-GivesAll, resolve-of_GivesAll}
use federation.Istio.{ConfigFactory, Library, WorkloadEntrySpec}
use federation.Istio.Names.{make_ports_map, SendsNames, make_ports_map-SendsNames}
use federation.Istio.ServiceEntries.{import_endpoint}
use federation.Istio.ServiceEntries.Reach.{IsMissing, IsLocal, IsAnswered, missing_or_local}
use federation.Istio.WorkloadEntries.{
  workload_entry, numbered, import_body, entries_of, service_loop, remote_loop, workload_entries,
}

-- The entry is that of a service for one address: its name is numbered by the place of the address,
-- and every port's name is sent to the port of the remote.
abbrev pub Describes :
    Library → Remote → FederatedService → Text × Text → ℕ → Text → Object WorkloadEntrySpec → Type 0
Describes lib remote svc parts i ip w =
    (w ≡ record {
      name =
          codes "import-" ++ (remote.name ++ (codes "-" ++ (parts.0 ++ (codes "-" ++ format i))));
      namespace = parts.1;
      labels = (codes "federation.openshift-service-mesh.io/peer", codes "todo") ∷ [];
      spec = record {
        address = ip;
        labels =
            lib.merge_copy svc.labels ((codes "security.istio.io/tlsMode", codes "istio") ∷ []);
        ports = make_ports_map svc.ports (get_port remote);
        network = remote.network;
      };
    })
    × SendsNames svc.ports (get_port remote) w.spec.ports

-- The entry is that of a local service for one of the IPs that the addresses of the remote stand
-- for, with the number of the IPs before it.
abbrev pub IsFor :
    Library → ConfigFactory → Remote → FederatedService → Object WorkloadEntrySpec → Type 0
IsFor lib cf remote svc w =
    (here : IsLocal cf svc) × (before : List Text) × (ip : Text) × (after : List Text) × GivesAll
      lib.network remote.addresses (before ++ ip ∷ after)
    × Describes lib remote svc here.0 (length before) ip w

-- It is for one of the services.
abbrev ForOne :
    Library → ConfigFactory → Remote → List FederatedService → Object WorkloadEntrySpec → Type 0
ForOne lib cf remote svcs w = (svc : FederatedService) × Memᴰ svc svcs × IsFor lib cf remote svc w

-- It is for a service that one of the remotes exports.
abbrev pub IsMade : Library → ConfigFactory → List Remote → Object WorkloadEntrySpec → Type 0
IsMade lib cf remotes w =
    (remote : Remote) × Memᴰ remote remotes
    × ForOne lib cf remote (from cf.imported_service_store remote) w

-- An outcome with exactly the entries of a predicate.
abbrev Exactly :
    Outcome (List (Object WorkloadEntrySpec)) → (Object WorkloadEntrySpec → Type 0) → Type 0
Exactly o P =
    (ws : List (Object WorkloadEntrySpec)) × (o ≡ done ws)
    × ((w : Object WorkloadEntrySpec) → Memᴰ w ws ↔ P w)

Exactly-append :
    (o p : Outcome (List (Object WorkloadEntrySpec))) (P Q R : Object WorkloadEntrySpec → Type 0)
    → Exactly o P
    → Exactly p Q
    → ((w : Object WorkloadEntrySpec) → (P w ⊎ Q w) ↔ R w)
    → Exactly (do first ← o; others ← p; done (first ++ others)) R
Exactly-append o p P Q R (first, e, h) (others, e', h') both = (
  first ++ others,
  rw e (rw e' refl),
  λ w. (
    λ m.
        (both w).0
          (elim (Memᴰ-append_cases first m) [ inl l ↦ inl ((h w).0 l) | inr r ↦ inr ((h' w).0 r) ]),
    λ r. elim ((both w).1 r) [
      | inl l ↦ Memᴰ-append_left ((h w).1 l) others
      | inr k ↦ Memᴰ-append_right first ((h' w).1 k)
    ],
  ),
)

from_zero : (n : ℕ) → 0 + n ≡ n
from_zero n = omega arith

module _ (lib : Library) (remote : Remote) (svc : FederatedService) (parts : Text × Text) where
  -- An entry of the loop over the IPs is that for one of them.
  numbered-Describes :
      (i : ℕ) (ips : List Text) (w : Object WorkloadEntrySpec)
      → Memᴰ w (numbered lib remote svc parts i ips)
      → (before : List Text) × (ip : Text) × (after : List Text) × (ips ≡ before ++ ip ∷ after)
        × Describes lib remote svc parts (i + length before) ip w
  unfolding numbered workload_entry import_endpoint
  numbered-Describes i [] w m = elim m [ ]
  numbered-Describes i (ip ∷ ips) w (Memᴰ.head e) =
      let made : w ≡ workload_entry lib remote svc parts (i + 0) ip =
        e ∙ ap (λ n. workload_entry lib remote svc parts n ip) (omega arith) in
      (
        [],
        ip,
        ips,
        refl,
        (
          made,
          subst
              (λ (o : Object WorkloadEntrySpec).
                SendsNames svc.ports (get_port remote) o.spec.ports)
              (sym made) (make_ports_map-SendsNames svc.ports (get_port remote)),
        ),
      )
  numbered-Describes i (first ∷ ips) w (Memᴰ.tail m) =
      let (before, ip, after, e, d) = numbered-Describes (suc i) ips w m in
      let shift : suc i + length before ≡ i + length (first ∷ before) = omega arith in
      (
        first ∷ before,
        ip,
        after,
        ap (◌∷◌ first) e,
        subst (λ n. Describes lib remote svc parts n ip w) shift d,
      )

  numbered-of_Describes :
      (i : ℕ) (before : List Text) (ip : Text) (after : List Text) (w : Object WorkloadEntrySpec)
      → Describes lib remote svc parts (i + length before) ip w
      → Memᴰ w (numbered lib remote svc parts i (before ++ ip ∷ after))
  unfolding numbered workload_entry import_endpoint
  numbered-of_Describes i [] ip after w (e, sends) =
      Memᴰ.head (e ∙ ap (λ n. workload_entry lib remote svc parts n ip) (omega arith))
  numbered-of_Describes i (first ∷ before) ip after w d =
      let shift : i + length (first ∷ before) ≡ suc i + length before = omega arith in
      Memᴰ.tail (
        numbered-of_Describes (suc i) before ip after w
          (subst (λ n. Describes lib remote svc parts n ip w) shift d))

module _ (lib : Library) (cf : ConfigFactory) where
  import_body-Exactly :
      (remote : Remote) (svc : FederatedService)
      → IsMissing cf svc ⊎ IsLocal cf svc
      → Exactly (import_body lib cf remote svc) (IsFor lib cf remote svc)
  unfolding import_body entries_of
  import_body-Exactly remote svc (inl (parts, e, g)) = (
    [],
    rw e (rw g refl),
    λ w. (
      λ m. elim m [ ],
      λ (here, before, ip, after, gives, d).
          absurd (missing_or_local lib cf remote svc (parts, e, g) here),
    ),
  )
  import_body-Exactly remote svc (inr (parts, e, found, g)) =
      let addrs = remote.addresses in
      (
        numbered lib remote svc parts 0 (resolve lib.network addrs),
        rw e (rw g refl),
        λ w. (
          λ m.
              let (before, ip, after, same, d) =
                numbered-Describes lib remote svc parts 0 (resolve lib.network addrs) w m in
              (
                (parts, e, found, g),
                before,
                ip,
                after,
                subst (GivesAll lib.network addrs) same (resolve-GivesAll lib.network addrs),
                subst (λ n. Describes lib remote svc parts n ip w) (from_zero (length before)) d,
              ),
          λ ((parts', e', found', g'), before, ip, after, gives, d).
              let same : parts' ≡ parts = cc in
              let resolved = resolve-of_GivesAll lib.network addrs (before ++ ip ∷ after) gives in
              subst (λ ips. Memᴰ w (numbered lib remote svc parts 0 ips)) (sym resolved)
                (numbered-of_Describes lib remote svc parts 0 before ip after w (
                  subst (λ q. Describes lib remote svc q (0 + length before) ip w) same
                    (subst (λ n. Describes lib remote svc parts' n ip w)
                      (sym (from_zero (length before))) d))),
        ),
      )

  service_loop-Exactly :
      (remote : Remote) (svcs : List FederatedService)
      → All (λ (svc : FederatedService). IsMissing cf svc ⊎ IsLocal cf svc) svcs
      → Exactly (service_loop lib cf remote svcs) (ForOne lib cf remote svcs)
  unfolding service_loop
  service_loop-Exactly remote [] h = ([], refl, λ w. (λ m. elim m [ ], λ (svc, m, k). elim m [ ]))
  service_loop-Exactly remote (svc ∷ rest) (h, hs) =
      Exactly-append (import_body lib cf remote svc) (service_loop lib cf remote rest)
        (IsFor lib cf remote svc) (ForOne lib cf remote rest) (ForOne lib cf remote (svc ∷ rest))
        (import_body-Exactly remote svc h) (service_loop-Exactly remote rest hs)
        (λ w. (
          elim [ inl k ↦ (svc, Memᴰ.head refl, k) | inr (s, m, k) ↦ (s, Memᴰ.tail m, k) ],
          from_cons w,
        ))
    where
      from_cons :
          (w : Object WorkloadEntrySpec)
          → ForOne lib cf remote (svc ∷ rest) w
          → IsFor lib cf remote svc w ⊎ ForOne lib cf remote rest w
      from_cons w (s, Memᴰ.head e, k) = inl (subst (λ t. IsFor lib cf remote t w) e k)
      from_cons w (s, Memᴰ.tail m, k) = inr (s, m, k)

  remote_loop-Exactly :
      (remotes : List Remote)
      → All (IsAnswered cf) remotes
      → Exactly (remote_loop lib cf remotes) (IsMade lib cf remotes)
  unfolding remote_loop
  remote_loop-Exactly [] h = ([], refl, λ w. (λ m. elim m [ ], λ (r, m, k). elim m [ ]))
  remote_loop-Exactly (remote ∷ rest) (h, hs) =
      Exactly-append (service_loop lib cf remote (from cf.imported_service_store remote))
        (remote_loop lib cf rest) (ForOne lib cf remote (from cf.imported_service_store remote))
        (IsMade lib cf rest) (IsMade lib cf (remote ∷ rest))
        (service_loop-Exactly remote (from cf.imported_service_store remote) h)
        (remote_loop-Exactly rest hs)
        (λ w. (
          elim [ inl k ↦ (remote, Memᴰ.head refl, k) | inr (r, m, k) ↦ (r, Memᴰ.tail m, k) ],
          from_cons w,
        ))
    where
      from_cons :
          (w : Object WorkloadEntrySpec)
          → IsMade lib cf (remote ∷ rest) w
          → ForOne lib cf remote (from cf.imported_service_store remote) w ⊎ IsMade lib cf rest w
      from_cons w (r, Memᴰ.head e, k) =
          inl (subst (λ t. ForOne lib cf t (from cf.imported_service_store t) w) e k)
      from_cons w (r, Memᴰ.tail m, k) = inr (r, m, k)

-- If every imported host name can be read and the lister answers for it, the entries are built; and
-- an entry is among them exactly when it is, for some remote of the configuration, some service that
-- the remote exports and the lister has, and some IP that an address of the remote stands for, the
-- entry with that IP as its address, in the namespace of the service, named after the remote, the
-- service and the number of the IPs before this one, with the service's labels and the remote's
-- network, and with every port's name, and no other, sent to the port of the remote.
pub workload_entries-mem_iff :
    (lib : Library) (cf : ConfigFactory) (w : Object WorkloadEntrySpec)
    → All (IsAnswered cf) cf.cfg.mesh_peers.remotes
    → (ws : List (Object WorkloadEntrySpec)) × (workload_entries lib cf ≡ done ws)
      × (Memᴰ w ws ↔ IsMade lib cf cf.cfg.mesh_peers.remotes w)
unfolding workload_entries
workload_entries-mem_iff lib cf w h =
    let (ws, e, k) = remote_loop-Exactly lib cf cf.cfg.mesh_peers.remotes h in (ws, e, k w)
