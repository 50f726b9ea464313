-- ===== src/Istio/Names.antt =====
-- The helpers at the end of config_factory.go: host names, SNIs and port maps.
use mathlib.Core.List.{Memᴰ}
use federation.Common.{
  ℕ, ◌≡◌, ◌≢◌, refl, ap, sym, ◌∙◌, ◌⊎◌, inl, inr, Bool-cases, none, some, text_eq, text_eq_iff,
  List, [], ◌∷◌, ◌++◌, map, Text, codes,
}
use federation.Common.Split.{
  split, split_of_Lacks, join, Lacks, split-append, join-split, substitute,
}
use federation.Common.Decimal.{format}
use federation.Common.GoMap.{insert, lookup, lookup-insert, text_key}
use federation.Common.Outcomes.{Outcome, done, panic}
use federation.Kubernetes.{cluster_local}
use federation.Fds.{ServicePort}

-- `fmt.Sprintf("%s-%d.%s.svc.cluster.local", svcName, port, svcNs)`.
unfoldable pub router_compatible_sni : Text → Text → ℕ → Text
router_compatible_sni svc_name svc_ns port =
    svc_name
    ++ (codes "-" ++ (format port ++ (codes "." ++ (svc_ns ++ codes ".svc.cluster.local"))))

-- Every port name is sent to the one port of the remote gateway.
ports_onto : List (Text × ℕ) → List ServicePort → ℕ → List (Text × ℕ)
ports_onto m [] remote_port = m
ports_onto m (p ∷ ps) remote_port = ports_onto (insert p.name remote_port m) ps remote_port

unfoldable pub make_ports_map : List ServicePort → ℕ → List (Text × ℕ)
unfolding ports_onto
make_ports_map ports remote_port = ports_onto [] ports remote_port

-- Every port's name, and no other, is sent to the one port.
abbrev pub SendsNames : List ServicePort → ℕ → List (Text × ℕ) → Type 0
SendsNames ports remote_port m =
    (name : Text)
    → ((p : ServicePort) × Memᴰ p ports × (p.name ≡ name) × (lookup name m ≡ some remote_port))
      ⊎ (((p : ServicePort) → Memᴰ p ports → p.name ≢ name) × (lookup name m ≡ none))

ports_onto_cases :
    (m : List (Text × ℕ)) (ports : List ServicePort) (remote_port : ℕ) (name : Text)
    → ((p : ServicePort) × Memᴰ p ports
        × (p.name ≡ name)
        × (lookup name (ports_onto m ports remote_port) ≡ some remote_port))
      ⊎ (((p : ServicePort) → Memᴰ p ports → p.name ≢ name)
          × (lookup name (ports_onto m ports remote_port) ≡ lookup name m))
unfolding ports_onto
ports_onto_cases m [] r name = inr (λ p mem. elim mem [ ], refl)
ports_onto_cases m (q ∷ ps) r name = elim (ports_onto_cases (insert q.name r m) ps r name) [
  | inl (p, mem, same, found) ↦ inl (p, Memᴰ.tail mem, same, found)
  | inr (none_named, kept) ↦ elim (Bool-cases (text_eq q.name name)) [
    | inl same ↦ inl (
      q,
      Memᴰ.head refl,
      (text_eq_iff q.name name).0 same,
      kept ∙ lookup-insert q.name name r m ∙ rw same refl,
    )
    | inr other ↦ inr (
      λ p mem. elim mem [
        | Memᴰ.head e ↦ λ named.
            let same =
              (text_eq_iff q.name name).1 (ap (λ (t : ServicePort). t.name) (sym e) ∙ named) in
            cc
        | Memᴰ.tail there ↦ none_named p there
      ],
      kept ∙ lookup-insert q.name name r m ∙ rw other refl,
    )
  ]
]

pub make_ports_map-SendsNames :
    (ports : List ServicePort) (remote_port : ℕ)
    → SendsNames ports remote_port (make_ports_map ports remote_port)
unfolding make_ports_map lookup
make_ports_map-SendsNames ports remote_port name = ports_onto_cases [] ports remote_port name

unfoldable pub separate_with_dash : Text → Text
separate_with_dash hostname = join b'-' (split b'.' hostname)

-- `domainLabels[0], domainLabels[1]`: the second index is out of range where there is no dot.
first_two : List Text → Outcome (Text × Text)
first_two (a ∷ b ∷ rest) = done (a, b)
first_two _ = panic

unfoldable pub get_service_name_and_ns : Text → Outcome (Text × Text)
unfolding first_two
get_service_name_and_ns hostname = first_two (split b'.' hostname)

-- The host name that a mesh exports reads back as the service's name and namespace, for names
-- without dots, as DNS labels are.
pub get_service_name_and_ns-cluster_local :
    (name namespace : Text)
    → Lacks b'.' name
    → Lacks b'.' namespace
    → get_service_name_and_ns (cluster_local name namespace) ≡ done (name, namespace)
unfolding get_service_name_and_ns cluster_local
get_service_name_and_ns-cluster_local name namespace hn hs = rw (
  split-append b'.' name (namespace ++ codes ".svc.cluster.local") hn,
  split-append b'.' namespace (codes "svc.cluster.local") hs,
)

-- A host name without a dot makes the code panic.
pub get_service_name_and_ns_panics :
    (hostname : Text) → Lacks b'.' hostname → get_service_name_and_ns hostname ≡ panic
unfolding get_service_name_and_ns
get_service_name_and_ns_panics hostname h = rw (split_of_Lacks b'.' hostname h)

-- The dashed name is the host name with each dot replaced.
pub separate_with_dash_lem :
    (hostname : Text) → separate_with_dash hostname ≡ map (substitute b'.' b'-') hostname
unfolding separate_with_dash
separate_with_dash_lem hostname = join-split b'.' b'-' hostname

-- A host name with a dot: the code finds a name and a namespace in it.
abbrev pub HasParts : Text → Type 0
HasParts hostname = (parts : Text × Text) × (get_service_name_and_ns hostname ≡ done parts)
