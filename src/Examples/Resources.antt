-- ===== src/Examples/Resources.antt =====
-- Examples for the generated resources.
use mathlib.Core.List.{Memᴰ}
use mathlib.Core.List.Perm
use federation.Common.{
  ℕ, ◌≡◌, ◌≢◌, refl, ◌⊎◌, inl, inr, ◌↔◌, true, text_eq, Option, none, some, List, [], ◌∷◌, ◌++◌,
  map, Text, codes, concat_map, All, Result, ok, err, not_found, arith,
}
use federation.Common.GoMap.{lookup, text_key}
use federation.Common.Split.{Lacks, substitute}
use federation.Common.Outcomes.{done}
use federation.Config.{get_label_selectors, is_router}
use federation.Kubernetes.{ServiceLister, Object, exported_services, cluster_local}
use federation.Fds.Export.{export_service}
use federation.Fds.Store.{from}
use federation.Istio
use federation.Istio.{DestinationRuleSpec, WorkloadEntrySpec, EnvoyFilterSpec}
use federation.Istio.Names.{
  get_service_name_and_ns, get_service_name_and_ns-cluster_local, HasParts,
}
use federation.Istio.Gateway.{ingress_gateway, ingress_gateway-eq_of_perm}
use federation.Istio.DestinationRules.{destination_rules}
use federation.Istio.DestinationRules.Required.{Readable, Required, destination_rules-Required}
use federation.Istio.ServiceEntries.Reach.{IsAnswered, IsMissing, IsLocal}
use federation.Istio.WorkloadEntries.{workload_entries, workload_entry}
use federation.Istio.WorkloadEntries.Exact.{IsMade, workload_entries-mem_iff}
use federation.Examples.{east, west, ratings, reviews, lister, imported, istio_factory, library}

-- The names have no dot.
pub name-Lacks : Lacks b'.' (codes "ratings")
name-Lacks = omega arith

pub namespace-Lacks : Lacks b'.' (codes "bookinfo")
namespace-Lacks = omega arith

get_service_name_and_ns-cluster_local_example :
    get_service_name_and_ns (cluster_local (codes "ratings") (codes "bookinfo"))
    ≡ done (codes "ratings", codes "bookinfo")
get_service_name_and_ns-cluster_local_example =
    get_service_name_and_ns-cluster_local (codes "ratings") (codes "bookinfo") name-Lacks
      namespace-Lacks

pub services_listed :
    exported_services lister (get_label_selectors east.exported_service_set) ≡ ok (ratings ∷ [])
unfolding exported_services get_label_selectors
services_listed = refl

-- The lister may turn its services around.
abbrev one_way : Istio.ConfigFactory
one_way = record istio_factory {
  service_lister = record { list = λ l. ok (ratings ∷ reviews ∷ []); get = lister.get };
}

abbrev other_way : ServiceLister
other_way = record { list = λ l. ok (reviews ∷ ratings ∷ []); get = lister.get }

one_way_listed :
    exported_services one_way.service_lister (get_label_selectors east.exported_service_set)
    ≡ ok (ratings ∷ reviews ∷ [])
unfolding exported_services get_label_selectors
one_way_listed = refl

other_way_listed :
    exported_services other_way (get_label_selectors east.exported_service_set)
    ≡ ok (reviews ∷ ratings ∷ [])
unfolding exported_services get_label_selectors
other_way_listed = refl

ingress_gateway-eq_of_perm_example :
    ingress_gateway one_way ≡ ingress_gateway (record one_way { service_lister = other_way })
ingress_gateway-eq_of_perm_example =
    ingress_gateway-eq_of_perm one_way other_way (ratings ∷ reviews ∷ []) (reviews ∷ ratings ∷ [])
      one_way_listed other_way_listed (Perm.swap reviews ratings [])

pub behind_router : is_router east.mesh_peers.local.ingress_type ≡ true
unfolding text_eq
behind_router = refl

-- What the remote exports.
imports_of_west : from istio_factory.imported_service_store west ≡ imported
unfolding from lookup text_eq
imports_of_west = refl

ratings_parts : HasParts (export_service ratings).hostname
unfolding get_service_name_and_ns export_service cluster_local federation.Common.Split.split
ratings_parts = ((codes "ratings", codes "bookinfo"), refl)

reviews_parts : HasParts (export_service reviews).hostname
unfolding get_service_name_and_ns export_service cluster_local federation.Common.Split.split
reviews_parts = ((codes "reviews", codes "bookinfo"), refl)

west-Readable : Readable istio_factory west
unfolding from lookup text_eq
west-Readable = (ratings_parts, (reviews_parts, tt))

destination_rules-Required_example :
    (rules : List (Object DestinationRuleSpec)) × (destination_rules istio_factory ≡ done rules)
    × Required istio_factory (west ∷ []) rules
destination_rules-Required_example = destination_rules-Required istio_factory (west-Readable, tt)

-- Ratings is in both meshes, reviews only in the remote.
ratings-IsLocal : IsLocal istio_factory (export_service ratings)
unfolding get_service_name_and_ns export_service cluster_local federation.Common.Split.split text_eq
ratings-IsLocal = ((codes "ratings", codes "bookinfo"), refl, ratings, refl)

reviews-IsMissing : IsMissing istio_factory (export_service reviews)
unfolding get_service_name_and_ns export_service cluster_local federation.Common.Split.split text_eq
reviews-IsMissing = ((codes "reviews", codes "bookinfo"), refl, refl)

west-IsAnswered : IsAnswered istio_factory west
unfolding from lookup text_eq
west-IsAnswered = (inr ratings-IsLocal, (inl reviews-IsMissing, tt))

workload_entries-mem_iff_example :
    (ws : List (Object WorkloadEntrySpec)) × (workload_entries library istio_factory ≡ done ws)
    × (Memᴰ
          (workload_entry library west
            (export_service ratings)
            (codes "ratings", codes "bookinfo")
            0
            (codes "10.0.0.1"))
          ws
        ↔ IsMade library istio_factory (west ∷ []) (
            workload_entry library west
              (export_service ratings)
              (codes "ratings", codes "bookinfo")
              0
              (codes "10.0.0.1")))
workload_entries-mem_iff_example =
    workload_entries-mem_iff library istio_factory
      (workload_entry library west (export_service ratings) (codes "ratings", codes "bookinfo") 0
        (codes "10.0.0.1"))
      (west-IsAnswered, tt)
