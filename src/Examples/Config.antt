-- ===== src/Examples/Config.antt =====
-- Examples for the configuration.
use federation.Common.{◌≡◌, refl, ◌↔◌, text_eq, none, [], codes, ok, err, not_found}
use federation.Config.{MeshPeers, any_remote_peer_with_openshift_router_ingress, Federation}
use federation.Config.Parse.{Decoder, parse_args, ImportsOf, parse_args-eq-ok_iff}
use federation.Config.Cluster.{pod_namespace, namespace, pod_namespace-ne-nil, namespace_stable}
use federation.Examples.{peers, east}

-- A decoder that answers the example whatever the text is.
abbrev pub decoder : Decoder
decoder = record {
  peers = λ t. ok peers;
  exported = λ t. ok east.exported_service_set;
  imported = λ t. err not_found;
}

parse_args_test : parse_args decoder (codes "{}") (codes "{}") [] ≡ ok east
unfolding parse_args text_eq
parse_args_test = refl

parse_args-eq-ok_iff_example : (parse_args decoder (codes "{}") (codes "{}") [] ≡ ok east) ↔ (
    (decoder.peers (codes "{}") ≡ ok east.mesh_peers)
    × (decoder.exported (codes "{}") ≡ ok east.exported_service_set)
    × ImportsOf decoder [] east.imported_service_set
    × (east.namespace ≡ []))
parse_args-eq-ok_iff_example = parse_args-eq-ok_iff decoder (codes "{}") (codes "{}") [] east

pod_namespace_test : pod_namespace none (ok (codes " mesh\n")) ≡ codes "mesh"
unfolding pod_namespace text_eq federation.Config.Cluster.trim_space
pod_namespace_test = refl
