-- ===== src/Config/Parse.antt =====
-- internal/pkg/config/parse.go. The decoding of JSON text into a struct, unknown fields refused, is
-- that of encoding/json by reflection: one function for each target type is a parameter.
use federation.Common.{
  ◌≡◌, ◌≢◌, ◌↔◌, text_eq_iff, Text, codes, text_eq, if◌then◌else◌, arith, Result, ok, ◌>>=◌,
  with_context, [], ◌⊎◌,
}
use federation.Config.{MeshPeers, ExportedServiceSet, ImportedServiceSet, Federation}

pub record Decoder : Type 0 where
  pub peers : Text → Result MeshPeers
  pub exported : Text → Result ExportedServiceSet
  pub imported : Text → Result ImportedServiceSet

abbrev pub no_imports : ImportedServiceSet
no_imports = record { rules = [] }

-- `unmarshalJSON` around a decoder.
unfoldable pub unmarshal_json {ℓ} : {A : Type ℓ} → (Text → Result A) → Text → Result A
unmarshal_json decode input = with_context (codes "failed to unmarshal JSON") (decode input)

decode_imports : Decoder → Text → Result ImportedServiceSet
decode_imports d input =
    if text_eq input []
    then ok no_imports
    else with_context (codes "failed to unmarshal imported services")
        (unmarshal_json d.imported input)

unfoldable pub parse_args : Decoder → Text → Text → Text → Result Federation
unfolding decode_imports unmarshal_json
parse_args d mesh_peers exported_service_set imported_service_set = do
  peers ← with_context (codes "failed to unmarshal mesh peers") (unmarshal_json d.peers mesh_peers)
  exported ←
      with_context (codes "failed to unmarshal exported services")
        (unmarshal_json d.exported exported_service_set)
  imported ← decode_imports d imported_service_set
  ok (record {
    namespace = [];
    mesh_peers = peers;
    exported_service_set = exported;
    imported_service_set = imported;
  })

-- The import rules that an argument stands for: none for an empty one.
abbrev pub ImportsOf : Decoder → Text → ImportedServiceSet → Type 0
ImportsOf d input imports =
    ((input ≡ []) × (imports ≡ no_imports)) ⊎ ((input ≢ []) × (d.imported input ≡ ok imports))

-- The arguments are accepted, with a given configuration, exactly when each of the first two
-- decodes to its part of it, and the third is empty with no import rules or decodes to them; the
-- namespace is left empty.
pub parse_args-eq-ok_iff :
    (d : Decoder) (peers exported imported : Text) (f : Federation)
    → (parse_args d peers exported imported ≡ ok f) ↔ (
        (d.peers peers ≡ ok f.mesh_peers)
        × (d.exported exported ≡ ok f.exported_service_set)
        × ImportsOf d imported f.imported_service_set
        × (f.namespace ≡ []))
unfolding parse_args
parse_args-eq-ok_iff d peers exported imported f =
    (λ h. ground (arith, text_eq_iff imported []), λ h. ground (arith, text_eq_iff imported []))
