-- ===== src/Fds/Protocol.antt =====
-- `detectProtocol` of internal/pkg/legacy/fds/exported_service_generator.go.
use federation.Common.{
  ◌≡◌, refl, Bool, ◌||◌, List, [], ◌∷◌, ◌++◌, Text, codes, text_eq, has_prefix, text_eq→eq,
  if◌then◌else◌, arith, ◌==◌, ==_iff,
}
use federation.Common.Split.{Lacks}

-- `portName == family || strings.HasPrefix(portName, family + "-")`.
names_family : Text → Text → Bool
names_family port_name family =
    text_eq port_name family || has_prefix port_name (family ++ codes "-")

unfoldable pub detect_protocol : Text → Text
unfolding names_family
detect_protocol port_name =
    if names_family port_name (codes "https")
    then codes "HTTPS"
    else if names_family port_name (codes "http")
    then codes "HTTP"
    else if names_family port_name (codes "http2")
    then codes "HTTP2"
    else if names_family port_name (codes "grpc")
    then codes "GRPC"
    else if names_family port_name (codes "tls")
    then codes "TLS"
    else if names_family port_name (codes "mongo")
    then codes "MONGO"
    else codes "TCP"

-- The text in front of the first dash.
pub before_dash : Text → Text
before_dash [] = []
before_dash (c ∷ s) = let rest = before_dash s in if c == b'-' then [] else c ∷ rest

-- The protocol of each family of port names.
pub protocol_table : List (Text × Text)
protocol_table =
    (codes "mongo", codes "MONGO")
    ∷ (codes "tls", codes "TLS")
    ∷ (codes "grpc", codes "GRPC")
    ∷ (codes "http2", codes "HTTP2")
    ∷ (codes "http", codes "HTTP")
    ∷ (codes "https", codes "HTTPS")
    ∷ []

-- The protocol of one family, TCP where the table has none.
pub protocol_of : List (Text × Text) → Text → Text
protocol_of [] family = codes "TCP"
protocol_of ((f, p) ∷ rest) family = if text_eq family f then p else protocol_of rest family

-- The code's test is an equality with what stands in front of the first dash.
names_family_lem :
    (name family : Text)
    → Lacks b'-' family
    → names_family name family ≡ text_eq (before_dash name) family
unfolding names_family text_eq has_prefix before_dash
names_family_lem [] [] h = refl
names_family_lem [] (f ∷ fs) h = refl
names_family_lem (c ∷ s) [] h = ground arith
names_family_lem (c ∷ s) (f ∷ fs) (hf, hs) =
    ground (arith, names_family_lem s fs hs, ==_iff c b'-', ==_iff f b'-', ==_iff c f)

-- For every port name, the detected protocol is the table's for the text in front of the first
-- dash, and TCP where the table has no such entry.
pub detect_protocol_lem :
    (name : Text) → detect_protocol name ≡ protocol_of protocol_table (before_dash name)
unfolding detect_protocol protocol_of protocol_table
detect_protocol_lem name =
    rw
      (
        names_family_lem name (codes "https") (omega arith),
        names_family_lem name (codes "http") (omega arith),
        names_family_lem name (codes "http2") (omega arith),
        names_family_lem name (codes "grpc") (omega arith),
        names_family_lem name (codes "tls") (omega arith),
        names_family_lem name (codes "mongo") (omega arith),
      )
      (ground (
        arith,
        text_eq→eq (before_dash name) (codes "https"),
        text_eq→eq (before_dash name) (codes "http"),
        text_eq→eq (before_dash name) (codes "http2"),
        text_eq→eq (before_dash name) (codes "grpc"),
        text_eq→eq (before_dash name) (codes "tls"),
        text_eq→eq (before_dash name) (codes "mongo"),
      ))
