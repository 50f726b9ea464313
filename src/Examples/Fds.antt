-- ===== src/Examples/Fds.antt =====
-- Examples for the discovery of services.
use federation.Common.{
  ◌≡◌, refl, Option, List, [], ◌∷◌, map, Text, codes, text_eq, if◌then◌else◌, Result, ok, err,
  ◌>>=◌, with_context,
}
use federation.Xds.{Any}
use federation.Fds.Protocol.{detect_protocol}

detect_protocol_test : detect_protocol (codes "grpc-api") ≡ codes "GRPC"
unfolding detect_protocol text_eq federation.Common.has_prefix
detect_protocol_test = refl

abbrev pub sent : List Any
sent = record { type_url = codes "host"; value = codes "bare.bookinfo.svc.cluster.local" } ∷ []
