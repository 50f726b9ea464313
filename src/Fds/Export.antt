-- ===== src/Fds/Export.antt =====
-- exported_service_generator.go: the message for each exported service, and their encoding.
use federation.Common.{
  ◌≡◌, refl, ap, Bool, false, List, [], ◌∷◌, map, Text, codes, if◌then◌else◌, ◌==◌, Result, ok, err,
  ◌>>=◌, with_context, concat_map,
}
use federation.Common.Decimal.{ℤ, pos, negsuc, uint32}
use federation.Config.{Federation, get_label_selectors}
use federation.Kubernetes.{
  Service, ServiceLister, list_each, list_each_lem, exported_services, emitted, cluster_local,
}
use federation.Kubernetes
use federation.Xds.{Any}
use federation.Fds.{ServicePort, FederatedService, Codec}
use federation.Fds.Protocol.{detect_protocol}

is_zero : ℤ → Bool
is_zero (pos n) = n == 0
is_zero (negsuc n) = false

-- A target port that is 0 or a name leaves the field at its zero value.
unfoldable pub export_port : Kubernetes.ServicePort → ServicePort
unfolding is_zero
export_port p = record {
  number = uint32 p.port;
  protocol = detect_protocol p.name;
  name = p.name;
  target_port = if is_zero p.target_port then 0 else uint32 p.target_port;
}

unfoldable pub export_service : Service → FederatedService
export_service svc = record {
  hostname = cluster_local svc.name svc.namespace;
  ports = map export_port svc.ports;
  labels = svc.labels;
}

abbrev pub encode_context : Text
encode_context = codes "failed to serialize ExportedService"

-- The first service that cannot be encoded ends the loop.
unfoldable pub serialize : Codec → List FederatedService → Result (List Any)
serialize c [] = ok []
serialize c (s ∷ ss) = do
  a ← with_context encode_context (c.marshal s)
  rest ← serialize c ss
  ok (a ∷ rest)

abbrev pub list_context : Text
list_context = codes "failed to list services"

unfoldable pub generate_response : Codec → ServiceLister → Federation → Result (List Any)
generate_response c lister cfg = do
  exported ←
      list_each lister list_context (λ svc. export_service svc ∷ [])
        (get_label_selectors cfg.exported_service_set)
  serialize c exported

pub concat_map-singleton {ℓ κ} :
    {A : Type ℓ} {B : Type κ} (f : A → B) (xs : List A) → concat_map (λ x. f x ∷ []) xs ≡ map f xs
unfolding concat_map
concat_map-singleton f [] = refl
concat_map-singleton f (x ∷ xs) = ap (◌∷◌ (f x)) (concat_map-singleton f xs)

-- What is sent is the encoding of one message for each exported service, or the failure to list.
pub generate_response_lem :
    (c : Codec) (lister : ServiceLister) (cfg : Federation)
    → generate_response c lister cfg ≡ (do
      services ←
          with_context list_context
            (exported_services lister (get_label_selectors cfg.exported_service_set))
      serialize c (map export_service services))
unfolding generate_response
generate_response_lem c lister cfg =
    rw
      (list_each_lem lister list_context (λ svc. export_service svc ∷ [])
        (get_label_selectors cfg.exported_service_set))
      (encode (exported_services lister (get_label_selectors cfg.exported_service_set)))
  where
    encode :
        (r : Result (List Service))
        → (emitted list_context (λ svc. export_service svc ∷ []) r >>= serialize c)
          ≡ (do services ← with_context list_context r; serialize c (map export_service services))
    encode (err e) = refl
    encode (ok services) = ap (serialize c) (concat_map-singleton export_service services)
