-- ===== src/Meshes/Discovery.antt =====
-- From the export of a mesh, over the wire, into the store of a peer.
use federation.Common.{
  ◌≡◌, refl, ap, ◌∙◌, sym, none, List, [], ◌∷◌, map, Text, text_eq, if◌then◌else◌, ok, >>=-eq-ok,
  with_context, arith,
}
use federation.Config.{Federation, Remote, get_label_selectors}
use federation.Kubernetes.{Service, ServiceLister, exported_services}
use federation.Xds.{Any}
use federation.Fds.{FederatedService, Codec, RoundTrips}
use federation.Fds.Export.{
  export_service, serialize, generate_response, generate_response_lem, encode_context,
}
use federation.Fds.Store.{ImportedServiceStore, from, from-update}
use federation.Fds.Import.{decode_all, handle, import_pushes}

-- Decoding undoes an encoding that succeeded.
pub decode_all-serialize :
    (c : Codec) (ss : List FederatedService) (wire : List Any)
    → RoundTrips c
    → serialize c ss ≡ ok wire
    → decode_all c wire ≡ ok ss
unfolding serialize decode_all
decode_all-serialize c [] wire rt h =
    let nothing : [] ≡ wire = cc in ap (decode_all c) (sym nothing)
decode_all-serialize c (s ∷ ss) wire rt h =
    let (a, e, h') = >>=-eq-ok (with_context encode_context (c.marshal s)) _ h in
    let (rest, e', h'') = >>=-eq-ok (serialize c ss) _ h' in
    let whole : a ∷ rest ≡ wire = cc in
    let encoded : c.marshal s ≡ ok a = ground arith in
    rw (← whole) (rw (rt.decodes s a encoded) (rw (decode_all-serialize c ss rest rt e')))

-- When the exported services can be listed and encoded, a peer that handles the response under a
-- source name reads, for the remote of that name, the message of each exported service, in order,
-- and for every other remote what it read before; it pushes its three requests and has no error.
pub handle-generate_response :
    (c : Codec) (lister : ServiceLister) (cfg : Federation) (services : List Service)
    (wire : List Any) (source : Text) (s : ImportedServiceStore) (remote : Remote)
    → RoundTrips c
    → exported_services lister (get_label_selectors cfg.exported_service_set) ≡ ok services
    → generate_response c lister cfg ≡ ok wire
    → (from (handle c source wire s).store remote
        ≡ (if text_eq source remote.name then map export_service services else from s remote))
      × ((handle c source wire s).pushed ≡ import_pushes)
      × ((handle c source wire s).error ≡ none)
unfolding handle
handle-generate_response c lister cfg services wire source s remote rt hs hw =
    let sent = sym (generate_response_lem c lister cfg) ∙ hw in
    let sent' : serialize c (map export_service services) ≡ ok wire = rw hs at sent in
    let received = decode_all-serialize c (map export_service services) wire rt sent' in
    (
      rw received (from-update s source (map export_service services) remote),
      rw received refl,
      rw received refl,
    )
