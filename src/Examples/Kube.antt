-- ===== src/Examples/Kube.antt =====
-- Examples for the reconcilers.
use federation.Common.{
  ◌≡◌, refl, Bool, true, false, Bool-cases, inl, inr, none, some, List, [], ◌∷◌, Text, codes,
  text_eq, text_eq→eq, concat_map, ok,
}
use federation.Common.GoMap.{lookup, insert, text_key}
use federation.Common.Outcomes.{done}
use federation.Config.{Labels, get_label_selectors}
use federation.Kubernetes.{Object, peer_label, list_each}
use federation.Openshift.{RouteSpec, routes, create_route, service_routes}
use federation.Kube.Api.{same_name, labelled, NamespacedName, to_map, name_key, add_all}
use federation.Kube.Sync.{Contexts, sync}
use federation.Kube.Sync.Correct.{AsWanted, sync_converges, sync_untouched}
use federation.Kube.Sync.Settled.{Agrees, sync_settled}
use federation.Kube.Reconcilers.{reconcile_routes, route_selector}
use federation.Kube.Reconcilers.Routes.{stale_route_stays}
use federation.Examples.{openshift_factory, gateway_port}
use federation.Examples.Ranges.{in_order}
use federation.Examples.Server.{Slot, server, documented, in_order-Visits, matches}
use federation.Common.Decimal.{pos, format_int, format}

abbrev contexts : Contexts
contexts = record { list = codes "list"; apply = codes "apply"; delete = codes "delete" }

-- One name, objects whose spec is a text, and a state of the server.
abbrev pub place : NamespacedName
place = (codes "istio-system", codes "a")

abbrev at_place : Labels → Text → Object Text
at_place labels spec = record {
  name = codes "a";
  namespace = codes "istio-system";
  labels = labels;
  spec = spec;
}

abbrev before : Slot Text
before = some (peer_label, codes "old")

abbrev texts : List (Object Text)
texts = at_place peer_label (codes "new") ∷ []

-- The object's spec is replaced.
sync_replaces : (sync (server place text_eq) in_order contexts peer_label texts before).1 ≡ done tt
unfolding sync to_map lookup text_eq add_all insert
sync_replaces = refl

sync_converges_example :
    AsWanted matches peer_label
      (lookup place (to_map texts))
      ((documented place text_eq text_eq→eq).view before place)
      ((documented place text_eq text_eq→eq).view
        (sync (server place text_eq) in_order contexts peer_label texts before).0
        place)
sync_converges_example =
    sync_converges (server place text_eq) (documented place text_eq text_eq→eq) in_order
      in_order-Visits contexts peer_label texts before place sync_replaces

-- An object of another owner.
abbrev foreign : Slot Text
foreign = some ((codes "app", codes "x") ∷ [], codes "old")

nothing_wanted : lookup place (to_map {Spec = Text} []) ≡ none
unfolding to_map add_all lookup
nothing_wanted = refl

foreign_hidden :
    labelled matches peer_label ((documented place text_eq text_eq→eq).view foreign place) ≡ none
unfolding text_eq
foreign_hidden = refl

sync_untouched_example :
    (documented place text_eq text_eq→eq).view
      (sync (server place text_eq) in_order contexts peer_label [] foreign).0
      place
    ≡ (documented place text_eq text_eq→eq).view foreign place
sync_untouched_example =
    sync_untouched (server place text_eq) (documented place text_eq text_eq→eq) in_order
      in_order-Visits contexts peer_label [] foreign place nothing_wanted foreign_hidden

-- What is there is what is wanted.
abbrev same_texts : List (Object Text)
same_texts = at_place peer_label (codes "old") ∷ []

same_listed : (server place text_eq).list peer_label before ≡ ok same_texts
unfolding text_eq
same_listed = refl

same_agree :
    (k : NamespacedName)
    → Agrees (server place text_eq) (lookup k (to_map same_texts)) (lookup k (to_map same_texts))
unfolding to_map lookup add_all insert text_eq
same_agree k = elim (Bool-cases (same_name place k)) [
  | inl same ↦ rw same refl
  | inr other ↦ rw other tt
]

sync_settled_example :
    sync (server place text_eq) in_order contexts peer_label same_texts before ≡ (before, done tt)
sync_settled_example =
    sync_settled (server place text_eq) in_order in_order-Visits contexts peer_label same_texts
      same_texts before same_listed same_agree

-- A test of specs that none passes.
abbrev pub never_equal : {Spec : Type 0} → Spec → Spec → Bool
never_equal a b = false

pub never_equal_specs : {Spec : Type 0} (a b : Spec) → never_equal a b ≡ true → a ≡ b
never_equal_specs a b h = cc

-- A route that is no longer wanted.
abbrev stale_place : NamespacedName
stale_place = (codes "istio-system", codes "stale")

abbrev stale : Object RouteSpec
stale = record {
  name = codes "stale";
  namespace = codes "istio-system";
  labels = peer_label;
  spec =
      (create_route openshift_factory gateway_port (codes "old") (codes "bookinfo") (pos 80)).spec;
}

abbrev wanted_routes : List (Object RouteSpec)
wanted_routes =
    create_route openshift_factory gateway_port (codes "federation-discovery-service-east")
      (codes "istio-system") (pos 15080)
    ∷ create_route openshift_factory gateway_port (codes "ratings") (codes "bookinfo") (pos 9080)
    ∷ []

routes_wanted : routes openshift_factory ≡ done wanted_routes
unfolding routes list_each concat_map service_routes get_label_selectors
routes_wanted = refl

stale_unwanted : lookup stale_place (to_map wanted_routes) ≡ none
unfolding to_map add_all insert lookup text_eq create_route format_int format
stale_unwanted = refl

stale_there :
    (documented stale_place (never_equal {Spec = RouteSpec}) never_equal_specs).view
      (some (peer_label, stale.spec))
      stale_place
    ≡ some stale
unfolding text_eq
stale_there = refl

stale_hidden : matches route_selector peer_label ≡ false
unfolding text_eq
stale_hidden = refl

stale_route_stays_example :
    (documented stale_place (never_equal {Spec = RouteSpec}) never_equal_specs).view
      (reconcile_routes
        (server stale_place never_equal)
        in_order
        openshift_factory
        (some (peer_label, stale.spec))).0
      stale_place
    ≡ some stale
stale_route_stays_example =
    stale_route_stays (server stale_place never_equal)
      (documented stale_place never_equal never_equal_specs) in_order openshift_factory
      wanted_routes (some (peer_label, stale.spec)) stale_place stale in_order-Visits routes_wanted
      stale_unwanted stale_there refl stale_hidden

abbrev pub entry_place : NamespacedName
entry_place = (codes "istio-system", codes "federation-discovery-service-west")
