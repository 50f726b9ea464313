-- ===== src/Informer.antt =====
-- internal/pkg/legacy/informer/service_export_event_handler.go and internal/pkg/common: pushes on
-- changes of local services. `matches` is whether a `labels.SelectorFromSet` matches a set of labels.
pub mod Controller
use mathlib.Core.List.{Memᴰ}
use federation.Common.{
  ◌≡◌, refl, ap, ◌∙◌, sym, ◌↔◌, Bool, true, false, Bool-cases, ◌⊎◌, inl, inr, none, List, [], ◌∷◌,
  Text, if◌then◌else◌, arith,
}
use federation.Config.{Labels, LabelSelectors, Federation, get_label_selectors}
use federation.Kubernetes.{Service}
use federation.Xds.{
  PushRequest, gateway_type_url, envoy_filter_type_url, route_type_url, exported_service_type_url,
}

abbrev pub Matcher : Type 0
Matcher = Labels → Labels → Bool

unfoldable pub match_export_rules : Matcher → Service → List LabelSelectors → Bool
match_export_rules matches svc [] = false
match_export_rules matches svc (s ∷ ss) =
    if matches s.match_labels svc.labels then true else match_export_rules matches svc ss

-- What was sent on the two channels of the handler, in order.
pub record Pushes : Type 0 where
  pub mcp : List PushRequest
  pub fds : List PushRequest

abbrev pub no_pushes : Pushes
no_pushes = record { mcp = []; fds = [] }

abbrev pub request : Text → PushRequest
request url = record { type_url = url; resources = none }

-- `triggerXDSPush`.
abbrev pub trigger_xds_push : Pushes
trigger_xds_push = record {
  mcp = request gateway_type_url ∷ request envoy_filter_type_url ∷ request route_type_url ∷ [];
  fds = request exported_service_type_url ∷ [];
}

-- `triggerXDSPushIfMatchRules` with one service, and with two.
unfoldable pub trigger_if_matches : Matcher → Federation → Service → Pushes
trigger_if_matches matches cfg svc =
    if match_export_rules matches svc (get_label_selectors cfg.exported_service_set)
    then trigger_xds_push
    else no_pushes

differ : Bool → Bool → Bool
differ true b = elim b [ true ↦ false | false ↦ true ]
differ false b = b

unfoldable pub trigger_if_differs : Matcher → Federation → Service → Service → Pushes
unfolding differ
trigger_if_differs matches cfg old new =
    if differ (match_export_rules matches old (get_label_selectors cfg.exported_service_set))
      (match_export_rules matches new (get_label_selectors cfg.exported_service_set))
    then trigger_xds_push
    else no_pushes

-- The events of a `runtime.Object` that is a service.
pub data Event : Type 0 where
  object_created object_deleted : Service → Event
  object_updated : Service → Service → Event

unfoldable pub on_event : Matcher → Federation → Event → Pushes
unfolding trigger_if_matches trigger_if_differs
on_event matches cfg (object_created svc) = trigger_if_matches matches cfg svc
on_event matches cfg (object_deleted svc) = trigger_if_matches matches cfg svc
on_event matches cfg (object_updated old new) = trigger_if_differs matches cfg old new

-- Some selector of the export rules matches the service.
abbrev pub IsExported : Matcher → List LabelSelectors → Service → Type 0
IsExported matches selectors svc =
    (s : LabelSelectors) × Memᴰ s selectors × (matches s.match_labels svc.labels ≡ true)

match_export_rules-of_mem :
    (matches : Matcher) (svc : Service) (s : LabelSelectors) (selectors : List LabelSelectors)
    → Memᴰ s selectors
    → matches s.match_labels svc.labels ≡ true
    → match_export_rules matches svc selectors ≡ true
unfolding match_export_rules
match_export_rules-of_mem matches svc s [] m h = elim m [ ]
match_export_rules-of_mem matches svc s (r ∷ rs) (Memᴰ.head e) h =
    let at_r = ap (λ (x : LabelSelectors). matches x.match_labels svc.labels) (sym e) ∙ h in
    rw at_r refl
match_export_rules-of_mem matches svc s (r ∷ rs) (Memᴰ.tail m) h =
    ground (arith, match_export_rules-of_mem matches svc s rs m h)

IsExported-of_match_export_rules :
    (matches : Matcher) (svc : Service) (selectors : List LabelSelectors)
    → match_export_rules matches svc selectors ≡ true
    → IsExported matches selectors svc
unfolding match_export_rules
IsExported-of_match_export_rules matches svc [] h = absurd (cc)
IsExported-of_match_export_rules matches svc (r ∷ rs) h =
    elim (Bool-cases (matches r.match_labels svc.labels)) [
      | inl e ↦ (r, Memᴰ.head refl, e)
      | inr n ↦
          let (s, m, e) = IsExported-of_match_export_rules matches svc rs (ground arith) in
          (s, Memᴰ.tail m, e)
    ]

-- The rules are met exactly when some selector of theirs matches the service's labels.
pub match_export_rules_iff :
    (matches : Matcher) (svc : Service) (selectors : List LabelSelectors)
    → (match_export_rules matches svc selectors ≡ true) ↔ IsExported matches selectors svc
match_export_rules_iff matches svc selectors = (
  IsExported-of_match_export_rules matches svc selectors,
  λ (s, m, e). match_export_rules-of_mem matches svc s selectors m e,
)

-- The event changes what is exported: a service comes or goes that some selector matches, or a
-- service is matched before the event or after it, but not both.
abbrev pub ChangesExport : Matcher → List LabelSelectors → Event → Type 0
ChangesExport matches selectors (object_created svc) = IsExported matches selectors svc
ChangesExport matches selectors (object_deleted svc) = IsExported matches selectors svc
ChangesExport matches selectors (object_updated old new) =
    (IsExported matches selectors old × (¬ IsExported matches selectors new))
    ⊎ ((¬ IsExported matches selectors old) × IsExported matches selectors new)

-- For every event, if a service that some selector of the export rules matches comes or goes, or a
-- service starts or stops to be matched, then the gateway, the envoy filters and the routes are
-- asked for on the one channel, in this order, and the exported services on the other; else nothing
-- is sent on either.
pub on_event_cases :
    (matches : Matcher) (cfg : Federation) (event : Event)
    → (ChangesExport matches (get_label_selectors cfg.exported_service_set) event
        × (on_event matches cfg event ≡ record {
          mcp =
              record { type_url = gateway_type_url; resources = none }
              ∷ record { type_url = envoy_filter_type_url; resources = none }
              ∷ record { type_url = route_type_url; resources = none }
              ∷ [];
          fds = record { type_url = exported_service_type_url; resources = none } ∷ [];
        }))
      ⊎ ((¬ ChangesExport matches (get_label_selectors cfg.exported_service_set) event)
          × (on_event matches cfg event ≡ record { mcp = []; fds = [] }))
unfolding on_event
on_event_cases matches cfg (object_created svc) =
    let iff = match_export_rules_iff matches svc (get_label_selectors cfg.exported_service_set) in
    elim (Bool-cases
      (match_export_rules matches svc (get_label_selectors cfg.exported_service_set))) [
        | inl e ↦ inl (iff.0 e, rw e refl)
        | inr n ↦ inr (λ x. let e = iff.1 x in cc, rw n refl)
      ]
on_event_cases matches cfg (object_deleted svc) =
    let iff = match_export_rules_iff matches svc (get_label_selectors cfg.exported_service_set) in
    elim (Bool-cases
      (match_export_rules matches svc (get_label_selectors cfg.exported_service_set))) [
        | inl e ↦ inl (iff.0 e, rw e refl)
        | inr n ↦ inr (λ x. let e = iff.1 x in cc, rw n refl)
      ]
on_event_cases matches cfg (object_updated old new) =
    let selectors = get_label_selectors cfg.exported_service_set in
    let before = match_export_rules_iff matches old selectors in
    let after = match_export_rules_iff matches new selectors in
    elim (Bool-cases (match_export_rules matches old selectors)) [
      | inl e ↦ elim (Bool-cases (match_export_rules matches new selectors)) [
        | inl e' ↦
            inr (
              elim [ inl (x, n) ↦ n (after.0 e') | inr (n, y) ↦ n (before.0 e) ],
              rw e (rw e' refl),
            )
        | inr n' ↦ inl (inl (before.0 e, λ y. let e' = after.1 y in cc), rw e (rw n' refl))
      ]
      | inr n ↦ elim (Bool-cases (match_export_rules matches new selectors)) [
        | inl e' ↦ inl (inr (λ x. let e = before.1 x in cc, after.0 e'), rw n (rw e' refl))
        | inr n' ↦ inr (
          elim [ inl (x, m) ↦ let e = before.1 x in cc | inr (m, y) ↦ let e' = after.1 y in cc ],
          rw n (rw n' refl),
        )
      ]
    ]

match_export_rules_of_labels :
    (matches : Matcher) (old new : Service) (selectors : List LabelSelectors)
    → old.labels ≡ new.labels
    → match_export_rules matches old selectors ≡ match_export_rules matches new selectors
unfolding match_export_rules
match_export_rules_of_labels matches old new [] h = refl
match_export_rules_of_labels matches old new (s ∷ ss) h =
    rw (h, match_export_rules_of_labels matches old new ss h) refl

-- An update that keeps the labels pushes nothing, whatever it does to the ports that peers have
-- imported.
pub on_event_of_same_labels :
    (matches : Matcher) (cfg : Federation) (old new : Service)
    → old.labels ≡ new.labels
    → on_event matches cfg (object_updated old new) ≡ no_pushes
unfolding on_event
on_event_of_same_labels matches cfg old new h =
    rw
      (match_export_rules_of_labels matches old new (get_label_selectors cfg.exported_service_set)
        h)
      (ground arith)
