-- ===== src/Kube/Reconcilers.antt =====
-- The seven reconcilers: each generates what is wanted from its factory and brings the API server to
-- it. `S` is the state of the API server, with one client for each kind.
pub mod Routes
pub mod Apart
use federation.Common.{◌≡◌, List, [], ◌∷◌, Text, codes, Option, none, some, Error, wrap}
use federation.Common.Outcomes.{Outcome, done, fail, panic}
use federation.Config.{Labels}
use federation.Kubernetes.{Object, peer_label}
use federation.Istio
use federation.Istio.{
  Library, GatewaySpec, EnvoyFilterSpec, DestinationRuleSpec, ServiceEntrySpec, WorkloadEntrySpec,
}
use federation.Istio.Gateway.{ingress_gateway}
use federation.Istio.Filters.{envoy_filters}
use federation.Istio.DestinationRules.{destination_rules}
use federation.Istio.ServiceEntries.{service_entries}
use federation.Istio.WorkloadEntries.{workload_entries}
use federation.Openshift
use federation.Openshift.{RouteSpec, routes}
use federation.Kube.Api.{Api, Range}
use federation.Kube.Sync.{Step, Contexts, report, sync}

-- security.istio.io PeerAuthentication.
pub data MtlsMode : Type 0 where
  strict : MtlsMode

pub record PeerAuthenticationSpec : Type 0 where
  pub match_labels : Labels
  pub mtls : MtlsMode

-- The result of a factory: an error ends the reconciliation in its context.
abbrev pub with_wanted : {S A : Type 0} → (Error → Error) → Outcome A → (A → Step S) → Step S
with_wanted in_context (done wanted) k s = k wanted s
with_wanted in_context (fail e) k s = (s, fail (in_context e))
with_wanted in_context panic k s = (s, panic)

-- `if len(wanted) == 0 { return nil }`.
abbrev pub unless_empty : {S A : Type 0} → List A → Step S → Step S
unless_empty [] k s = (s, done tt)
unless_empty (a ∷ rest) k s = k s

unfoldable pub reconcile_gateway : {S : Type 0} → Api S GatewaySpec → Istio.ConfigFactory → Step S
reconcile_gateway api cf =
    with_wanted (wrap (codes "error generating ingress gateway")) (ingress_gateway cf)
      (λ gw s. report (codes "error applying ingress gateway") (api.apply gw s))

-- The peer authentication that the controller gives itself.
abbrev pub peer_authentication : Text → Object PeerAuthenticationSpec
peer_authentication namespace = record {
  name = codes "fds-strict-mtls";
  namespace = namespace;
  labels = peer_label;
  spec = record {
    match_labels = (codes "app.kubernetes.io/name", codes "federation-controller") ∷ [];
    mtls = strict;
  };
}

unfoldable pub reconcile_peer_authentication :
    {S : Type 0} → Api S PeerAuthenticationSpec → Text → Step S
reconcile_peer_authentication api namespace s =
    report (codes "error applying peer authentication")
      (api.apply (peer_authentication namespace) s)

abbrev pub service_entry_contexts : Contexts
service_entry_contexts = record {
  list = codes "failed to list service entries";
  apply = codes "failed to apply service entry";
  delete = codes "failed to delete old service entry";
}

unfoldable pub reconcile_service_entries :
    {S : Type 0}
    → Api S ServiceEntrySpec
    → Range ServiceEntrySpec
    → Library
    → Istio.ConfigFactory
    → Step S
reconcile_service_entries api range lib cf =
    with_wanted (wrap (codes "error generating service entries")) (service_entries lib cf)
      (sync api range service_entry_contexts peer_label)

abbrev pub workload_entry_contexts : Contexts
workload_entry_contexts = record {
  list = codes "failed to list workload entries";
  apply = codes "failed to apply workload entry";
  delete = codes "failed to delete old workload entry";
}

unfoldable pub reconcile_workload_entries :
    {S : Type 0}
    → Api S WorkloadEntrySpec
    → Range WorkloadEntrySpec
    → Library
    → Istio.ConfigFactory
    → Step S
reconcile_workload_entries api range lib cf =
    with_wanted (wrap (codes "error generating workload entries")) (workload_entries lib cf)
      (sync api range workload_entry_contexts peer_label)

abbrev pub destination_rule_contexts : Contexts
destination_rule_contexts = record {
  list = codes "failed to list destination rules";
  apply = codes "failed to apply destination rule";
  delete = codes "failed to delete old destination rule";
}

-- The factory returns no error.
unfoldable pub reconcile_destination_rules :
    {S : Type 0}
    → Api S DestinationRuleSpec
    → Range DestinationRuleSpec
    → Istio.ConfigFactory
    → Step S
reconcile_destination_rules api range cf =
    with_wanted (λ e. e) (destination_rules cf)
      (λ wanted. unless_empty wanted (sync api range destination_rule_contexts peer_label wanted))

abbrev pub envoy_filter_contexts : Contexts
envoy_filter_contexts = record {
  list = codes "failed to list envoy filters";
  apply = codes "failed to apply envoy filter";
  delete = codes "failed to delete old envoy filter";
}

-- The factory returns no error.
unfoldable pub reconcile_envoy_filters :
    {S : Type 0} → Api S EnvoyFilterSpec → Range EnvoyFilterSpec → Istio.ConfigFactory → Step S
reconcile_envoy_filters api range cf =
    with_wanted (λ e. e) (envoy_filters cf)
      (λ wanted. unless_empty wanted (sync api range envoy_filter_contexts peer_label wanted))

abbrev pub route_contexts : Contexts
route_contexts = record {
  list = codes "failed to list routes";
  apply = codes "failed to apply route";
  delete = codes "failed to delete old route";
}

-- The label by which old routes are listed; it is not the one that routes are created with.
abbrev pub route_selector : Labels
route_selector = (codes "federation.openshift.io/peer", codes "todo") ∷ []

unfoldable pub reconcile_routes :
    {S : Type 0} → Api S RouteSpec → Range RouteSpec → Openshift.ConfigFactory → Step S
reconcile_routes api range cf =
    with_wanted (wrap (codes "could not reconcile routes")) (routes cf)
      (sync api range route_contexts route_selector)
