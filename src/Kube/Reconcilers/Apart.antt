-- ===== src/Kube/Reconcilers/Apart.antt =====
-- What the reconcilers leave alone if their clients do.
use federation.Common.{List, [], ◌∷◌, Text, Error}
use federation.Common.Outcomes.{Outcome, done, fail, panic}
use federation.Istio as IstioModel
use federation.Istio.{
  Library, GatewaySpec, EnvoyFilterSpec, DestinationRuleSpec, ServiceEntrySpec, WorkloadEntrySpec,
}
use federation.Istio.Gateway.{ingress_gateway}
use federation.Istio.Filters.{envoy_filters}
use federation.Istio.DestinationRules.{destination_rules}
use federation.Istio.ServiceEntries.{service_entries}
use federation.Istio.WorkloadEntries.{workload_entries}
use federation.Openshift as OpenshiftModel
use federation.Openshift.{RouteSpec, routes}
use federation.Kubernetes.{peer_label}
use federation.Kube.Api.{Api, Range}
use federation.Kube.Sync.{Step}
use federation.Kube.Sync.Apart.{IsApart, Keeps, Keeps-apply, Keeps-sync}
use federation.Kube.Reconcilers.{
  with_wanted, unless_empty, PeerAuthenticationSpec, peer_authentication, reconcile_gateway,
  reconcile_peer_authentication, reconcile_service_entries, reconcile_workload_entries,
  service_entry_contexts, reconcile_destination_rules, reconcile_envoy_filters, reconcile_routes,
  workload_entry_contexts, destination_rule_contexts, envoy_filter_contexts, route_contexts,
  route_selector,
}

module _ {S : Type 0} (P : S → Type 0) where
  Keeps-with_wanted :
      {A : Type 0} (in_context : Error → Error) (o : Outcome A) (k : A → Step S)
      → ((a : A) → Keeps P (k a))
      → Keeps P (with_wanted in_context o k)
  Keeps-with_wanted in_context (done a) k h s p = h a s p
  Keeps-with_wanted in_context (fail e) k h s p = p
  Keeps-with_wanted in_context panic k h s p = p

  Keeps-unless_empty :
      {A : Type 0} (l : List A) (k : Step S) → Keeps P k → Keeps P (unless_empty l k)
  Keeps-unless_empty [] k h s p = p
  Keeps-unless_empty (a ∷ rest) k h s p = h s p

  pub Keeps-reconcile_gateway :
      (api : Api S GatewaySpec) (cf : IstioModel.ConfigFactory)
      → IsApart P api
      → Keeps P (reconcile_gateway api cf)
  unfolding reconcile_gateway
  Keeps-reconcile_gateway api cf apart =
      Keeps-with_wanted _ (ingress_gateway cf) _ (λ gw. Keeps-apply P api apart _ gw)

  pub Keeps-reconcile_peer_authentication :
      (api : Api S PeerAuthenticationSpec) (namespace : Text)
      → IsApart P api
      → Keeps P (reconcile_peer_authentication api namespace)
  unfolding reconcile_peer_authentication
  Keeps-reconcile_peer_authentication api namespace apart =
      Keeps-apply P api apart _ (peer_authentication namespace)

  pub Keeps-reconcile_service_entries :
      (api : Api S ServiceEntrySpec) (range : Range ServiceEntrySpec) (lib : Library)
      (cf : IstioModel.ConfigFactory)
      → IsApart P api
      → Keeps P (reconcile_service_entries api range lib cf)
  unfolding reconcile_service_entries
  Keeps-reconcile_service_entries api range lib cf apart =
      Keeps-with_wanted _ (service_entries lib cf) _
        (Keeps-sync P api apart service_entry_contexts range peer_label)

  pub Keeps-reconcile_workload_entries :
      (api : Api S WorkloadEntrySpec) (range : Range WorkloadEntrySpec) (lib : Library)
      (cf : IstioModel.ConfigFactory)
      → IsApart P api
      → Keeps P (reconcile_workload_entries api range lib cf)
  unfolding reconcile_workload_entries
  Keeps-reconcile_workload_entries api range lib cf apart =
      Keeps-with_wanted _ (workload_entries lib cf) _
        (Keeps-sync P api apart workload_entry_contexts range peer_label)

  pub Keeps-reconcile_destination_rules :
      (api : Api S DestinationRuleSpec) (range : Range DestinationRuleSpec)
      (cf : IstioModel.ConfigFactory)
      → IsApart P api
      → Keeps P (reconcile_destination_rules api range cf)
  unfolding reconcile_destination_rules
  Keeps-reconcile_destination_rules api range cf apart =
      Keeps-with_wanted _ (destination_rules cf) _ (λ wanted.
        Keeps-unless_empty wanted _
          (Keeps-sync P api apart destination_rule_contexts range peer_label wanted))

  pub Keeps-reconcile_envoy_filters :
      (api : Api S EnvoyFilterSpec) (range : Range EnvoyFilterSpec) (cf : IstioModel.ConfigFactory)
      → IsApart P api
      → Keeps P (reconcile_envoy_filters api range cf)
  unfolding reconcile_envoy_filters
  Keeps-reconcile_envoy_filters api range cf apart =
      Keeps-with_wanted _ (envoy_filters cf) _ (λ wanted.
        Keeps-unless_empty wanted _
          (Keeps-sync P api apart envoy_filter_contexts range peer_label wanted))

  pub Keeps-reconcile_routes :
      (api : Api S RouteSpec) (range : Range RouteSpec) (cf : OpenshiftModel.ConfigFactory)
      → IsApart P api
      → Keeps P (reconcile_routes api range cf)
  unfolding reconcile_routes
  Keeps-reconcile_routes api range cf apart =
      Keeps-with_wanted _ (routes cf) _ (Keeps-sync P api apart route_contexts range route_selector)
