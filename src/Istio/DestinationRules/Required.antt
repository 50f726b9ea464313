-- ===== src/Istio/DestinationRules/Required.antt =====
-- Which destination rules there are, written out.
use federation.Common.{
  ◌≡◌, refl, ap, true, false, Bool-cases, inl, inr, List, [], ◌∷◌, ◌++◌, map, Text, codes, All,
}
use federation.Common.Decimal.{format}
use federation.Common.GoMap.{lookup, text_key}
use federation.Common.Outcomes.{done}
use federation.Common.Split.{substitute}
use federation.Config.{Remote, is_router, service_name, service_fqdn}
use federation.Kubernetes.{Object, cluster_local}
use federation.Fds.{ServicePort, FederatedService}
use federation.Fds.Store.{from}
use federation.Istio.{ConfigFactory, DestinationRuleSpec, PortTls, host_tls, port_level}
use federation.Istio.Names.{
  separate_with_dash_lem, get_service_name_and_ns, router_compatible_sni, HasParts,
}
use federation.Istio.DestinationRules.{
  rule_object, controller_rule, import_rule, port_setting, port_settings_lem, service_rule,
  service_rules, remote_rules, rules_of, destination_rules,
}

-- A rule for a host: named after it, with each dot replaced by a dash.
abbrev pub rule_for : ConfigFactory → Text → DestinationRuleSpec → Object DestinationRuleSpec
rule_for cf host spec = record {
  name = codes "mtls-sni-" ++ map (substitute b'.' b'-') host;
  namespace = cf.cfg.mesh_peers.local.control_plane.namespace;
  labels = (codes "federation.openshift-service-mesh.io/peer", codes "todo") ∷ [];
  spec = spec;
}

abbrev controller_name : Remote → Text
controller_name remote = codes "federation-discovery-service-" ++ remote.name

abbrev controller_host : Remote → Text
controller_host remote = controller_name remote ++ codes ".istio-system.svc.cluster.local"

-- The rule for the controller of a remote: one SNI for the whole host.
abbrev pub for_controller : ConfigFactory → Remote → Object DestinationRuleSpec
for_controller cf remote = rule_for cf (controller_host remote) (record {
  host = controller_host remote;
  traffic_policy = host_tls (record {
    sni =
        controller_name remote
        ++ (codes "-" ++ (format 15080 ++ codes ".istio-system.svc.cluster.local"));
  });
})

-- The setting of a port for a service of a name and a namespace.
abbrev pub for_port : Text → Text → ServicePort → PortTls
for_port name namespace p = record {
  number = p.number;
  tls = record {
    sni =
        name
        ++ (codes "-"
            ++ (format p.number ++ (codes "." ++ (namespace ++ codes ".svc.cluster.local"))));
  };
}

-- The rule for an imported service of a name and a namespace: one setting for each of its ports.
abbrev pub for_service : ConfigFactory → FederatedService → Text → Text → Object DestinationRuleSpec
for_service cf svc name namespace = rule_for cf svc.hostname (record {
  host = svc.hostname;
  traffic_policy = port_level (map (for_port name namespace) svc.ports);
})

-- The rules that imported services need, in their order.
pub data Imported (cf : ConfigFactory)
    : List FederatedService → List (Object DestinationRuleSpec) → Type 0 where
  no_services : Imported cf [] []
  and_service :
      (svc : FederatedService) (name namespace : Text) (rest : List FederatedService)
      (rules : List (Object DestinationRuleSpec))
      → get_service_name_and_ns svc.hostname ≡ done (name, namespace)
      → Imported cf rest rules
      → Imported cf (svc ∷ rest) (for_service cf svc name namespace ∷ rules)

-- The rules that remotes need, in their order: a remote that is not behind the router needs none.
pub data Required (cf : ConfigFactory)
    : List Remote → List (Object DestinationRuleSpec) → Type 0 where
  no_remotes : Required cf [] []
  plain :
      (remote : Remote) (rest : List Remote) (rules : List (Object DestinationRuleSpec))
      → is_router remote.ingress_type ≡ false
      → Required cf rest rules
      → Required cf (remote ∷ rest) rules
  routed :
      (remote : Remote) (rest : List Remote) (imports rules : List (Object DestinationRuleSpec))
      → is_router remote.ingress_type ≡ true
      → Imported cf (from cf.imported_service_store remote) imports
      → Required cf rest rules
      → Required cf (remote ∷ rest) (for_controller cf remote ∷ imports ++ rules)

-- Every imported host name has a name and a namespace.
abbrev pub Readable : ConfigFactory → Remote → Type 0
Readable cf remote =
    All (λ (svc : FederatedService). HasParts svc.hostname) (from cf.imported_service_store remote)

module _ (cf : ConfigFactory) where
  rule_object_lem :
      (host : Text) (spec : DestinationRuleSpec) → rule_object cf host spec ≡ rule_for cf host spec
  unfolding rule_object
  rule_object_lem host spec = rw (separate_with_dash_lem host) refl

  controller_rule_lem : (remote : Remote) → controller_rule cf remote ≡ for_controller cf remote
  unfolding controller_rule service_name service_fqdn cluster_local router_compatible_sni
  controller_rule_lem remote = rule_object_lem _ _

  import_rule_lem :
      (svc : FederatedService) (name namespace : Text)
      → import_rule cf svc (map (port_setting (name, namespace)) svc.ports)
        ≡ for_service cf svc name namespace
  unfolding router_compatible_sni
  import_rule_lem svc name namespace = rule_object_lem svc.hostname _

  service_rules-Imported :
      (svcs : List FederatedService)
      → All (λ (svc : FederatedService). HasParts svc.hostname) svcs
      → (rules : List (Object DestinationRuleSpec)) × (service_rules cf [] svcs ≡ done rules)
        × Imported cf svcs rules
  unfolding service_rules service_rule lookup
  service_rules-Imported [] h = ([], refl, no_services)
  service_rules-Imported (svc ∷ rest) (((name, namespace), e), h) =
      let (rules, p, need) = service_rules-Imported rest h in
      (
        for_service cf svc name namespace ∷ rules,
        rw (port_settings_lem svc.hostname (name, namespace) svc.ports e)
            (rw p (ap (λ r. done (r ∷ rules)) (import_rule_lem svc name namespace))),
        and_service svc name namespace rest rules e need,
      )

  rules_of-Required :
      (remotes : List Remote)
      → All (Readable cf) remotes
      → (rules : List (Object DestinationRuleSpec)) × (rules_of cf [] remotes ≡ done rules)
        × Required cf remotes rules
  unfolding rules_of remote_rules
  rules_of-Required [] h = ([], refl, no_remotes)
  rules_of-Required (remote ∷ rest) (h, hs) =
      let (rules, p, need) = rules_of-Required rest hs in
      elim (Bool-cases (is_router remote.ingress_type)) [
        | inl router ↦
            let (imports, q, needed) =
              service_rules-Imported (from cf.imported_service_store remote) h in
            (
              for_controller cf remote ∷ imports ++ rules,
              rw router (
                  rw q (rw p (ap (λ r. done (r ∷ imports ++ rules)) (controller_rule_lem remote)))),
              routed remote rest imports rules router needed need,
            )
        | inr other ↦ (rules, rw other (rw p refl), plain remote rest rules other need)
      ]

-- With readable host names the rules are built, and they are, in the order of the remotes that are
-- behind the router, the rule for the remote's controller, with one SNI for its host, and then
-- one for each service imported from it, with the port's SNI by the service's name and namespace for
-- each of its ports: a service that two such remotes export has two rules of one name.
pub destination_rules-Required :
    (cf : ConfigFactory)
    → All (Readable cf) cf.cfg.mesh_peers.remotes
    → (rules : List (Object DestinationRuleSpec)) × (destination_rules cf ≡ done rules)
      × Required cf cf.cfg.mesh_peers.remotes rules
unfolding destination_rules
destination_rules-Required cf h = rules_of-Required cf cf.cfg.mesh_peers.remotes h
