-- ===== src/Istio/DestinationRules.antt =====
-- `DestinationRules`: client-side SNIs for remotes behind the OpenShift router.
pub mod Required
use federation.Common.{
  ℕ, ◌≡◌, refl, ap, ◌∙◌, sym, Bool, true, false, not, Option, none, some, List, [], ◌∷◌, ◌++◌, map,
  Text, codes, concat_map, if◌then◌else◌, arith,
}
use federation.Common.GoMap.{lookup, text_key}
use federation.Common.Outcomes.{Outcome, done, fail, panic, ◌>>=◌}
use federation.Config.{Remote, is_router, service_name, service_fqdn, service_port}
use federation.Kubernetes.{Object, peer_label, cluster_local}
use federation.Fds.{ServicePort, FederatedService}
use federation.Fds.Store.{from}
use federation.Istio.{ConfigFactory, DestinationRuleSpec, PortTls, ClientTls, host_tls, port_level}
use federation.Istio.Names.{separate_with_dash, get_service_name_and_ns, router_compatible_sni}

-- `createObjectMeta`, around a spec.
unfoldable pub rule_object : ConfigFactory → Text → DestinationRuleSpec → Object DestinationRuleSpec
rule_object cf hostname spec = record {
  name = codes "mtls-sni-" ++ separate_with_dash hostname;
  namespace = cf.cfg.mesh_peers.local.control_plane.namespace;
  labels = peer_label;
  spec = spec;
}

-- The rule for the remote's own discovery service.
unfoldable pub controller_rule : ConfigFactory → Remote → Object DestinationRuleSpec
controller_rule cf remote =
    rule_object cf (cluster_local (service_name remote) (codes "istio-system")) (record {
      host = service_fqdn remote;
      traffic_policy = host_tls (record {
        sni =
            router_compatible_sni (service_name remote) (codes "istio-system")
              (service_port remote);
      });
    })

-- The setting of one port.
abbrev pub port_setting : Text × Text → ServicePort → PortTls
port_setting parts p = record {
  number = p.number;
  tls = record { sni = router_compatible_sni parts.0 parts.1 p.number };
}

-- One entry for each port; a host name without a dot panics at the first port.
unfoldable pub port_settings : Text → List ServicePort → Outcome (List PortTls)
port_settings hostname [] = done []
port_settings hostname (p ∷ ps) = do
  parts ← get_service_name_and_ns hostname
  rest ← port_settings hostname ps
  done (port_setting parts p ∷ rest)

-- `!destinationRulesAlreadyCreated[name]`: a missing key reads as false.
abbrev already_created : Text → List (Text × Bool) → Bool
already_created name created = elim (lookup name created) [ none ↦ false | some b ↦ b ]

-- The rule for an imported service with its port settings.
abbrev pub import_rule :
    ConfigFactory → FederatedService → List PortTls → Object DestinationRuleSpec
import_rule cf svc settings =
    rule_object cf svc.hostname
      (record { host = svc.hostname; traffic_policy = port_level settings })

-- One imported service. The code reads the map `created` and never writes it.
service_rule :
    ConfigFactory
    → List (Text × Bool)
    → FederatedService
    → Outcome (List (Object DestinationRuleSpec))
service_rule cf created svc =
    if already_created (codes "mtls-sni-" ++ separate_with_dash svc.hostname) created
    then done []
    else do settings ← port_settings svc.hostname svc.ports; done (import_rule cf svc settings ∷ [])

service_rules :
    ConfigFactory
    → List (Text × Bool)
    → List FederatedService
    → Outcome (List (Object DestinationRuleSpec))
service_rules cf created [] = done []
service_rules cf created (svc ∷ rest) = do
  first ← service_rule cf created svc
  others ← service_rules cf created rest
  done (first ++ others)

remote_rules :
    ConfigFactory → List (Text × Bool) → Remote → Outcome (List (Object DestinationRuleSpec))
remote_rules cf created remote =
    if is_router remote.ingress_type
    then (do
      rules ← service_rules cf created (from cf.imported_service_store remote)
      done (controller_rule cf remote ∷ rules))
    else done []

rules_of :
    ConfigFactory → List (Text × Bool) → List Remote → Outcome (List (Object DestinationRuleSpec))
rules_of cf created [] = done []
rules_of cf created (remote ∷ rest) = do
  first ← remote_rules cf created remote
  others ← rules_of cf created rest
  done (first ++ others)

unfoldable pub destination_rules : ConfigFactory → Outcome (List (Object DestinationRuleSpec))
unfolding rules_of remote_rules service_rules service_rule
destination_rules cf = rules_of cf [] cf.cfg.mesh_peers.remotes

-- With a name and a namespace in the host name, each port gets its setting.
pub port_settings_lem :
    (hostname : Text) (parts : Text × Text) (ps : List ServicePort)
    → get_service_name_and_ns hostname ≡ done parts
    → port_settings hostname ps ≡ done (map (port_setting parts) ps)
unfolding port_settings
port_settings_lem hostname parts [] e = refl
port_settings_lem hostname parts (p ∷ ps) e = rw e (rw (port_settings_lem hostname parts ps e))
