-- ===== src/Istio/ServiceEntries/Entered.antt =====
-- The entry of a service that the mesh lacks, in what `ServiceEntries` builds.
use federation.Common.{◌≡◌, ap, subst, ◌∙◌, sym, some, List, [], ◌∷◌, map, Text}
use federation.Common.GoMap.{lookup, text_key}
use federation.Config.{Remote}
use federation.Kubernetes.{Object}
use federation.Fds.{FederatedService}
use federation.Istio.{ConfigFactory, Library, ServiceEntrySpec}
use federation.Istio.ServiceEntries.{ByName, svc_entry_name}
use federation.Istio.ServiceEntries.Spec.{Resolves, IsEntryOf, svc_entry_name_lem}
use federation.Istio.ServiceEntries.Reach.{IsNeeded, IsUnambiguous}
use federation.Istio.ServiceEntries.Coverage.{Keyed}

-- An unambiguous service's entry is its own.
pub Keyed-own :
    (lib : Library) (cf : ConfigFactory) (svc : FederatedService) (remote : Remote) (m : ByName)
    (e : Object ServiceEntrySpec)
    → Keyed lib cf (IsNeeded cf) m
    → IsUnambiguous cf svc remote
    → lookup (svc_entry_name svc remote) m ≡ some e
    → IsEntryOf lib cf svc remote e
Keyed-own lib cf svc remote m e keyed alone at_key =
    let (name, s, r, needed, is) = keyed (svc_entry_name svc remote) e at_key in
    let (hosts, ports, same) =
      alone s r needed (sym is.named ∙ name ∙ svc_entry_name_lem svc remote) in
    record {
      named = name ∙ svc_entry_name_lem svc remote;
      namespaced = is.namespaced;
      labelled = is.labelled;
      with_spec = record {
        one_host = is.with_spec.one_host ∙ ap (λ (h : Text). h ∷ []) hosts;
        same_ports = is.with_spec.same_ports ∙ ap (map _) ports;
        inside = is.with_spec.inside;
        resolved =
            subst (λ (q : Remote). Resolves lib e.spec.resolution q) same is.with_spec.resolved;
      };
    }
