-- ===== src/Controllers/MeshFederation.antt =====
-- api/v1alpha1/meshfederation_types.go, and the controller of the kind in
-- internal/controller/meshfederation/meshfederation_controller.go. `M` is the type of an object's
-- metadata, `L` that of label selectors and `C` that of conditions.
pub mod Outcomes
use federation.Common.{
  ℕ, Bool, true, false, Option, none, some, List, [], ◌∷◌, Text, codes, Error, not_found, wrap,
  is_not_found, Result, ok, err, if◌then◌else◌,
}
use federation.Kube.Api.{NamespacedName}
use federation.Controllers.{ObjectClient, World, interrupted}
use federation.Controllers.Retry.{Attempt, RetryOnConflict, retry_status_update}

pub record PortConfig : Type 0 where
  pub name : Text
  pub number : ℕ

pub record GatewayConfig : Type 0 where
  pub selector : List (Text × Text)
  pub port_config : PortConfig

pub record IngressConfig : Type 0 where
  pub type_ : Text
  pub gateway_config : GatewayConfig

pub record ExportRules (L : Type 0) : Type 0 where
  pub service_selectors : Option L

pub record MeshFederationSpec (L : Type 0) : Type 0 where
  pub network : Text
  pub trust_domain : Text
  pub control_plane_namespace : Text
  pub ingress_config : IngressConfig
  pub export_rules : Option (ExportRules L)

pub record MeshFederationStatus (C : Type 0) : Type 0 where
  pub conditions : List C

pub record MeshFederation (M L C : Type 0) : Type 0 where
  pub object_meta : M
  pub spec : MeshFederationSpec L
  pub status : MeshFederationStatus C

-- apimachinery's conditions: one made from its type, status, reason and message, and
-- `SetStatusCondition` with the list that it leaves.
pub record Conditions (C : Type 0) : Type 0 where
  pub condition : Text → Text → Text → Text → C
  pub set_status_condition : List C → C → List C × Bool

module _ {M L C : Type 0} where
  abbrev pub with_conditions : MeshFederation M L C → List C → MeshFederation M L C
  with_conditions mesh_federation conditions = record {
    object_meta = mesh_federation.object_meta;
    spec = mesh_federation.spec;
    status = record { conditions = conditions };
  }

module _ {C : Type 0} (util : Conditions C) where
  abbrev pub available : C
  available =
      util.condition (codes "Available") (codes "True") (codes "MeshFederationReconciled")
        (codes "Reconcile completed successfully")

  -- Every condition is set.
  unfoldable pub set_all : List C → List C → List C
  set_all [] saved = saved
  set_all (condition ∷ rest) saved = set_all rest (util.set_status_condition saved condition).0

module _ {M L C S : Type 0} (util : Conditions C) (client : ObjectClient S (MeshFederation M L C))
    (retry : RetryOnConflict S) where
  -- The closure for the retried update.
  abbrev pub merged : List C → MeshFederation M L C → MeshFederation M L C
  merged conditions saved = with_conditions saved (set_all util conditions saved.status.conditions)

  -- After `SetStatusCondition`.
  abbrev pub update_conditions : MeshFederation M L C → List C × Bool → Attempt S
  update_conditions mesh_federation (conditions, conditions_changed) w =
      if conditions_changed
      then retry_status_update client retry (with_conditions mesh_federation conditions)
          (merged conditions) w
      else (w, none)

  -- After `Get`.
  abbrev pub on_get : Text → Result (MeshFederation M L C) → Attempt S
  on_get reason (err e) w = if is_not_found e then (w, none) else (w, some (wrap reason e))
  on_get reason (ok mesh_federation) w =
      update_conditions mesh_federation
        (util.set_status_condition mesh_federation.status.conditions (available util)) w

  -- `Reconcile`, with the text of the error when the object cannot be fetched.
  unfoldable pub reconcile : NamespacedName → Text → Attempt S
  reconcile name reason w =
      let now = interrupted w in on_get reason (client.get name now.server) now
