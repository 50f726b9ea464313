-- ===== src/Controllers/FederatedService.antt =====
-- api/v1alpha1/federatedservice_types.go, and Reconcile of
-- internal/controller/federatedservice/federatedservice_controller.go, which is a scaffold.
use federation.Common.{Option, none, Text, Error}
use federation.Kube.Api.{NamespacedName}

pub record FederatedServiceSpec : Type 0 where
  pub foo : Text

-- FederatedServiceStatus has no fields.
abbrev pub FederatedServiceStatus : Type 0
FederatedServiceStatus = Unit

pub record FederatedService : Type 0 where
  pub name : NamespacedName
  pub spec : FederatedServiceSpec
  pub status : FederatedServiceStatus

-- `Reconcile` only logs: it asks for no other run and has no error.
unfoldable pub reconcile : {S : Type 0} → NamespacedName → S → S × Option Error
reconcile request s = (s, none)
