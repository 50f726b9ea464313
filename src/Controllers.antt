-- ===== src/Controllers.antt =====
-- internal/controller: the controllers that a flag adds to the legacy mode, and what they share. `O` is
-- a type of objects and `S` the state of the API server, on which others write too.
pub mod Retry
pub mod Finalizer
pub mod Predicate
pub mod FederatedService
pub mod MeshFederation
use federation.Common.{Bool, Option, none, some, List, [], ◌∷◌, Text, Error, Result}
use federation.Kube.Api.{NamespacedName}

-- controller-runtime's client for one kind, with `DeepCopyObject` and its type assertion.
pub record ObjectClient (S O : Type 0) : Type 0 where
  pub key_of : O → NamespacedName
  pub deep_copy : O → Option O
  pub get : NamespacedName → S → Result O
  pub update : O → S → S × Option Error
  pub update_status : O → S → S × Option Error

-- The server, and what others do to it between the calls of this program, in turn.
pub record World (S : Type 0) : Type 0 where
  pub server : S
  pub others : List (S → S)

-- Others have their turn.
abbrev pub turn : {S : Type 0} → World S → List (S → S) → World S
turn w [] = w
turn w (f ∷ fs) = record { server = f w.server; others = fs }

abbrev pub interrupted : {S : Type 0} → World S → World S
interrupted w = turn w w.others
