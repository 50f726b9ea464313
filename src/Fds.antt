-- ===== src/Fds.antt =====
-- internal/pkg/legacy/fds and the message of internal/api/federation/v1alpha1: discovery of the
-- services that meshes export to one another.
pub mod Protocol
pub mod Export
pub mod Store
pub mod Import
use federation.Common.{ℕ, List, Text, Result, ok, ◌≡◌, codes}
use federation.Config.{Labels}
use federation.Xds.{Any}

-- The message ServicePort; numbers are uint32.
pub record ServicePort : Type 0 where
  pub number : ℕ
  pub protocol : Text
  pub name : Text
  pub target_port : ℕ

-- The message FederatedService.
pub record FederatedService : Type 0 where
  pub hostname : Text
  pub ports : List ServicePort
  pub labels : Labels

-- The library's encoding of the message.
pub record Codec : Type 0 where
  pub marshal : FederatedService → Result Any
  pub unmarshal : Text → Result FederatedService

-- What protobuf documents of it: an encoding that succeeded decodes to the message.
pub record RoundTrips (c : Codec) : Type 0 where
  pub decodes : (s : FederatedService) (a : Any) → c.marshal s ≡ ok a → c.unmarshal a.value ≡ ok s
