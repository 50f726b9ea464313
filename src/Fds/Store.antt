-- ===== src/Fds/Store.antt =====
-- imported_service_store.go. The lock makes each method one step; the deep copies make the store's
-- lists values that no caller can change, which is what a list is here.
use federation.Common.{◌≡◌, refl, Option, none, some, List, [], Text, text_eq, if◌then◌else◌, arith}
use federation.Common.GoMap.{lookup, insert, lookup-insert, text_key}
use federation.Config.{Remote}
use federation.Fds.{FederatedService}

pub record ImportedServiceStore : Type 0 where
  pub imported_services : List (Text × List FederatedService)

unfoldable pub new_imported_service_store : ImportedServiceStore
new_imported_service_store = record { imported_services = [] }

unfoldable pub update : Text → List FederatedService → ImportedServiceStore → ImportedServiceStore
update source services s = record s {
  imported_services = insert source services s.imported_services;
}

-- A missing key reads as an empty slice.
abbrev or_empty : Option (List FederatedService) → List FederatedService
or_empty none = []
or_empty (some l) = l

-- `From`.
unfoldable pub from : ImportedServiceStore → Remote → List FederatedService
from s remote = or_empty (lookup remote.name s.imported_services)

-- What is read for a remote after an update is the update, if it was made under the remote's name,
-- and else what was read before.
pub from-update :
    (s : ImportedServiceStore) (source : Text) (services : List FederatedService) (remote : Remote)
    → from (update source services s) remote
      ≡ (if text_eq source remote.name then services else from s remote)
unfolding from update
from-update s source services remote =
    rw (lookup-insert source remote.name services s.imported_services) (ground arith)

-- Before any update there is nothing to read.
pub from-new : (remote : Remote) → from new_imported_service_store remote ≡ []
unfolding from new_imported_service_store lookup
from-new remote = refl
