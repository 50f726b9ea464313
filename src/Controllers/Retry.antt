-- ===== src/Controllers/Retry.antt =====
-- internal/controller/retry.go: updates that are tried again on a conflict.
pub mod Kept
use federation.Common.{
  ◌≡◌, refl, Bool, true, false, Option, none, some, List, [], ◌∷◌, Text, codes, Error, conflict,
  failure, Result, ok, err,
}
use federation.Kube.Api.{NamespacedName}
use federation.Controllers.{ObjectClient, World, interrupted}

-- A closure that may fail and that changes the world.
abbrev pub Attempt : Type 0 → Type 0
Attempt S = World S → World S × Option Error

-- client-go's `retry.RetryOnConflict(retry.DefaultBackoff, ·)`.
abbrev pub RetryOnConflict : Type 0 → Type 0
RetryOnConflict S = Attempt S → Attempt S

module _ {S O : Type 0} (client : ObjectClient S O) where
  -- After the `Get`: the object is mutated and written, and others may write before that.
  abbrev pub write_back :
      (O → S → S × Option Error) → (O → O) → Result O → World S → World S × Option Error
  write_back update_fn mutate (err e) w = (w, some e)
  write_back update_fn mutate (ok current) w =
      let later = interrupted w in
      let (server, e) = update_fn (mutate current) later.server in
      (record { server = server; others = later.others }, e)

  -- The closure of `retryCall`. `Get` replaces all that the object had, as the manager's cached client
  -- does: nothing of an earlier attempt's mutation is left in it.
  unfoldable pub attempt : (O → S → S × Option Error) → (O → O) → NamespacedName → Attempt S
  attempt update_fn mutate key w =
      let now = interrupted w in write_back update_fn mutate (client.get key now.server) now

  abbrev pub copied :
      RetryOnConflict S
      → (O → S → S × Option Error)
      → (O → O)
      → NamespacedName
      → Option O
      → Attempt S
  copied retry update_fn mutate key none w =
      (w, some (failure (codes "failed to deep copy object")))
  copied retry update_fn mutate key (some current) w = retry (attempt update_fn mutate key) w

  -- `retryCall`, without the object that it returns, which its callers do not use.
  unfoldable pub retry_call :
      RetryOnConflict S → (O → S → S × Option Error) → O → (O → O) → Attempt S
  retry_call retry update_fn original mutate w =
      copied retry update_fn mutate (client.key_of original) (client.deep_copy original) w

  -- `RetryUpdate` and `RetryStatusUpdate`.
  unfoldable pub retry_update : RetryOnConflict S → O → (O → O) → Attempt S
  retry_update retry original mutate w = retry_call retry client.update original mutate w

  unfoldable pub retry_status_update : RetryOnConflict S → O → (O → O) → Attempt S
  retry_status_update retry original mutate w =
      retry_call retry client.update_status original mutate w

-- The attempts that lead to a result: the last one gave it, and those before met conflicts.
pub data Attempts {S : Type 0} (fn : Attempt S) : World S → World S × Option Error → Type 0 where
  last : {w : World S} {r : World S × Option Error} → fn w ≡ r → Attempts fn w r
  again :
      {w : World S} {r : World S × Option Error}
      → (fn w).1 ≡ some conflict
      → Attempts fn (fn w).0 r
      → Attempts fn w r

-- What client-go documents of `RetryOnConflict`.
abbrev pub Retries : {S : Type 0} → RetryOnConflict S → Type 0
Retries {S} retry = (fn : Attempt S) (w : World S) → Attempts fn w (retry fn w)
