-- ===== src/Controllers/Finalizer.antt =====
-- internal/controller/finalizer/types.go: finalizers are added, and removed after a clean-up.
pub mod Outcomes
use federation.Common.{Bool, true, false, ◌&&◌, not, Option, none, some, Text, Error, if◌then◌else◌}
use federation.Controllers.{ObjectClient, World}
use federation.Controllers.Retry.{Attempt, RetryOnConflict, retry_update}

-- controllerutil's functions, with the object that they leave, and the presence of a deletion timestamp.
pub record Finalizers (O : Type 0) : Type 0 where
  pub deleting : O → Bool
  pub contains : O → Text → Bool
  pub add : O → Text → O × Bool
  pub remove : O → Text → O × Bool

-- What `Add` and `Finalize` return, with the world that they leave.
pub record Handled (S : Type 0) : Type 0 where
  pub after : World S
  pub answer : Bool
  pub failed : Option Error

module _ {S O : Type 0} (client : ObjectClient S O) (retry : RetryOnConflict S)
    (util : Finalizers O) (finalizer_name : Text) where
  abbrev pub adding : O → O
  adding saved = (util.add saved finalizer_name).0

  abbrev pub removing : O → O
  removing saved = (util.remove saved finalizer_name).0

  -- After a retried update.
  abbrev pub with_answer : Bool → World S × Option Error → Handled S
  with_answer b (w, e) = record { after = w; answer = b; failed = e }

  -- `Add`, with the object as it leaves it.
  unfoldable pub add : O → World S → O × Handled S
  add obj w =
      let (obj', finalizers_updated) = util.add obj finalizer_name in
      if not finalizers_updated
      then (obj', record { after = w; answer = true; failed = none })
      else (obj', with_answer false (retry_update client retry obj' adding w))

  -- After the clean-up.
  abbrev pub after_cleanup : O → World S × Option Error → Handled S
  after_cleanup obj (w, some e) = record { after = w; answer = true; failed = some e }
  after_cleanup obj (w, none) = with_answer true (retry_update client retry obj removing w)

  unfoldable pub finalize : O → Attempt S → World S → Handled S
  finalize obj cleanup_fn w =
      if not (util.deleting obj && util.contains obj finalizer_name)
      then record { after = w; answer = false; failed = none }
      else after_cleanup obj (cleanup_fn w)
