-- ===== src/Examples/Controllers.antt =====
-- Examples for the controllers.
use federation.Common.{
  ◌≡◌, refl, true, false, not, Option, none, some, [], ◌∷◌, Text, codes, text_eq, arith,
}
use federation.Controllers.{World}
use federation.Controllers.Retry.{Attempt, RetryOnConflict, Retries, retry_call, attempt}
use federation.Controllers.Retry.Kept.{Applied, retry_call-Applied}
use federation.Controllers.Finalizer.{Finalizers, add, finalize}
use federation.Controllers.Finalizer.Outcomes.{
  Documented, AddOutcome, add_cases, FinalizeOutcome, finalize_cases,
}
use federation.Examples.Kube.{place}
use federation.Examples.Retries.{retry_times, retry_times-Retries}
use federation.Examples.Versions.{Contents, Thing, at, write, client, versioned}

abbrev name : Text
name = codes "mesh-federation"

abbrev util : Finalizers Thing
util = record {
  deleting = λ o. o.deleting;
  contains = λ o n. o.held;
  add = λ o n. (record { held = true; deleting = o.deleting; version = o.version }, not o.held);
  remove = λ o n. (record { held = false; deleting = o.deleting; version = o.version }, o.held);
}

had_finalizer : (o : Thing) → not o.held ≡ false → (o.held ≡ true) × ((util.add o name).0 ≡ o)
had_finalizer o h = let held : o.held ≡ true = ground arith in (held, rw held refl)

abbrev util_documented : Documented versioned util name
util_documented = record {
  add_contains = λ o. refl;
  add_unchanged = had_finalizer;
  remove_lacks = λ o. refl;
  add_keeps = record { key_of = λ x. refl; version = λ x. refl };
  remove_keeps = record { key_of = λ x. refl; version = λ x. refl };
  same_contains = λ x y s. s.0;
  leaving_lacks = λ o l. l.1;
}

-- Another writer marks the object for deletion.
abbrev mark : Option Contents → Option Contents
mark none = none
mark (some (h, d)) = some (h, true)

-- It does so between the reading and the writing of the first attempt.
abbrev busy : World (Option Contents)
busy = record { server = some (false, false); others = (λ s. s) ∷ mark ∷ [] }

abbrev retry : RetryOnConflict (Option Contents)
retry = retry_times 4

retries : Retries retry
retries = retry_times-Retries 4

adds_well :
    (retry_call client retry write (at (false, false)) (λ o. (util.add o name).0) busy).1 ≡ none
unfolding retry_call retry_times attempt text_eq
adds_well = refl

retry_call-Applied_example :
    Applied client write versioned
      (λ o. (util.add o name).0)
      util_documented.add_keeps
      place
      (retry_call client retry write (at (false, false)) (λ o. (util.add o name).0) busy).0
retry_call-Applied_example =
    retry_call-Applied client write versioned (λ o. (util.add o name).0) util_documented.add_keeps
      retry (at (false, false)) busy retries adds_well

add_cases_example :
    AddOutcome client retry retries util name versioned util_documented
      (at (false, false))
      busy
      (add client retry util name (at (false, false)) busy)
add_cases_example =
    add_cases client retry retries util name versioned util_documented (at (false, false)) busy

-- A clean-up that has nothing to do.
abbrev nothing : Attempt (Option Contents)
nothing w = (w, none)

finalize_cases_example :
    FinalizeOutcome client retry retries util name versioned util_documented
      (at (true, true))
      busy
      (nothing busy)
      (finalize client retry util name (at (true, true)) nothing busy)
finalize_cases_example =
    finalize_cases client retry retries util name versioned util_documented (at (true, true))
      nothing busy
