-- ===== src/Examples/Retries.antt =====
-- An example of a retry on conflicts, which gives up after some attempts.
use federation.Common.{
  ℕ, zero, suc, ◌≡◌, refl, inl, inr, Bool, true, false, Bool-cases, Option, none, some, Error,
  conflict, failure, not_found, wrap, joined, if◌then◌else◌,
}
use federation.Controllers.Retry.{RetryOnConflict, Retries, last, again}

abbrev pub is_conflict : Option Error → Bool
is_conflict (some conflict) = true
is_conflict _ = false

is_conflict_lem : (e : Option Error) → is_conflict e ≡ true → e ≡ some conflict
is_conflict_lem none h = cc
is_conflict_lem (some conflict) h = refl
is_conflict_lem (some not_found) h = cc
is_conflict_lem (some (failure t)) h = cc
is_conflict_lem (some (wrap t e)) h = cc
is_conflict_lem (some (joined d e)) h = cc

module _ {S : Type 0} where
  -- A retry that gives up after some attempts.
  unfoldable pub retry_times : ℕ → RetryOnConflict S
  retry_times zero fn w = fn w
  retry_times (suc n) fn w =
      let rest = retry_times n fn (fn w).0 in if is_conflict (fn w).1 then rest else fn w

  pub retry_times-Retries : (n : ℕ) → Retries {S = S} (retry_times n)
  unfolding retry_times
  retry_times-Retries zero fn w = last refl
  retry_times-Retries (suc n) fn w = elim (Bool-cases (is_conflict (fn w).1)) [
    | inl clash ↦
        rw clash (again (is_conflict_lem (fn w).1 clash) (retry_times-Retries n fn (fn w).0))
    | inr over ↦ rw over (last refl)
  ]
