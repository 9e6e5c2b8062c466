-- ===== src/Retry.antt =====
-- `retry_call` of app/data_quality.py: an operation that is tried again after an exception. Delays
-- are in microseconds. `retryable` is `retry_if`, or the test that stands for it.
pub mod Attempts
use ollum_sales.Prelude.{
  ℕ, zero, suc, ◌+◌, ◌*◌, Bool, not, ◌||◌, Option, none, some, leb, min, max, if◌then◌else◌,
}
use ollum_sales.Exec.{Exec, ok, err, pure, ◌>>=◌, ◌>>◌}

abbrev pub total_attempts : ℕ → ℕ
total_attempts attempts = max 1 (min attempts 5)

-- `delay * 2 if delay else 0`
abbrev pub doubled : ℕ → ℕ
doubled zero = 0
doubled (suc n) = suc n * 2

-- What the call is given; `exhausted` is the `RuntimeError` after the loop.
pub record Retry (S E A : Type 0) : Type 0 where
  pub operation : Exec S E A
  pub retryable : E → Bool
  pub on_retry : Option (ℕ → E → Exec S E (Unit {0}))
  pub sleep : ℕ → Exec S E (Unit {0})
  pub exhausted : E

module _ {S E A : Type 0} (r : Retry S E A) where
  abbrev pub notify : Option (ℕ → E → Exec S E (Unit {0})) → ℕ → E → Exec S E (Unit {0})
  notify none attempt e = pure tt
  notify (some f) attempt e = f attempt e

  -- the loop, with the attempts that are left, and the number and delay of the next
  unfoldable pub attempt_from : ℕ → ℕ → ℕ → ℕ → ℕ → Exec S E A
  attempt_from total max_delay zero attempt delay s = (err r.exhausted, s)
  attempt_from total max_delay (suc left) attempt delay s =
      let rest = attempt_from total max_delay left (suc attempt) (doubled delay) in
      let (x, s') = r.operation s in
      elim x [
        | ok a ↦ (ok a, s')
        | err e ↦
            if not (r.retryable e) || leb total attempt
            then (err e, s')
            else (do notify r.on_retry attempt e; r.sleep (min delay max_delay); rest) s'
      ]

  unfoldable pub retry_call : ℕ → ℕ → ℕ → Exec S E A
  unfolding attempt_from
  retry_call attempts base_delay max_delay =
      attempt_from (total_attempts attempts) max_delay (total_attempts attempts) 1 base_delay
