-- ===== src/Tests/Retries.antt =====
-- Witnesses of the properties of repeated attempts.
use ollum_sales.Prelude.{Option, none, some, ℕ, zero, suc, ◌≤◌, true, []}
use ollum_sales.Exec.{Result, ok, err}
use ollum_sales.Retry.{total_attempts, retry_call}
use ollum_sales.Retry.Attempts.{recorded, Tried, retry_returns}

-- The first two calls raise, the next ones return.
abbrev answer : ℕ → Result ℕ ℕ
answer zero = err 1
answer (suc zero) = err 2
answer (suc (suc n)) = ok 7

-- `on_retry` raises when it is told of a second attempt.
abbrev hook : ℕ → ℕ → Option ℕ
hook (suc (suc zero)) e = some 9
hook attempt e = none

retry_returns_example :
    (total_attempts 3 ≤ 5)
    × Tried answer
        (λ _. true)
        0
        (some hook)
        0
        (total_attempts 3)
        2000000
        250000
        []
        []
        (retry_call
          (recorded answer (λ _. true) 0 (some hook))
          3
          250000
          2000000
          (record { calls = 0; slept = []; told = [] }))
retry_returns_example = retry_returns answer (λ _. true) 0 (some hook) 3 250000 2000000
