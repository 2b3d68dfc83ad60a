-- ===== src/Executor/Delays.antt =====
-- retryDelay and abortBackoffDelay of executor.go.
use fileagent.Prelude.{ℕ, zero, suc, ◌≤◌, ◌≡◌, refl, some, arith}
use fileagent.Executor.Abandon.{retry_delay, abort_backoff_delay}

-- The ladder: 1, 5 and 15 minutes, then an hour for ever.
ladder : ℕ → ℕ
ladder zero = 60
ladder (suc zero) = 300
ladder (suc (suc zero)) = 900
ladder (suc (suc (suc n))) = 3600

abort_backoff_delay_total : (n : ℕ) → abort_backoff_delay n ≡ some (ladder n)
unfolding abort_backoff_delay ladder
abort_backoff_delay_total zero = refl
abort_backoff_delay_total (suc zero) = refl
abort_backoff_delay_total (suc (suc zero)) = refl
abort_backoff_delay_total (suc (suc (suc zero))) = refl
abort_backoff_delay_total (suc (suc (suc (suc n)))) = ground arith

retry_delay_total : (n : ℕ) → retry_delay (suc n) ≡ some (ladder n)
unfolding retry_delay ladder
retry_delay_total zero = refl
retry_delay_total (suc zero) = refl
retry_delay_total (suc (suc zero)) = refl
retry_delay_total (suc (suc (suc zero))) = refl
retry_delay_total (suc (suc (suc (suc n)))) = ground arith

ladder_bounds : (n : ℕ) → (60 ≤ ladder n) × (ladder n ≤ 3600)
unfolding ladder
ladder_bounds zero = omega arith
ladder_bounds (suc zero) = omega arith
ladder_bounds (suc (suc zero)) = omega arith
ladder_bounds (suc (suc (suc n))) = omega arith

ladder_mono : (m n : ℕ) → m ≤ n → ladder m ≤ ladder n
unfolding ladder
ladder_mono zero n h = (ladder_bounds n).0
ladder_mono (suc zero) zero h = omega arith
ladder_mono (suc zero) (suc zero) h = omega arith
ladder_mono (suc zero) (suc (suc zero)) h = omega arith
ladder_mono (suc zero) (suc (suc (suc n))) h = omega arith
ladder_mono (suc (suc zero)) zero h = omega arith
ladder_mono (suc (suc zero)) (suc zero) h = omega arith
ladder_mono (suc (suc zero)) (suc (suc zero)) h = omega arith
ladder_mono (suc (suc zero)) (suc (suc (suc n))) h = omega arith
ladder_mono (suc (suc (suc m))) zero h = omega arith
ladder_mono (suc (suc (suc m))) (suc zero) h = omega arith
ladder_mono (suc (suc (suc m))) (suc (suc zero)) h = omega arith
ladder_mono (suc (suc (suc m))) (suc (suc (suc n))) h = omega arith

-- Every retry of an upload, and every retry of an abort, has a delay, so the index into the table
-- is in range; it lies between a minute and an hour, and a retry of an upload, numbered from 1,
-- waits as long as a retry of an abort, numbered from 0.
pub retry_delay_bounds :
    (n : ℕ)
    → (d : ℕ) × (retry_delay (suc n) ≡ some d)
      × (abort_backoff_delay n ≡ some d)
      × (60 ≤ d)
      × (d ≤ 3600)
retry_delay_bounds n = (
  ladder n,
  retry_delay_total n,
  abort_backoff_delay_total n,
  (ladder_bounds n).0,
  (ladder_bounds n).1,
)

-- A later retry waits at least as long as an earlier one.
pub retry_delay_mono :
    (m n : ℕ) {c d : ℕ}
    → m ≤ n
    → retry_delay (suc m) ≡ some c
    → retry_delay (suc n) ≡ some d
    → c ≤ d
retry_delay_mono m n h p q =
    ground (arith, retry_delay_total m, retry_delay_total n, ladder_mono m n h)
