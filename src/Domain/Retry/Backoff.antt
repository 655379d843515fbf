-- ===== src/Domain/Retry/Backoff.antt =====
-- The retry schedule of `retry_deadline` and `RetryState::is_due`.
use mc_control_plane.Base.{
  ℕ, zero, suc, ◌+◌, ◌*◌, ◌^◌, ◌≤◌, min, ℤ, pos, negsuc, ◌+ℤ◌, ◌≤ℤ◌, leb_ℤ, true, false, some, ◌≡◌,
  refl, arith, if◌then◌else◌,
}
use mc_control_plane.Domain.Retry.{
  RetryState, is_due, saturating_add_i64, retry_deadline, i64_max, i64_min,
}

-- The schedule as a table, in milliseconds.
pub backoff : ℕ → ℕ
backoff zero = 1000
backoff (suc zero) = 2000
backoff (suc (suc zero)) = 4000
backoff (suc (suc (suc zero))) = 8000
backoff (suc (suc (suc (suc zero)))) = 16000
backoff (suc (suc (suc (suc (suc zero))))) = 32000
backoff _ = 60000

six_at_most : (n : ℕ) → min (suc (suc (suc (suc (suc (suc n)))))) 6 ≡ 6
six_at_most n = omega arith

delay-backoff : (attempt : ℕ) → min (1000 * 2 ^ min attempt 6) 60000 ≡ backoff attempt
unfolding backoff
delay-backoff zero = refl
delay-backoff (suc zero) = refl
delay-backoff (suc (suc zero)) = refl
delay-backoff (suc (suc (suc zero))) = refl
delay-backoff (suc (suc (suc (suc zero)))) = refl
delay-backoff (suc (suc (suc (suc (suc zero))))) = refl
delay-backoff (suc (suc (suc (suc (suc (suc n)))))) = rw (six_at_most n)

pub backoff_bounds : (attempt : ℕ) → (1000 ≤ backoff attempt) × (backoff attempt ≤ 60000)
unfolding backoff
backoff_bounds zero = omega arith
backoff_bounds (suc zero) = omega arith
backoff_bounds (suc (suc zero)) = omega arith
backoff_bounds (suc (suc (suc zero))) = omega arith
backoff_bounds (suc (suc (suc (suc zero)))) = omega arith
backoff_bounds (suc (suc (suc (suc (suc zero))))) = omega arith
backoff_bounds (suc (suc (suc (suc (suc (suc n)))))) = omega arith

saturating_add_pos :
    (now : ℤ) (d : ℕ)
    → i64_min ≤ℤ now
    → 1 ≤ d
    → saturating_add_i64 now (pos d)
      ≡ (if leb_ℤ i64_max (now +ℤ pos d) then i64_max else now +ℤ pos d)
unfolding saturating_add_i64
saturating_add_pos (pos n) d lo h = ground arith
saturating_add_pos (negsuc n) d lo h = ground arith

-- For every `i64` clock reading the deadline is the reading plus the delay of the table (1 s, doubled
-- with each attempt, at most 60 s), and `i64::MAX` where that sum passes it.
pub retry_deadline_lem :
    (now : ℤ) (attempt : ℕ)
    → i64_min ≤ℤ now
    → retry_deadline now attempt ≡ (
        if leb_ℤ i64_max (now +ℤ pos (backoff attempt))
        then i64_max
        else now +ℤ pos (backoff attempt))
unfolding retry_deadline
retry_deadline_lem now attempt lo =
    rw (delay-backoff attempt)
      (saturating_add_pos now (backoff attempt) lo (omega (arith, backoff_bounds attempt)))

-- A state with the deadline that `retry_deadline` sets is not due at the reading that scheduled it,
-- and is due at every reading 60 s later or more, for readings from 0 up to 60 s before `i64::MAX`.
pub is_due-retry_deadline :
    (retry : RetryState) (now later attempt : ℕ)
    → retry.next_reconcile_at_unix_ms ≡ some (retry_deadline (pos now) attempt)
    → pos (now + 60000) ≤ℤ i64_max
    → now + 60000 ≤ later
    → (is_due retry (pos now) ≡ false) × (is_due retry (pos later) ≡ true)
unfolding is_due ◌+ℤ◌
is_due-retry_deadline retry now later attempt e top late =
    ground (arith, retry_deadline_lem (pos now) attempt (omega arith), backoff_bounds attempt)
