-- ===== src/Domain/Retry.antt =====
-- `RetryState` and the backoff of domain.rs, over `i64` milliseconds.
pub mod Backoff
use mc_control_plane.Base.{
  ℕ, ◌+◌, ◌*◌, ◌^◌, min, ℤ, pos, negsuc, ◌+ℤ◌, leb_ℤ, Bool, true, String, Option, none, some,
  if◌then◌else◌,
}

pub record RetryState : Type 0 where
  pub attempt : ℕ  -- u32
  pub next_reconcile_at_unix_ms : Option ℤ  -- i64
  pub last_error_kind : Option String
  pub last_error_message : Option String

-- `RetryState::default()`.
unfoldable pub default_retry : RetryState
default_retry = record {
  attempt = 0;
  next_reconcile_at_unix_ms = none;
  last_error_kind = none;
  last_error_message = none;
}

-- `i64::MAX`, `i64::MIN` and `u32::MAX`.
abbrev pub i64_max : ℤ
i64_max = pos 9223372036854775807

abbrev pub i64_min : ℤ
i64_min = negsuc 9223372036854775807

abbrev pub u32_max : ℕ
u32_max = 4294967295

-- `i64::saturating_add` and `u32::saturating_add`.
unfoldable pub saturating_add_i64 : ℤ → ℤ → ℤ
unfolding ◌+ℤ◌
saturating_add_i64 a b =
    let sum = a +ℤ b in
    if leb_ℤ i64_max sum then i64_max else if leb_ℤ sum i64_min then i64_min else sum

unfoldable pub saturating_add_u32 : ℕ → ℕ → ℕ
saturating_add_u32 a b = min (a + b) u32_max

-- A state with no deadline is due at once.
unfoldable pub is_due : RetryState → ℤ → Bool
is_due retry now_unix_ms = elim retry.next_reconcile_at_unix_ms [
  | none ↦ true
  | some deadline ↦ leb_ℤ deadline now_unix_ms
]

-- The delay is 1000 * 2 ^ min(attempt, 6), at most 64000, so `saturating_mul` and `<<` are exact.
unfoldable pub retry_deadline : ℤ → ℕ → ℤ
retry_deadline now_unix_ms attempt =
    let exponent = min attempt 6 in
    let delay_ms = 1000 * 2 ^ exponent in saturating_add_i64 now_unix_ms (pos (min delay_ms 60000))
