-- ===== src/Tests/Domain.antt =====
-- Conditions and the retry schedule at concrete inputs.
use mc_control_plane.Base.{
  pos, ◌+ℤ◌, leb_ℤ, str_eq, true, false, some, List, [], ◌∷◌, ◌≡◌, ◌≢◌, refl, arith, if◌then◌else◌,
}
use mc_control_plane.Protocol.{Condition, ConditionStatus}
use mc_control_plane.Domain.{
  RetryState, default_retry, is_due, retry_deadline, i64_max, new_condition, set_condition,
  find_condition,
}
use mc_control_plane.Domain.Retry.Backoff.{backoff, retry_deadline_lem, is_due-retry_deadline}
use mc_control_plane.Domain.Conditions.Lookup.{merged, find_condition-set_condition}
use mc_control_plane.Domain.Conditions.Order.{Ascending, Distinct, set_condition-Ascending}
use mc_control_plane.Domain.Conditions.Changed.{set_condition-changed, set_condition_again}

abbrev accepted : Condition
accepted = record {
  condition_type = "Accepted";
  status = ConditionStatus.is_true;
  reason = "RequirementsValid";
  message = "fits";
  observed_generation = 1;
  last_transition_at = 3;
}

abbrev ready : Condition
ready = record {
  condition_type = "Ready";
  status = ConditionStatus.is_false;
  reason = "HostNotReady";
  message = "no Host";
  observed_generation = 1;
  last_transition_at = 3;
}

abbrev now_ready : Condition
now_ready = record {
  condition_type = "Ready";
  status = ConditionStatus.is_true;
  reason = "HostReady";
  message = "Ready";
  observed_generation = 1;
  last_transition_at = 9;
}

abbrev reported : List Condition
reported = accepted ∷ ready ∷ []

find_condition-set_condition_example :
    find_condition "Ready" (set_condition reported now_ready).1 ≡ (
      if str_eq now_ready.condition_type "Ready"
      then some (merged (find_condition now_ready.condition_type reported) now_ready)
      else find_condition "Ready" reported)
find_condition-set_condition_example = find_condition-set_condition "Ready" reported now_ready

set_condition-Ascending_example :
    Ascending (set_condition reported now_ready).1 × Distinct (set_condition reported now_ready).1
unfolding find_condition
set_condition-Ascending_example =
    set_condition-Ascending reported now_ready (refl, (tt, tt)) (refl, (refl, tt))

set_condition-changed_example :
    ((set_condition reported now_ready).0 ≡ false → (set_condition reported now_ready).1 ≡ reported)
    × ((set_condition reported now_ready).0 ≡ true
        → (set_condition reported now_ready).1 ≢ reported)
set_condition-changed_example = set_condition-changed reported now_ready

set_condition_again_example :
    set_condition
      (set_condition reported now_ready).1
      (record now_ready { last_transition_at = 20 })
    ≡ (false, (set_condition reported now_ready).1)
set_condition_again_example = set_condition_again reported now_ready 20

retry_deadline_lem_example : retry_deadline (pos 1000000) 3 ≡ (
    if leb_ℤ i64_max (pos 1000000 +ℤ pos (backoff 3))
    then i64_max
    else pos 1000000 +ℤ pos (backoff 3))
retry_deadline_lem_example = retry_deadline_lem (pos 1000000) 3 (omega arith)

abbrev waiting : RetryState
waiting = record {
  attempt = 3;
  next_reconcile_at_unix_ms = some (pos 1008000);
  last_error_kind = some "ProviderUnavailable";
  last_error_message = some "timeout";
}

is_due-retry_deadline_example :
    (is_due waiting (pos 1000000) ≡ false) × (is_due waiting (pos 1060000) ≡ true)
unfolding retry_deadline mc_control_plane.Domain.saturating_add_i64
is_due-retry_deadline_example =
    is_due-retry_deadline waiting 1000000 1060000 3 refl (omega arith) (omega arith)
