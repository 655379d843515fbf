-- ===== src/Controller/Outcomes/Observed.antt =====
-- What the conditions and the retry state say after the provider answered.
use mathlib.Core.Option
use mc_control_plane.Base.{
  ℕ, ◌+◌, pos, ◌≤ℤ◌, String, str_eq, eq_refl, Option, none, some, Bool, true, false, ◌≡◌, refl, ap,
  ◌∙◌, arith, if◌then◌else◌, List,
}
use mc_control_plane.Protocol.{Condition, ConditionStatus, HostPhase, Timestamp, phase_eq}
use mc_control_plane.Codec.{Codec}
use mc_control_plane.Domain.{
  HostClaimRecord, HostRecord, RetryState, default_retry, is_due, retry_deadline,
  saturating_add_u32, i64_max, new_condition, set_condition, find_condition,
}
use mc_control_plane.Domain.Retry.Backoff.{is_due-retry_deadline}
use mc_control_plane.Domain.Conditions.Lookup.{merged, find_condition-set_condition}
use mc_control_plane.Provider.{ProviderLifecycle, ProviderResource, ProviderError}
use mc_control_plane.Controller.Marks.{
  set_claim_condition, set_host_ready, schedule_claim_provider_error, schedule_host_retry_only,
}
use mc_control_plane.Controller.Marks.Observation.{
  lifecycle_phase, expected_phase, lifecycle_condition, claim_ready_condition,
  provider_observation_is_stable, observed_host_record, observed_claim_record,
  apply_provider_observation,
}

-- The status of the condition of a type, as a client reads it.
abbrev pub condition_status : String → List Condition → Option ConditionStatus
condition_status t cs = Option.map (λ (c : Condition). c.status) (find_condition t cs)

merged-status : (o : Option Condition) (next : Condition) → (merged o next).status ≡ next.status
merged-status none next = refl
merged-status (some current) next = ground arith

condition_status-set_condition :
    (t : String) (cs : List Condition) (next : Condition)
    → condition_status t (set_condition cs next).1
      ≡ (if str_eq next.condition_type t then some next.status else condition_status t cs)
condition_status-set_condition t cs next =
    rw (find_condition-set_condition t cs next) (chosen (str_eq next.condition_type t))
  where
    chosen :
        (b : Bool)
        → Option.map
            (λ (c : Condition). c.status)
            (if b
              then some (merged (find_condition next.condition_type cs) next)
              else find_condition t cs)
          ≡ (if b then some next.status else condition_status t cs)
    chosen true = ap some (merged-status (find_condition next.condition_type cs) next)
    chosen false = refl

lifecycle-stable :
    (lifecycle : ProviderLifecycle) (resource : ProviderResource) (now : Timestamp)
    (host : HostRecord)
    → resource.lifecycle ≡ lifecycle
    → provider_observation_is_stable (observed_host_record resource now host) resource ≡ true
unfolding observed_host_record lifecycle_condition set_host_ready provider_observation_is_stable
    default_retry lifecycle_phase expected_phase
lifecycle-stable ProviderLifecycle.provisioning resource now host e = rw (e, eq_refl resource.id)
lifecycle-stable ProviderLifecycle.ready resource now host e = rw (e, eq_refl resource.id)
lifecycle-stable ProviderLifecycle.deleting resource now host e = rw (e, eq_refl resource.id)

-- Once an observation is recorded, the same observation is stable: it is no progress.
pub observed_host_record-stable :
    (resource : ProviderResource) (now : Timestamp) (host : HostRecord)
    → provider_observation_is_stable (observed_host_record resource now host) resource ≡ true
observed_host_record-stable resource now host =
    lifecycle-stable resource.lifecycle resource now host refl

-- Whether a resource is ready, as a condition's status.
abbrev pub readiness : ProviderLifecycle → ConditionStatus
readiness ProviderLifecycle.ready = ConditionStatus.is_true
readiness ProviderLifecycle.provisioning = ConditionStatus.is_false
readiness ProviderLifecycle.deleting = ConditionStatus.is_false

host_ready :
    (lifecycle : ProviderLifecycle) (now : Timestamp) (host : HostRecord)
    → condition_status "Ready" (lifecycle_condition lifecycle now host).resource.status.conditions
      ≡ some (readiness lifecycle)
unfolding lifecycle_condition set_host_ready new_condition
host_ready ProviderLifecycle.provisioning now host =
    condition_status-set_condition "Ready" host.resource.status.conditions _
host_ready ProviderLifecycle.ready now host =
    condition_status-set_condition "Ready" host.resource.status.conditions _
host_ready ProviderLifecycle.deleting now host =
    condition_status-set_condition "Ready" host.resource.status.conditions _

claim_ready :
    (lifecycle : ProviderLifecycle) (now : Timestamp) (claim : HostClaimRecord)
    → condition_status "Ready"
        (claim_ready_condition
          (phase_eq (lifecycle_phase lifecycle) HostPhase.ready)
          now
          claim).resource.status.conditions
      ≡ some (readiness lifecycle)
unfolding claim_ready_condition set_claim_condition new_condition lifecycle_phase
claim_ready ProviderLifecycle.provisioning now claim =
    condition_status-set_condition "Ready" claim.resource.status.conditions _
claim_ready ProviderLifecycle.ready now claim =
    condition_status-set_condition "Ready" claim.resource.status.conditions _
claim_ready ProviderLifecycle.deleting now claim =
    condition_status-set_condition "Ready" claim.resource.status.conditions _

claim_other :
    (t : String) (ready : Bool) (now : Timestamp) (claim : HostClaimRecord)
    → str_eq "Ready" t ≡ false
    → condition_status t (claim_ready_condition ready now claim).resource.status.conditions
      ≡ condition_status t claim.resource.status.conditions
unfolding claim_ready_condition set_claim_condition new_condition
claim_other t true now claim e =
    rw (condition_status-set_condition t claim.resource.status.conditions _, e)
claim_other t false now claim e =
    rw (condition_status-set_condition t claim.resource.status.conditions _, e)

set_claim_condition-status :
    (t condition_type : String) (status : ConditionStatus) (reason message : String)
    (now : Timestamp) (claim : HostClaimRecord)
    → condition_status t
        (set_claim_condition condition_type status reason message now
          claim).resource.status.conditions
      ≡ (if str_eq condition_type t
          then some status
          else condition_status t claim.resource.status.conditions)
unfolding set_claim_condition new_condition
set_claim_condition-status t condition_type status reason message now claim =
    condition_status-set_condition t claim.resource.status.conditions _

-- After an observation of a resource the claim is accepted and bound, the claim and the Host are
-- ready just if the resource is, and the Host's phase is the resource's lifecycle.
pub apply_provider_observation_lem :
    (c : Codec) (resource : ProviderResource) (now : Timestamp) (claim : HostClaimRecord)
    (host : HostRecord)
    → (condition_status "Ready"
          (apply_provider_observation c resource now (claim, host)).0.resource.status.conditions
        ≡ some (readiness resource.lifecycle))
      × (condition_status "Accepted"
            (apply_provider_observation c resource now (claim, host)).0.resource.status.conditions
          ≡ some ConditionStatus.is_true)
      × (condition_status "Bound"
            (apply_provider_observation c resource now (claim, host)).0.resource.status.conditions
          ≡ some ConditionStatus.is_true)
      × (condition_status "Ready"
            (apply_provider_observation c resource now (claim, host)).1.resource.status.conditions
          ≡ some (readiness resource.lifecycle))
      × (provider_observation_is_stable
            (apply_provider_observation c resource now (claim, host)).1
            resource
          ≡ true)
unfolding apply_provider_observation observed_claim_record observed_host_record
apply_provider_observation_lem c resource now claim host = (
  claim_ready resource.lifecycle now _,
  claim_other "Accepted" _ now _ refl
      ∙ set_claim_condition-status "Accepted" "Bound" _ _ _ now _
      ∙ set_claim_condition-status "Accepted" "Accepted" _ _ _ now _,
  claim_other "Bound" _ now _ refl ∙ set_claim_condition-status "Bound" "Bound" _ _ _ now _,
  host_ready resource.lifecycle now _,
  observed_host_record-stable resource now host,
)

-- The provider's error, told to the retry state of a claim or a Host.
retry_not_due :
    (retry : RetryState) (now attempt : ℕ)
    → retry.next_reconcile_at_unix_ms ≡ some (retry_deadline (pos now) attempt)
    → pos (now + 60000) ≤ℤ i64_max
    → is_due retry (pos now) ≡ false
retry_not_due retry now attempt e top =
    (is_due-retry_deadline retry now (now + 60000) attempt e top (omega arith)).0

never_due :
    (retry : RetryState) (now : ℕ)
    → retry.next_reconcile_at_unix_ms ≡ some i64_max
    → pos (now + 60000) ≤ℤ i64_max
    → is_due retry (pos now) ≡ false
unfolding is_due
never_due retry now e top = ground arith

-- At a clock reading from 0 up to 60 s before `i64::MAX`, what an error of the provider schedules for a
-- claim without a Host, or for the Host of a claim that is being deleted, is not due at that reading,
-- so that the scan goes on to other work.
pub schedule-is_due :
    (error : ProviderError) (now_ms : ℕ) (now : Timestamp) (claim : HostClaimRecord)
    (host : HostRecord)
    → pos (now_ms + 60000) ≤ℤ i64_max
    → (is_due (schedule_claim_provider_error error (pos now_ms) now claim).retry (pos now_ms)
        ≡ false)
      × (is_due (schedule_host_retry_only error (pos now_ms) host).retry (pos now_ms) ≡ false)
unfolding schedule_claim_provider_error schedule_host_retry_only set_claim_condition
schedule-is_due (ProviderError.definitive message) now_ms now claim host top =
    (never_due _ now_ms refl top, never_due _ now_ms refl top)
schedule-is_due (ProviderError.transient message) now_ms now claim host top = (
  retry_not_due _ now_ms (saturating_add_u32 claim.retry.attempt 1) refl top,
  retry_not_due _ now_ms (saturating_add_u32 host.retry.attempt 1) refl top,
)
