-- ===== src/Controller/Marks.antt =====
-- The functions of controller.rs that change the records of a claim and its Host. Both are passed in
-- and handed back. `now` is the reading of `now_timestamp()`.
pub mod Observation
use mc_control_plane.Base.{
  ℤ, pos, String, str_eq, ◌<>◌, Option, none, some, is_none, Bool, true, false, ◌&&◌, ◌==◌,
}
use mc_control_plane.Protocol.{ConditionStatus, HostPhase, Timestamp, phase_eq}
use mc_control_plane.Codec.{Codec}
use mc_control_plane.Domain.{
  HostClaimRecord, HostRecord, RetryState, default_retry, saturating_add_i64, saturating_add_u32,
  retry_deadline, i64_max, new_condition, set_condition,
}
use mc_control_plane.Provider.{ProviderLifecycle, ProviderResource, ProviderError}

-- `set_condition` on a claim's and on a Host's conditions; a Host's generation is 1.
unfoldable pub set_claim_condition :
    String → ConditionStatus → String → String → Timestamp → HostClaimRecord → HostClaimRecord
set_claim_condition condition_type status reason message now claim = record claim {
  resource = record (claim.resource) {
    status = record (claim.resource.status) {
      conditions =
          (set_condition claim.resource.status.conditions
            (new_condition condition_type status reason message claim.resource.generation now)).1;
    };
  };
}

unfoldable pub set_host_ready :
    ConditionStatus → String → String → Timestamp → HostRecord → HostRecord
set_host_ready status reason message now host = record host {
  resource = record (host.resource) {
    status = record (host.resource.status) {
      conditions =
          (set_condition host.resource.status.conditions
            (new_condition "Ready" status reason message 1 now)).1;
    };
  };
}

-- The status fields that the functions below write before they set conditions.
abbrev pub observed_host : Option String → Timestamp → HostPhase → HostRecord → HostRecord
observed_host provider_resource_id now phase host = record host {
  resource = record (host.resource) {
    status = record (host.resource.status) {
      phase = phase;
      provider_resource_id = provider_resource_id;
      observed_at = some now;
    };
  };
  retry = default_retry;
}

abbrev pub observed_claim : HostClaimRecord → HostClaimRecord
observed_claim claim = record claim {
  resource = record (claim.resource) {
    status = record (claim.resource.status) { observed_generation = claim.resource.generation };
  };
  retry = default_retry;
}

unfoldable pub mark_provider_absent :
    Timestamp → HostClaimRecord × HostRecord → HostClaimRecord × HostRecord
mark_provider_absent now (claim, host) = (
  set_claim_condition "Ready" ConditionStatus.is_false "HostNotReady"
      "The assigned Host has no provider resource." now claim,
  set_host_ready ConditionStatus.is_false "ProviderResourceAbsent"
      "No provider resource exists for this Host." now
      (observed_host none now HostPhase.pending host),
)

-- One more attempt, at a given time, for a given reason.
abbrev retry_after : ℤ → String → String → RetryState → RetryState
retry_after at kind message retry = record {
  attempt = saturating_add_u32 retry.attempt 1;
  next_reconcile_at_unix_ms = some at;
  last_error_kind = some kind;
  last_error_message = some message;
}

unfoldable pub mark_outcome_unknown :
    String → String → ℤ → Timestamp → HostClaimRecord × HostRecord → HostClaimRecord × HostRecord
mark_outcome_unknown kind message now_ms now (claim, host) = (
  set_claim_condition "Ready" ConditionStatus.unknown kind message now claim,
  set_host_ready ConditionStatus.unknown kind message now (record host {
    resource = record (host.resource) {
      status = record (host.resource.status) {
        phase = HostPhase.provisioning;
        observed_at = some now;
      };
    };
    retry = retry_after (saturating_add_i64 now_ms (pos 1000)) kind message host.retry;
  }),
)

unfoldable pub mark_host_failed :
    String → String → Timestamp → HostClaimRecord × HostRecord → HostClaimRecord × HostRecord
mark_host_failed reason message now (claim, host) = (
  set_claim_condition "Ready" ConditionStatus.is_false reason message now claim,
  set_host_ready ConditionStatus.is_false reason message now (record host {
    resource = record (host.resource) {
      status = record (host.resource.status) { phase = HostPhase.failed };
    };
    retry = record (host.retry) {
      next_reconcile_at_unix_ms = none;
      last_error_kind = some reason;
      last_error_message = some message;
    };
  }),
)

unfoldable pub schedule_claim_provider_error :
    ProviderError → ℤ → Timestamp → HostClaimRecord → HostClaimRecord
schedule_claim_provider_error (ProviderError.definitive message) now_ms now claim =
    set_claim_condition "Accepted" ConditionStatus.is_false "ProviderRejected" message now
      (record (observed_claim claim) {
        retry = record {
          attempt = claim.retry.attempt;
          next_reconcile_at_unix_ms = some i64_max;
          last_error_kind = some "ProviderRejected";
          last_error_message = some message;
        };
      })
schedule_claim_provider_error (ProviderError.transient message) now_ms now claim =
    set_claim_condition "Accepted" ConditionStatus.unknown "ProviderUnavailable" message now
      (record (observed_claim claim) {
        retry =
            retry_after (retry_deadline now_ms (saturating_add_u32 claim.retry.attempt 1))
              "ProviderUnavailable" message claim.retry;
      })

unfoldable pub schedule_host_provider_error :
    ProviderError → ℤ → Timestamp → HostClaimRecord × HostRecord → HostClaimRecord × HostRecord
unfolding mark_host_failed
schedule_host_provider_error (ProviderError.definitive message) now_ms now records =
    mark_host_failed "ProviderRejected" message now records
schedule_host_provider_error (ProviderError.transient message) now_ms now (claim, host) = (
  set_claim_condition "Ready" ConditionStatus.unknown "ProviderUnavailable" message now claim,
  set_host_ready ConditionStatus.unknown "ProviderUnavailable" message now (record host {
    retry =
        retry_after (retry_deadline now_ms (saturating_add_u32 host.retry.attempt 1))
          "ProviderUnavailable" message host.retry;
  }),
)

unfoldable pub schedule_host_retry_only : ProviderError → ℤ → HostRecord → HostRecord
schedule_host_retry_only (ProviderError.definitive message) now_ms host = record host {
  retry = retry_after i64_max "ProviderRejected" message host.retry;
}
schedule_host_retry_only (ProviderError.transient message) now_ms host = record host {
  retry =
      retry_after (retry_deadline now_ms (saturating_add_u32 host.retry.attempt 1))
        "ProviderUnavailable" message host.retry;
}
