-- ===== src/Controller/Outcomes.antt =====
-- The parts of the reconciliation of controller.rs that only compute: the records after each answer of
-- the provider.
pub mod Observed
use mc_control_plane.Base.{
  ℤ, pos, String, str_eq, ◌<>◌, Option, none, some, Bool, ◌||◌, Result, ok, err, if◌then◌else◌,
}
use mc_control_plane.Protocol.{HostPhase, Timestamp, ConditionStatus}
use mc_control_plane.Codec.{Codec}
use mc_control_plane.Domain.{
  HostClaimRecord, HostRecord, default_retry, saturating_add_i64, new_condition, set_condition,
}
use mc_control_plane.Provider.{ProviderResource, CreateOutcome, DeleteOutcome, ProviderError}
use mc_control_plane.Controller.Marks.{
  mark_outcome_unknown, schedule_host_provider_error, schedule_host_retry_only,
}
use mc_control_plane.Controller.Marks.Observation.{apply_provider_observation}

-- Three conditions of an unsatisfiable claim, and whether any changed.
unfoldable pub unsatisfiable_claim : Timestamp → HostClaimRecord → Bool × HostClaimRecord
unsatisfiable_claim now claim =
    let generation = claim.resource.generation in
    let accepted = set_condition claim.resource.status.conditions (
      new_condition "Accepted" ConditionStatus.is_false "Unsatisfiable"
        "No provider plan can satisfy the requested allocatable resources." generation now) in
    let bound = set_condition accepted.1 (
      new_condition "Bound" ConditionStatus.is_false "HostPending" "No Host has been assigned."
        generation now) in
    let ready = set_condition bound.1 (
      new_condition "Ready" ConditionStatus.is_false "HostNotReady" "No Ready Host is assigned."
        generation now) in
    (
      accepted.0 || (bound.0 || ready.0),
      record claim {
        resource = record (claim.resource) {
          status = record (claim.resource.status) {
            observed_generation = generation;
            conditions = ready.1;
          };
        };
        retry = default_retry;
      },
    )

-- The Host has recorded another provider resource than the one that was found.
unfoldable pub ownership_conflict : HostRecord → ProviderResource → Option String
ownership_conflict host resource = elim host.resource.status.provider_resource_id [
  | none ↦ none
  | some expected ↦ if str_eq expected resource.id then none else some expected
]

abbrev pub conflict_message : String → ProviderResource → String
conflict_message expected resource =
    "Host recorded provider resource " <> expected <> ", but ownership lookup returned "
    <> resource.id <> "."

unfoldable pub deleting_host : ProviderResource → Timestamp → HostRecord → HostRecord
deleting_host resource now host = record host {
  resource = record (host.resource) {
    status = record (host.resource.status) {
      phase = HostPhase.deleting;
      provider_resource_id = some resource.id;
      observed_at = some now;
    };
  };
  retry = default_retry;
}

-- The Host after the provider's answer to `delete`.
unfoldable pub after_delete : Result ProviderError DeleteOutcome → ℤ → HostRecord → HostRecord
after_delete (ok DeleteOutcome.deleted) now_ms host = record host { retry = default_retry }
after_delete (ok DeleteOutcome.outcome_unknown) now_ms host = record host {
  retry = record (host.retry) {
    next_reconcile_at_unix_ms = some (saturating_add_i64 now_ms (pos 1000));
    last_error_kind = some "DeleteOutcomeUnknown";
    last_error_message = some "The provider may have deleted the Host; rediscovery is required.";
  };
}
after_delete (err error) now_ms host = schedule_host_retry_only error now_ms host

-- The records after the provider's answer to `create`.
unfoldable pub after_create :
    (c : Codec)
    → Result ProviderError CreateOutcome
    → ℤ
    → Timestamp
    → HostClaimRecord × HostRecord
    → HostClaimRecord × HostRecord
after_create c (ok (CreateOutcome.created resource)) now_ms now records =
    apply_provider_observation c resource now records
after_create c (ok CreateOutcome.outcome_unknown) now_ms now records =
    mark_outcome_unknown "CreateOutcomeUnknown"
      "The provider may have created the Host. The next step will rediscover it by Host ID." now_ms
      now records
after_create c (err error) now_ms now records =
    schedule_host_provider_error error now_ms now records
