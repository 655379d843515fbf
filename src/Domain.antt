-- ===== src/Domain.antt =====
-- crates/control-plane/src/domain.rs: the controller's records, the retry schedule and the
-- conditions of a resource. The clock is an argument, `now` for an instant and `now_unix_ms` for
-- milliseconds, wherever the source reads it.
pub mod Retry
pub mod Conditions
unfoldable pub use Retry.*
unfoldable pub use Conditions.*
use mc_control_plane.Base.{String, List, [], ◌∷◌, none}
use mc_control_plane.Protocol.{
  HostClaimId, HostId, Timestamp, HostResources, HostClaimSpec, HostClaim, HostPhase, Host,
  ConditionStatus,
}

pub record HostClaimRecord : Type 0 where
  pub resource : HostClaim
  pub retry : RetryState

pub record HostRecord : Type 0 where
  pub resource : Host
  pub provider_plan_id : String
  pub retry : RetryState

unfoldable pub initial_claim : HostClaimId → HostClaimSpec → Timestamp → HostClaim
unfolding new_condition
initial_claim id spec now = record {
  id = id;
  generation = 1;
  created_at = now;
  deletion_timestamp = none;
  spec = spec;
  status = record {
    observed_generation = 0;
    host_id = none;
    conditions =
        new_condition "Accepted" ConditionStatus.unknown "PendingEvaluation"
          "The controller has not evaluated this claim yet." 0 now
        ∷ new_condition "Bound" ConditionStatus.is_false "HostPending" "No Host has been assigned."
            0 now
        ∷ new_condition "Ready" ConditionStatus.is_false "HostNotReady" "No Ready Host is assigned."
            0 now
        ∷ [];
  };
}

unfoldable pub initial_host : HostId → HostClaimId → HostResources → Timestamp → Host
unfolding new_condition
initial_host id claim_id resources now = record {
  id = id;
  claim_id = claim_id;
  created_at = now;
  allocatable_resources = resources;
  status = record {
    phase = HostPhase.pending;
    provider_resource_id = none;
    observed_at = none;
    conditions =
        new_condition "Ready" ConditionStatus.is_false "ProviderResourcePending"
          "No provider resource is currently Ready." 1 now
        ∷ [];
  };
}
