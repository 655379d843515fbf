-- ===== src/Controller/Marks/Observation.antt =====
-- `provider_observation_is_stable` and `apply_provider_observation` of controller.rs. `now` is the
-- reading of `now_timestamp()`.
use mc_control_plane.Base.{
  String, str_eq, ◌<>◌, Option, none, some, is_none, Bool, true, false, ◌&&◌, ◌==◌,
}
use mc_control_plane.Protocol.{ConditionStatus, HostPhase, Timestamp, phase_eq}
use mc_control_plane.Codec.{Codec}
use mc_control_plane.Domain.{HostClaimRecord, HostRecord}
use mc_control_plane.Provider.{ProviderLifecycle, ProviderResource}
use mc_control_plane.Controller.Marks.{
  set_claim_condition, set_host_ready, observed_host, observed_claim,
}

-- `expected_phase` of `provider_observation_is_stable`.
unfoldable pub expected_phase : ProviderLifecycle → HostPhase
expected_phase ProviderLifecycle.provisioning = HostPhase.provisioning
expected_phase ProviderLifecycle.ready = HostPhase.ready
expected_phase ProviderLifecycle.deleting = HostPhase.deleting

-- The phase that `apply_provider_observation` matches out of the lifecycle, by its own.
unfoldable pub lifecycle_phase : ProviderLifecycle → HostPhase
lifecycle_phase ProviderLifecycle.provisioning = HostPhase.provisioning
lifecycle_phase ProviderLifecycle.ready = HostPhase.ready
lifecycle_phase ProviderLifecycle.deleting = HostPhase.deleting

abbrev str_option_is : Option String → String → Bool
str_option_is none s = false
str_option_is (some r) s = str_eq r s

unfoldable pub provider_observation_is_stable : HostRecord → ProviderResource → Bool
unfolding expected_phase
provider_observation_is_stable host resource =
    phase_eq host.resource.status.phase (expected_phase resource.lifecycle)
    && (str_option_is host.resource.status.provider_resource_id resource.id
        && (host.retry.attempt == 0
            && (is_none host.retry.next_reconcile_at_unix_ms
                && (is_none host.retry.last_error_kind && is_none host.retry.last_error_message))))

-- The Host's condition for each lifecycle: status, reason and message.
unfoldable pub lifecycle_condition : ProviderLifecycle → Timestamp → HostRecord → HostRecord
lifecycle_condition ProviderLifecycle.provisioning =
    set_host_ready ConditionStatus.is_false "ProviderResourceProvisioning"
      "The provider resource is still provisioning."
lifecycle_condition ProviderLifecycle.ready =
    set_host_ready ConditionStatus.is_true "ProviderResourceReady" "The provider resource is Ready."
lifecycle_condition ProviderLifecycle.deleting =
    set_host_ready ConditionStatus.is_false "ProviderResourceDeleting"
      "The provider resource is being deleted."

unfoldable pub claim_ready_condition : Bool → Timestamp → HostClaimRecord → HostClaimRecord
claim_ready_condition true =
    set_claim_condition "Ready" ConditionStatus.is_true "HostReady" "The assigned Host is Ready."
claim_ready_condition false =
    set_claim_condition "Ready" ConditionStatus.is_false "HostNotReady"
      "The assigned Host is not Ready."

unfoldable pub observed_host_record : ProviderResource → Timestamp → HostRecord → HostRecord
unfolding lifecycle_condition lifecycle_phase
observed_host_record resource now host =
    lifecycle_condition resource.lifecycle now
      (observed_host (some resource.id) now (lifecycle_phase resource.lifecycle) host)

unfoldable pub observed_claim_record :
    (c : Codec) → ProviderResource → Timestamp → HostRecord → HostClaimRecord → HostClaimRecord
unfolding claim_ready_condition lifecycle_phase
observed_claim_record c resource now host claim =
    claim_ready_condition (phase_eq (lifecycle_phase resource.lifecycle) HostPhase.ready) now (
      set_claim_condition "Bound" ConditionStatus.is_true "HostAssigned"
        ("Host " <> c.uuid_to_string host.resource.id <> " is assigned.") now
        (set_claim_condition "Accepted" ConditionStatus.is_true "RequirementsValid"
          "The current provider policy can satisfy this claim." now (observed_claim claim)))

unfoldable pub apply_provider_observation :
    (c : Codec)
    → ProviderResource
    → Timestamp
    → HostClaimRecord × HostRecord
    → HostClaimRecord × HostRecord
unfolding observed_host_record observed_claim_record
apply_provider_observation c resource now (claim, host) =
    (observed_claim_record c resource now host claim, observed_host_record resource now host)
