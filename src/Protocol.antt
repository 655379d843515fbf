-- ===== src/Protocol.antt =====
-- The wire resources of crates/control-plane-protocol/src/resources.rs. Identifiers are 128-bit
-- UUIDs and timestamps are instants; both are numbers here, since the program copies, compares and
-- prints them and does no arithmetic on them. The texts that they print as are `Codec`'s.
pub mod Method
pub mod Messages
use mc_control_plane.Base.{ℕ, String, Bool, true, false, Option, List, ◌&&◌, ◌==◌}

-- `Uuid`, behind `HostClaimId` and `HostId`.
abbrev pub Uuid : Type 0
Uuid = ℕ

abbrev pub HostClaimId : Type 0
HostClaimId = Uuid

abbrev pub HostId : Type 0
HostId = Uuid

-- `jiff::Timestamp`.
abbrev pub Timestamp : Type 0
Timestamp = ℕ

pub record HostResources : Type 0 where
  pub vcpus : ℕ  -- u32
  pub memory_bytes : ℕ  -- u64
  pub storage_bytes : ℕ  -- u64

pub record HostClaimSpec : Type 0 where
  pub resources : HostResources

pub data ConditionStatus : Type 0 where
  is_true is_false unknown : ConditionStatus

pub record Condition : Type 0 where
  pub condition_type : String
  pub status : ConditionStatus
  pub reason : String
  pub message : String
  pub observed_generation : ℕ  -- u64
  pub last_transition_at : Timestamp

pub record HostClaimStatus : Type 0 where
  pub observed_generation : ℕ  -- u64
  pub host_id : Option HostId
  pub conditions : List Condition

pub record HostClaim : Type 0 where
  pub id : HostClaimId
  pub generation : ℕ  -- u64
  pub created_at : Timestamp
  pub deletion_timestamp : Option Timestamp
  pub spec : HostClaimSpec
  pub status : HostClaimStatus

pub data HostPhase : Type 0 where
  pending provisioning ready deleting failed : HostPhase

pub record HostStatus : Type 0 where
  pub phase : HostPhase
  pub provider_resource_id : Option String
  pub observed_at : Option Timestamp
  pub conditions : List Condition

pub record Host : Type 0 where
  pub id : HostId
  pub claim_id : HostClaimId
  pub created_at : Timestamp
  pub allocatable_resources : HostResources
  pub status : HostStatus

-- The derived `PartialEq` of the enums and of `HostResources`.
abbrev pub status_eq : ConditionStatus → ConditionStatus → Bool
status_eq ConditionStatus.is_true ConditionStatus.is_true = true
status_eq ConditionStatus.is_false ConditionStatus.is_false = true
status_eq ConditionStatus.unknown ConditionStatus.unknown = true
status_eq _ _ = false

abbrev pub phase_eq : HostPhase → HostPhase → Bool
phase_eq HostPhase.pending HostPhase.pending = true
phase_eq HostPhase.provisioning HostPhase.provisioning = true
phase_eq HostPhase.ready HostPhase.ready = true
phase_eq HostPhase.deleting HostPhase.deleting = true
phase_eq HostPhase.failed HostPhase.failed = true
phase_eq _ _ = false

abbrev pub resources_eq : HostResources → HostResources → Bool
resources_eq a b =
    a.vcpus == b.vcpus && (a.memory_bytes == b.memory_bytes && a.storage_bytes == b.storage_bytes)

abbrev pub spec_eq : HostClaimSpec → HostClaimSpec → Bool
spec_eq a b = resources_eq a.resources b.resources
