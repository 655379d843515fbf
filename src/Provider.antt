-- ===== src/Provider.antt =====
-- crates/control-plane/src/provider/mod.rs: what the controller asks of an infrastructure provider.
-- The trait is a record of functions over the provider's state.
pub mod Fake
use mc_control_plane.Base.{String, Option, Result, ok, err}
use mc_control_plane.Protocol.{HostId, HostResources}

pub record Plan : Type 0 where
  pub id : String
  pub resources : HostResources

pub data ProviderLifecycle : Type 0 where
  provisioning ready deleting : ProviderLifecycle

pub record ProviderResource : Type 0 where
  pub id : String
  pub host_id : HostId
  pub lifecycle : ProviderLifecycle

pub data ProviderObservation : Type 0 where
  absent : ProviderObservation
  present : ProviderResource → ProviderObservation

pub data CreateOutcome : Type 0 where
  created : ProviderResource → CreateOutcome
  outcome_unknown : CreateOutcome

pub data DeleteOutcome : Type 0 where
  deleted outcome_unknown : DeleteOutcome

pub data ProviderError : Type 0 where
  definitive transient : String → ProviderError

-- A call changes the provider, also when it fails.
abbrev pub Call : Type 0 → Type 0 → Type 0
Call P A = P → Result ProviderError A × P

pub record HostProvider (P : Type 0) : Type 0 where
  pub select_plan : HostResources → Call P (Option Plan)
  pub observe : HostId → Call P ProviderObservation
  pub create : HostId → String → Call P CreateOutcome
  pub delete : HostId → Call P DeleteOutcome
