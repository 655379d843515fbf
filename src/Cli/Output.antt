-- ===== src/Cli/Output.antt =====
-- The lines that crates/control-cli/src/main.rs prints for people: `print_system_info`,
-- `print_host_claim`, `print_host` and the two lists. A line is a `println!`.
use mathlib.Core.Option
use mc_control_plane.Base.{ℕ, String, ◌<>◌, Option, none, some, List, [], ◌∷◌, ◌++◌, map, decimal}
use mc_control_plane.Protocol.{
  HostResources, Condition, ConditionStatus, HostClaim, Host, HostPhase,
}
use mc_control_plane.Codec.{Codec}
use mc_control_plane.Rpc.{SystemInfoResult, Response}

-- The derived `Debug` of the enums.
abbrev pub status_debug : ConditionStatus → String
status_debug ConditionStatus.is_true = "True"
status_debug ConditionStatus.is_false = "False"
status_debug ConditionStatus.unknown = "Unknown"

abbrev pub phase_debug : HostPhase → String
phase_debug HostPhase.pending = "Pending"
phase_debug HostPhase.provisioning = "Provisioning"
phase_debug HostPhase.ready = "Ready"
phase_debug HostPhase.deleting = "Deleting"
phase_debug HostPhase.failed = "Failed"

abbrev pub print_resources : String → HostResources → List String
print_resources prefix resources =
    (prefix <> " vcpus: " <> decimal resources.vcpus)
    ∷ (prefix <> " memory bytes: " <> decimal resources.memory_bytes)
    ∷ (prefix <> " storage bytes: " <> decimal resources.storage_bytes)
    ∷ []

abbrev pub print_condition : Condition → String
print_condition condition =
    "  condition "
    <> condition.condition_type
    <> "="
    <> status_debug condition.status
    <> " ("
    <> condition.reason
    <> ") "
    <> condition.message

abbrev pub or_dash : Option String → String
or_dash none = "-"
or_dash (some text) = text

-- A list is announced as empty, or printed with an empty line between two items.
abbrev pub separated : {A : Type 0} → (A → List String) → List A → List String
separated print [] = []
separated print (item ∷ items) = "" ∷ print item ++ separated print items

abbrev pub print_list : {A : Type 0} → String → (A → List String) → List A → List String
print_list nothing print [] = nothing ∷ []
print_list nothing print (item ∷ items) = print item ++ separated print items

module _ (c : Codec) where
  open c use {uuid_to_string, timestamp_to_string}

  unfoldable pub print_system_info : SystemInfoResult → List String
  print_system_info info =
      ("system: " <> info.system_name)
      ∷ ("version: " <> info.binary_version)
      ∷ ("rust: " <> info.rust_version)
      ∷ ("protocol: " <> info.protocol_version)
      ∷ ("started: " <> timestamp_to_string info.started_at)
      ∷ []

  abbrev pub deletion_line : Option ℕ → List String
  deletion_line none = []
  deletion_line (some timestamp) = ("  deletion requested: " <> timestamp_to_string timestamp) ∷ []

  unfoldable pub print_host_claim : HostClaim → List String
  print_host_claim claim =
      ("HostClaim " <> uuid_to_string claim.id)
        ∷ ("  generation: " <> decimal claim.generation)
        ∷ ("  created: " <> timestamp_to_string claim.created_at)
        ∷ deletion_line claim.deletion_timestamp
      ++ print_resources "  requested" claim.spec.resources
      ++ ("  host: " <> or_dash (Option.map uuid_to_string claim.status.host_id))
        ∷ map print_condition claim.status.conditions

  unfoldable pub print_host_claim_list : List HostClaim → List String
  unfolding print_host_claim
  print_host_claim_list items = print_list "No HostClaims." print_host_claim items

  unfoldable pub print_host : Host → List String
  print_host host =
      ("Host " <> uuid_to_string host.id)
        ∷ ("  claim: " <> uuid_to_string host.claim_id)
        ∷ ("  created: " <> timestamp_to_string host.created_at)
        ∷ ("  phase: " <> phase_debug host.status.phase)
        ∷ ("  provider resource: " <> or_dash host.status.provider_resource_id)
        ∷ print_resources "  allocatable" host.allocatable_resources
      ++ map print_condition host.status.conditions

  unfoldable pub print_host_list : List Host → List String
  unfolding print_host
  print_host_list items = print_list "No Hosts." print_host items

  -- The function that `run` prints a response with.
  unfoldable pub human_lines : Response → List String
  unfolding print_system_info print_host_claim print_host_claim_list print_host print_host_list
  human_lines (Response.info r) = print_system_info r
  human_lines (Response.claim r) = print_host_claim r
  human_lines (Response.claims rs) = print_host_claim_list rs
  human_lines (Response.host r) = print_host r
  human_lines (Response.hosts rs) = print_host_list rs
