-- ===== src/Storage/Rows.antt =====
-- The rows of storage.rs and crates/control-plane/migrations/control-plane/0001_initial.sql, and their conversion to
-- records: `claim_record_from_row`, `host_record_from_row` and the conversions that these call. The
-- tables are STRICT and NOT NULL, so a column has the type that `try_get` asks for.
use mc_control_plane.Base.{
  ℕ, ℤ, pos, negsuc, String, str_eq, ◌<>◌, Option, List, ltb, leb, Result, ok, err, ◌>>=◌,
  traverse_option, map_err, if◌then◌else◌,
}
use mc_control_plane.Protocol.{HostPhase, Timestamp, Uuid, Condition}
use mc_control_plane.AppErrors.{AnyhowError, AppError}
use mc_control_plane.Codec.{Codec}
use mc_control_plane.Domain.{HostClaimRecord, HostRecord}

pub record ClaimRow (c : Codec) : Type 0 where
  pub id : String
  pub generation : ℤ
  pub created_at : String
  pub deletion_timestamp : Option String
  pub vcpus : ℤ
  pub memory_bytes : ℤ
  pub storage_bytes : ℤ
  pub observed_generation : ℤ
  pub conditions_json : c.Json
  pub retry_attempt : ℤ
  pub next_reconcile_at_unix_ms : Option ℤ
  pub last_error_kind : Option String
  pub last_error_message : Option String

pub record HostRow (c : Codec) : Type 0 where
  pub id : String
  pub claim_id : String
  pub created_at : String
  pub vcpus : ℤ
  pub memory_bytes : ℤ
  pub storage_bytes : ℤ
  pub provider_plan_id : String
  pub phase : String
  pub provider_resource_id : Option String
  pub observed_at : Option String
  pub conditions_json : c.Json
  pub retry_attempt : ℤ
  pub next_reconcile_at_unix_ms : Option ℤ
  pub last_error_kind : Option String
  pub last_error_message : Option String

-- A row of `SELECT c.*, h.id AS host_id … LEFT JOIN hosts`.
pub record JoinedRow (c : Codec) : Type 0 where
  pub claim : ClaimRow c
  pub host_id : Option String

-- `u64` to `i64` for a column; the error is the caller's.
unfoldable pub to_i64 : ℕ → String → Result AppError ℤ
to_i64 value field =
    if leb value 9223372036854775807
    then ok (pos value)
    else err (AppError.invalid_argument (field <> " must not exceed 9223372036854775807"))

unfoldable pub to_u64 : ℤ → String → Result AnyhowError ℕ
to_u64 (pos value) field = ok value
to_u64 (negsuc n) field = err (AnyhowError.invalid_negative field (negsuc n))

unfoldable pub to_u32 : ℤ → String → Result AnyhowError ℕ
to_u32 (pos value) field =
    if ltb value 4294967296 then ok value else err (AnyhowError.invalid field (pos value))
to_u32 (negsuc n) field = err (AnyhowError.invalid field (negsuc n))

unfoldable pub host_phase_to_db : HostPhase → String
host_phase_to_db HostPhase.pending = "pending"
host_phase_to_db HostPhase.provisioning = "provisioning"
host_phase_to_db HostPhase.ready = "ready"
host_phase_to_db HostPhase.deleting = "deleting"
host_phase_to_db HostPhase.failed = "failed"

unfoldable pub host_phase_from_db : String → Result AnyhowError HostPhase
host_phase_from_db value =
    if str_eq value "pending"
    then ok HostPhase.pending
    else if str_eq value "provisioning"
    then ok HostPhase.provisioning
    else if str_eq value "ready"
    then ok HostPhase.ready
    else if str_eq value "deleting"
    then ok HostPhase.deleting
    else if str_eq value "failed"
    then ok HostPhase.failed
    else err (AnyhowError.unknown_phase value)

module _ (c : Codec) where
  open c use {uuid_from_str, timestamp_from_str, conditions_from_json}

  -- `?` turns a third-party error into an `anyhow::Error`.
  abbrev pub read_uuid : String → Result AnyhowError Uuid
  read_uuid value = map_err AnyhowError.external (uuid_from_str value)

  abbrev pub read_conditions : c.Json → Result AnyhowError (List Condition)
  read_conditions value = map_err AnyhowError.external (conditions_from_json value)

  unfoldable pub parse_timestamp : String → Result AnyhowError Timestamp
  parse_timestamp value =
      map_err (λ _. AnyhowError.parse_timestamp value) (timestamp_from_str value)

  unfoldable pub claim_record_from_row : JoinedRow c → Result AnyhowError HostClaimRecord
  unfolding parse_timestamp
  claim_record_from_row row = do
    id ← read_uuid row.claim.id
    host_id ← traverse_option read_uuid row.host_id
    conditions ← read_conditions row.claim.conditions_json
    generation ← to_u64 row.claim.generation "generation"
    created_at ← parse_timestamp row.claim.created_at
    deletion_timestamp ← traverse_option parse_timestamp row.claim.deletion_timestamp
    vcpus ← to_u32 row.claim.vcpus "vcpus"
    memory_bytes ← to_u64 row.claim.memory_bytes "memory_bytes"
    storage_bytes ← to_u64 row.claim.storage_bytes "storage_bytes"
    observed_generation ← to_u64 row.claim.observed_generation "observed_generation"
    attempt ← to_u32 row.claim.retry_attempt "retry_attempt"
    ok (record {
      resource = record {
        id = id;
        generation = generation;
        created_at = created_at;
        deletion_timestamp = deletion_timestamp;
        spec = record {
          resources = record {
            vcpus = vcpus;
            memory_bytes = memory_bytes;
            storage_bytes = storage_bytes;
          };
        };
        status = record {
          observed_generation = observed_generation;
          host_id = host_id;
          conditions = conditions;
        };
      };
      retry = record {
        attempt = attempt;
        next_reconcile_at_unix_ms = row.claim.next_reconcile_at_unix_ms;
        last_error_kind = row.claim.last_error_kind;
        last_error_message = row.claim.last_error_message;
      };
    })

  unfoldable pub host_record_from_row : HostRow c → Result AnyhowError HostRecord
  unfolding parse_timestamp
  host_record_from_row row = do
    id ← read_uuid row.id
    claim_id ← read_uuid row.claim_id
    created_at ← parse_timestamp row.created_at
    vcpus ← to_u32 row.vcpus "vcpus"
    memory_bytes ← to_u64 row.memory_bytes "memory_bytes"
    storage_bytes ← to_u64 row.storage_bytes "storage_bytes"
    phase ← host_phase_from_db row.phase
    observed_at ← traverse_option parse_timestamp row.observed_at
    conditions ← read_conditions row.conditions_json
    attempt ← to_u32 row.retry_attempt "retry_attempt"
    ok (record {
      resource = record {
        id = id;
        claim_id = claim_id;
        created_at = created_at;
        allocatable_resources = record {
          vcpus = vcpus;
          memory_bytes = memory_bytes;
          storage_bytes = storage_bytes;
        };
        status = record {
          phase = phase;
          provider_resource_id = row.provider_resource_id;
          observed_at = observed_at;
          conditions = conditions;
        };
      };
      provider_plan_id = row.provider_plan_id;
      retry = record {
        attempt = attempt;
        next_reconcile_at_unix_ms = row.next_reconcile_at_unix_ms;
        last_error_kind = row.last_error_kind;
        last_error_message = row.last_error_message;
      };
    })
