-- ===== src/Storage/Hosts/Ensure.antt =====
-- `ensure_host` of storage.rs: the Host of a claim is inserted once and read back. `fresh` is the
-- identifier of `HostId::new()`, `now` the reading of `now_timestamp()`.
use mc_control_plane.Base.{
  ℕ, pos, String, str_eq, ◌<>◌, Option, none, some, not, ◌==◌, ◌||◌, Result, ok, err, ◌>>=◌, ◌>>◌,
  map_err, ok_or, if◌then◌else◌, is_some, ◌&&◌, is_none,
}
use mc_control_plane.Protocol.{
  HostClaimId, HostId, HostResources, HostClaim, Host, Timestamp, ConditionStatus, resources_eq,
}
use mc_control_plane.AppErrors.{AnyhowError, AppError, external_error}
use mc_control_plane.Codec.{Codec}
use mc_control_plane.Domain.{
  HostClaimRecord, HostRecord, initial_host, new_condition, set_condition,
}
use mc_control_plane.Storage.Rows.{
  ClaimRow, HostRow, to_i64, claim_record_from_row, host_record_from_row,
}
use mc_control_plane.Storage.Tables.{
  Db, Op, transaction, claim_has_id, fetch_claim_row, fetch_host_for_claim_row, insert_host_row,
  update_claim_rows,
}
use mc_control_plane.Storage.Claims.{validate_resources}

module _ (c : Codec) where
  open c use {uuid_to_string, timestamp_to_string, conditions_to_json}

  -- `validate_host_assignment`.
  unfoldable pub validate_host_assignment :
      HostRecord → String → HostResources → Result AppError (Unit {0})
  validate_host_assignment host provider_plan_id resources =
      if not (str_eq host.provider_plan_id provider_plan_id)
        || not (resources_eq host.resource.allocatable_resources resources)
      then err (
          AppError.conflict "HostClaim" (uuid_to_string host.resource.claim_id) (
            "the existing Host assignment differs from the resolved provider plan or resources (Host "
            <> uuid_to_string host.resource.id
            <> ")"))
      else ok tt

  -- The row of the INSERT of `ensure_host`.
  unfoldable pub new_host_row : Host → String → Result AppError (HostRow c)
  unfolding to_i64
  new_host_row host provider_plan_id = do
    memory_bytes ← to_i64 host.allocatable_resources.memory_bytes "memory_bytes"
    storage_bytes ← to_i64 host.allocatable_resources.storage_bytes "storage_bytes"
    conditions_json ← map_err external_error (conditions_to_json host.status.conditions)
    ok (record {
      id = uuid_to_string host.id;
      claim_id = uuid_to_string host.claim_id;
      created_at = timestamp_to_string host.created_at;
      vcpus = pos host.allocatable_resources.vcpus;
      memory_bytes = memory_bytes;
      storage_bytes = storage_bytes;
      provider_plan_id = provider_plan_id;
      phase = "pending";
      provider_resource_id = none;
      observed_at = none;
      conditions_json = conditions_json;
      retry_attempt = pos 0;
      next_reconcile_at_unix_ms = none;
      last_error_kind = none;
      last_error_message = none;
    })

  -- The claim's record once its Host is inserted.
  unfoldable pub bound_claim : HostClaim → HostId → Timestamp → HostClaim
  bound_claim claim host_id now =
      let accepted =
        (set_condition claim.status.conditions (
          new_condition "Accepted" ConditionStatus.is_true "RequirementsValid"
            "The current provider policy can satisfy this claim." claim.generation now)).1 in
      let bound =
        (set_condition accepted (
          new_condition "Bound" ConditionStatus.is_true "HostAssigned"
            ("Host " <> uuid_to_string host_id <> " is assigned.") claim.generation now)).1 in
      let ready =
        (set_condition bound (
          new_condition "Ready" ConditionStatus.is_false "HostNotReady"
            "The assigned Host is not Ready yet." claim.generation now)).1 in
      record claim {
        status = record {
          observed_generation = claim.generation;
          host_id = some host_id;
          conditions = ready;
        };
      }

  -- The UPDATE of the claim; no row affected is a conflict.
  unfoldable pub save_bound_claim : HostClaimId → HostClaim → Db c → Result AppError (Db c)
  unfolding to_i64
  save_bound_claim claim_id claim db = do
    observed_generation ← to_i64 claim.status.observed_generation "observed_generation"
    conditions_json ← map_err external_error (conditions_to_json claim.status.conditions)
    let (affected, db') =
        update_claim_rows
          (λ (row : ClaimRow c).
            claim_has_id (uuid_to_string claim_id) row && is_none row.deletion_timestamp)
          (λ (row : ClaimRow c). record row {
            observed_generation = observed_generation;
            conditions_json = conditions_json;
            retry_attempt = pos 0;
            next_reconcile_at_unix_ms = none;
            last_error_kind = none;
            last_error_message = none;
          })
          db
    if affected == 1
        then ok db'
        else err (
            AppError.conflict "HostClaim" (uuid_to_string claim_id)
              "the claim changed while assigning a Host")

  -- The claim is saved only if the INSERT affected a row.
  unfoldable pub bind_inserted : HostClaimId → HostClaim → ℕ × Db c → Result AppError (Db c)
  unfolding save_bound_claim
  bind_inserted claim_id claim (affected, db) =
      if affected == 1 then save_bound_claim claim_id claim db else ok db

  -- The last part of `ensure_host`: read the Host back and compare it.
  unfoldable pub read_host :
      HostClaimId
      → String
      → HostResources
      → Option (HostRow c)
      → Db c
      → Result AppError (HostRecord × Db c)
  unfolding validate_host_assignment
  read_host claim_id provider_plan_id resources found db = do
    row ← ok_or found (AppError.internal AnyhowError.host_row_missing)
    host ← map_err AppError.internal (host_record_from_row c row)
    validate_host_assignment host provider_plan_id resources
    ok (host, db)

  unfoldable pub assign_new :
      HostClaimRecord
      → HostClaimId
      → String
      → HostResources
      → HostId
      → Timestamp
      → Db c
      → Result AppError (HostRecord × Db c)
  unfolding new_host_row bound_claim bind_inserted read_host
  assign_new claim claim_id provider_plan_id resources fresh now db = do
    let host = initial_host fresh claim_id resources now
    row ← new_host_row host provider_plan_id
    inserted ← map_err AppError.internal (insert_host_row row db)
    db' ← bind_inserted claim_id (bound_claim claim.resource host.id now) inserted
    read_host claim_id provider_plan_id resources
        (fetch_host_for_claim_row (uuid_to_string claim_id) db') db'

  abbrev pub assign :
      HostClaimRecord
      → HostClaimId
      → String
      → HostResources
      → HostId
      → Timestamp
      → Option (HostRow c)
      → Db c
      → Result AppError (HostRecord × Db c)
  assign claim claim_id plan resources fresh now (some row) db =
      read_host claim_id plan resources (some row) db
  assign claim claim_id plan resources fresh now none db =
      assign_new claim claim_id plan resources fresh now db

  unfoldable pub ensure_host :
      HostClaimId → String → HostResources → HostId → Timestamp → Op c HostRecord
  unfolding read_host assign_new
  ensure_host claim_id provider_plan_id resources fresh now = transaction λ db. do
    validate_resources resources
    row ←
        ok_or (fetch_claim_row (uuid_to_string claim_id) db)
          (AppError.not_found "HostClaim" (uuid_to_string claim_id))
    claim ← map_err AppError.internal (claim_record_from_row c row)
    if is_some claim.resource.deletion_timestamp
        then err
            (AppError.conflict "HostClaim" (uuid_to_string claim_id) "the claim is being deleted")
        else assign claim claim_id provider_plan_id resources fresh now
            (fetch_host_for_claim_row (uuid_to_string claim_id) db) db
