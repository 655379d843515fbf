-- ===== src/Storage/Claims.antt =====
-- The HostClaim operations of `Storage`. `now` is the reading of `now_timestamp()`.
pub mod Reading
pub mod Valid
pub mod Stored
pub mod Status
pub mod Saved
pub mod Stale
use mathlib.Core.Option
use mc_control_plane.Base.{
  ℤ, pos, Option, none, some, Bool, ◌==◌, ◌&&◌, List, Result, ok, err, ◌>>=◌, ◌>>◌, map_err, ok_or,
  traverse_list, if◌then◌else◌, is_none,
}
use mc_control_plane.Protocol.{
  HostClaimId, HostResources, HostClaimSpec, HostClaim, Timestamp, ConditionStatus, spec_eq,
}
use mc_control_plane.AppErrors.{AnyhowError, AppError, external_error}
use mc_control_plane.Codec.{Codec}
use mc_control_plane.Domain.{
  HostClaimRecord, initial_claim, new_condition, set_condition, default_retry,
}
use mc_control_plane.Storage.Rows.{ClaimRow, JoinedRow, to_i64, claim_record_from_row}
use mc_control_plane.Storage.Tables.{
  Db, Op, transaction, sql_is, claim_has_id, fetch_claim_row, insert_claim_row, update_claim_rows,
  delete_claim_row, select_claims,
}

-- `validate_resources`.
unfoldable pub validate_resources : HostResources → Result AppError (Unit {0})
unfolding to_i64
validate_resources r =
    if r.vcpus == 0
    then err (AppError.invalid_argument "vcpus must be greater than zero")
    else if r.memory_bytes == 0
    then err (AppError.invalid_argument "memory_bytes must be greater than zero")
    else if r.storage_bytes == 0
    then err (AppError.invalid_argument "storage_bytes must be greater than zero")
    else do to_i64 r.memory_bytes "memory_bytes"; to_i64 r.storage_bytes "storage_bytes"; ok tt

module _ (c : Codec) where
  open c use {uuid_to_string, timestamp_to_string, conditions_to_json}

  abbrev pub claim_not_found : HostClaimId → AppError
  claim_not_found id = AppError.not_found "HostClaim" (uuid_to_string id)

  -- The row of the INSERT of `create_claim`.
  unfoldable pub new_claim_row : HostClaim → Result AppError (ClaimRow c)
  unfolding to_i64
  new_claim_row claim = do
    generation ← to_i64 claim.generation "generation"
    memory_bytes ← to_i64 claim.spec.resources.memory_bytes "memory_bytes"
    storage_bytes ← to_i64 claim.spec.resources.storage_bytes "storage_bytes"
    observed_generation ← to_i64 claim.status.observed_generation "observed_generation"
    conditions_json ← map_err external_error (conditions_to_json claim.status.conditions)
    ok (record {
      id = uuid_to_string claim.id;
      generation = generation;
      created_at = timestamp_to_string claim.created_at;
      deletion_timestamp = none;
      vcpus = pos claim.spec.resources.vcpus;
      memory_bytes = memory_bytes;
      storage_bytes = storage_bytes;
      observed_generation = observed_generation;
      conditions_json = conditions_json;
      retry_attempt = pos 0;
      next_reconcile_at_unix_ms = none;
      last_error_kind = none;
      last_error_message = none;
    })

  unfoldable pub create_new :
      HostClaimId → HostClaimSpec → Timestamp → Db c → Result AppError (HostClaim × Db c)
  unfolding new_claim_row
  create_new id spec now db = do
    let claim = initial_claim id spec now
    row ← new_claim_row claim
    db' ← map_err AppError.internal (insert_claim_row row db)
    ok (claim, db')

  unfoldable pub create_existing :
      HostClaimId → HostClaimSpec → JoinedRow c → Db c → Result AppError (HostClaim × Db c)
  create_existing id spec row db = do
    existing ← map_err AppError.internal (claim_record_from_row c row)
    if spec_eq existing.resource.spec spec
        then ok (existing.resource, db)
        else err (
            AppError.conflict "HostClaim" (uuid_to_string id)
              "the existing claim has a different spec")

  abbrev pub create_found :
      HostClaimId
      → HostClaimSpec
      → Timestamp
      → Option (JoinedRow c)
      → Db c
      → Result AppError (HostClaim × Db c)
  create_found id spec now (some row) db = create_existing id spec row db
  create_found id spec now none db = create_new id spec now db

  unfoldable pub create_claim : HostClaimId → HostClaimSpec → Timestamp → Op c HostClaim
  unfolding create_new create_existing
  create_claim id spec now = transaction λ db. do
    validate_resources spec.resources
    create_found id spec now (fetch_claim_row (uuid_to_string id) db) db

  unfoldable pub get_claim : HostClaimId → Op c HostClaimRecord
  get_claim id = transaction λ db. do
    row ← ok_or (fetch_claim_row (uuid_to_string id) db) (claim_not_found id)
    found ← map_err AppError.internal (claim_record_from_row c row)
    ok (found, db)

  unfoldable pub list_claims : Op c (List HostClaimRecord)
  list_claims = transaction λ db. do
    claims ← map_err AppError.internal (traverse_list (claim_record_from_row c) (select_claims db))
    ok (claims, db)

  -- The record once the deletion is requested.
  unfoldable pub deleting_record : HostClaimRecord → Timestamp → HostClaimRecord
  deleting_record found now = record found {
    resource = record (found.resource) {
      deletion_timestamp = some now;
      status = record (found.resource.status) {
        observed_generation = found.resource.generation;
        conditions =
            (set_condition found.resource.status.conditions (
              new_condition "Ready" ConditionStatus.is_false "DeletionRequested"
                "The HostClaim is being released." found.resource.generation now)).1;
      };
    };
    retry = default_retry;
  }

  unfoldable pub mark_new :
      HostClaimId → HostClaimRecord → Timestamp → Db c → Result AppError (HostClaim × Db c)
  unfolding deleting_record
  mark_new id found now db = do
    let marked = deleting_record found now
    observed_generation ← to_i64 marked.resource.status.observed_generation "observed_generation"
    conditions_json ← map_err external_error (conditions_to_json marked.resource.status.conditions)
    let (affected, db') =
        update_claim_rows (claim_has_id (uuid_to_string id))
          (λ (row : ClaimRow c). record row {
            deletion_timestamp = some (timestamp_to_string now);
            observed_generation = observed_generation;
            conditions_json = conditions_json;
            retry_attempt = pos 0;
            next_reconcile_at_unix_ms = none;
            last_error_kind = none;
            last_error_message = none;
          })
          db
    if affected == 1
        then ok (marked.resource, db')
        else err (AppError.internal AnyhowError.claim_disappeared)

  unfoldable pub mark_claim_deleting : HostClaimId → Timestamp → Op c HostClaim
  unfolding mark_new
  mark_claim_deleting id now = transaction λ db. do
    row ← ok_or (fetch_claim_row (uuid_to_string id) db) (claim_not_found id)
    found ← map_err AppError.internal (claim_record_from_row c row)
    if is_none found.resource.deletion_timestamp
        then mark_new id found now db
        else ok (found.resource, db)

  -- The columns that `save_claim_status` sets.
  unfoldable pub saved_columns : HostClaimRecord → ℤ → c.Json → ClaimRow c → ClaimRow c
  saved_columns saved observed_generation conditions_json row = record row {
    observed_generation = observed_generation;
    conditions_json = conditions_json;
    retry_attempt = pos saved.retry.attempt;
    next_reconcile_at_unix_ms = saved.retry.next_reconcile_at_unix_ms;
    last_error_kind = saved.retry.last_error_kind;
    last_error_message = saved.retry.last_error_message;
  }

  -- The status is stored only if the deletion timestamp is still the one that was observed; the
  -- answer tells whether it was.
  unfoldable pub save_claim_status : HostClaimRecord → Op c Bool
  save_claim_status saved = transaction λ db. do
    observed_generation ← to_i64 saved.resource.status.observed_generation "observed_generation"
    conditions_json ← map_err external_error (conditions_to_json saved.resource.status.conditions)
    let deletion_timestamp = Option.map timestamp_to_string saved.resource.deletion_timestamp
    let (affected, db') =
        update_claim_rows
          (λ (row : ClaimRow c).
            claim_has_id (uuid_to_string saved.resource.id) row
            && sql_is row.deletion_timestamp deletion_timestamp)
          (saved_columns saved observed_generation conditions_json) db
    ok (affected == 1, db')

  unfoldable pub finalize_claim : HostClaimId → Op c (Unit {0})
  finalize_claim claim_id = transaction λ db. do
    let (affected, db') = delete_claim_row (uuid_to_string claim_id) db
    if affected == 0 then err (claim_not_found claim_id) else ok (tt, db')
