-- ===== src/Storage/Hosts.antt =====
-- The Host operations of `Storage`; `ensure_host` is in `Ensure`.
pub mod Ensure
pub mod Assigned
pub mod Saved
use mathlib.Core.Option
use mc_control_plane.Base.{
  ℕ, pos, String, str_eq, ◌<>◌, Option, none, some, not, ◌==◌, ◌||◌, List, Result, ok, err, ◌>>=◌,
  ◌>>◌, map_err, ok_or, traverse_list, traverse_option, if◌then◌else◌, is_some, ◌&&◌, is_none,
}
use mc_control_plane.Protocol.{
  HostClaimId, HostId, HostResources, HostClaim, Host, Timestamp, ConditionStatus, resources_eq,
}
use mc_control_plane.AppErrors.{AnyhowError, AppError, external_error}
use mc_control_plane.Codec.{Codec}
use mc_control_plane.Domain.{
  HostClaimRecord, HostRecord, initial_host, new_condition, set_condition,
}
use mc_control_plane.Storage.Rows.{
  ClaimRow, HostRow, to_i64, claim_record_from_row, host_record_from_row, host_phase_to_db,
}
use mc_control_plane.Storage.Tables.{
  Db, Op, transaction, claim_has_id, fetch_claim_row, fetch_host_for_claim_row, fetch_host_row,
  insert_host_row, update_claim_rows, update_host_row, select_hosts,
}
use mc_control_plane.Storage.Claims.{validate_resources}

module _ (c : Codec) where
  open c use {uuid_to_string, timestamp_to_string, conditions_to_json}

  abbrev pub host_not_found : HostId → AppError
  host_not_found id = AppError.not_found "Host" (uuid_to_string id)

  unfoldable pub get_host : HostId → Op c HostRecord
  get_host id = transaction λ db. do
    row ← ok_or (fetch_host_row (uuid_to_string id) db) (host_not_found id)
    host ← map_err AppError.internal (host_record_from_row c row)
    ok (host, db)

  abbrev pub get_host_for_claim : HostClaimId → Op c (Option HostRecord)
  get_host_for_claim claim_id = transaction λ db. do
    host ← map_err AppError.internal (
        traverse_option (host_record_from_row c)
          (fetch_host_for_claim_row (uuid_to_string claim_id) db))
    ok (host, db)

  unfoldable pub list_hosts : Op c (List HostRecord)
  list_hosts = transaction λ db. do
    hosts ← map_err AppError.internal (traverse_list (host_record_from_row c) (select_hosts db))
    ok (hosts, db)

  -- The columns that `save_host` sets.
  unfoldable pub host_columns : HostRecord → c.Json → HostRow c → HostRow c
  unfolding host_phase_to_db
  host_columns saved conditions_json row = record row {
    phase = host_phase_to_db saved.resource.status.phase;
    provider_resource_id = saved.resource.status.provider_resource_id;
    observed_at = Option.map timestamp_to_string saved.resource.status.observed_at;
    conditions_json = conditions_json;
    retry_attempt = pos saved.retry.attempt;
    next_reconcile_at_unix_ms = saved.retry.next_reconcile_at_unix_ms;
    last_error_kind = saved.retry.last_error_kind;
    last_error_message = saved.retry.last_error_message;
  }

  unfoldable pub save_host : HostRecord → Op c (Unit {0})
  unfolding host_columns
  save_host saved = transaction λ db. do
    conditions_json ← map_err external_error (conditions_to_json saved.resource.status.conditions)
    result ← map_err AppError.internal (
        update_host_row (uuid_to_string saved.resource.id)
          saved.resource.status.provider_resource_id (host_columns saved conditions_json) db)
    if result.0 == 0 then err (host_not_found saved.resource.id) else ok (tt, result.1)
