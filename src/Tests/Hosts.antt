-- ===== src/Tests/Hosts.antt =====
-- The theorems on stored Hosts at a concrete Host.
use mc_control_plane.Base.{some, [], ◌≡◌, refl, arith, ok, ◌>>=◌}
use mc_control_plane.Protocol.{HostPhase}
use mc_control_plane.Domain.{HostRecord}
use mc_control_plane.Storage.Tables.{Db}
use mc_control_plane.Storage.Hosts.{get_host, save_host}
use mc_control_plane.Storage.Hosts.Ensure.{ensure_host}
use mc_control_plane.Storage.Hosts.Saved.{with_progress, save_host-get_host}
use mc_control_plane.Storage.Invariant.Consistent.{IsConsistent, IsConsistent-IsInvariant}
use mc_control_plane.Storage.Invariant.HostOperations.{ensure_host-Keeps}
use mc_control_plane.Rpc.Preserved.{Always}
use mc_control_plane.Tests.Sample.{sample_codec, sample_codec-IsFaithful, small}
use mc_control_plane.Tests.Storage.{one_claim, one_claim-IsConsistent}
use mc_control_plane.Tests.Provider.{bound_db, new_host}
use mc_control_plane.Storage.Tables.{
  fetch_host_row, fetch_claim_row, insert_claim_row, claim_checks, fetch_host_for_claim_row,
  insert_host_row, host_checks, update_claim_rows, update_host_row,
}
use mc_control_plane.Base.{find_row, count_rows, update_rows}
use mc_control_plane.Storage.Claims.{validate_resources, create_claim, create_new, new_claim_row}
use mc_control_plane.Domain.{
  initial_claim, initial_host, insert_sorted, new_condition, set_condition, set_existing,
  sort_conditions, update_condition,
}
use mc_control_plane.Storage.Rows.{
  claim_record_from_row, to_u64, to_u32, host_phase_from_db, host_record_from_row, parse_timestamp,
  to_i64, host_phase_to_db,
}
use mc_control_plane.Storage.Hosts.{host_columns}
use mc_control_plane.Storage.Hosts.Ensure.{
  assign_new, bind_inserted, bound_claim, new_host_row, read_host, save_bound_claim,
  validate_host_assignment,
}
use mc_control_plane.Domain.Retry.{default_retry}

bound_db-IsConsistent : IsConsistent bound_db
bound_db-IsConsistent =
    (ensure_host-Keeps sample_codec (IsConsistent-IsInvariant {Allowed = Always}) 1 "small"
        small.resources 77 8).at
      one_claim one_claim-IsConsistent

-- The Host as the controller saves it once the provider has made its resource.
abbrev ready_host : HostRecord
ready_host = record new_host {
  resource = record (new_host.resource) {
    status = record {
      phase = HostPhase.ready;
      provider_resource_id = some "fake-II";
      observed_at = some 9;
      conditions = [];
    };
  };
  retry = record (new_host.retry) { attempt = 2 };
}

abbrev ready_db : Db sample_codec
ready_db = (save_host sample_codec ready_host bound_db).1

read_new : get_host sample_codec 77 bound_db ≡ (ok new_host, bound_db)
unfolding get_host ensure_host ◌>>=◌ fetch_host_row find_row validate_resources fetch_claim_row
    create_claim initial_claim insert_claim_row claim_checks claim_record_from_row to_u64 to_u32
    fetch_host_for_claim_row initial_host insert_host_row count_rows update_rows insert_sorted
    new_condition set_condition set_existing sort_conditions update_condition create_new
    new_claim_row assign_new bind_inserted bound_claim new_host_row read_host save_bound_claim
    validate_host_assignment host_phase_from_db host_record_from_row parse_timestamp to_i64
    host_checks update_claim_rows default_retry update_host_row host_columns host_phase_to_db
read_new = refl

saved_ready : save_host sample_codec ready_host bound_db ≡ (ok tt, ready_db)
unfolding save_host get_host ensure_host ◌>>=◌ fetch_host_row find_row validate_resources
    fetch_claim_row create_claim initial_claim insert_claim_row claim_checks claim_record_from_row
    to_u64 to_u32 fetch_host_for_claim_row initial_host insert_host_row count_rows update_rows
    insert_sorted new_condition set_condition set_existing sort_conditions update_condition
    create_new new_claim_row assign_new bind_inserted bound_claim new_host_row read_host
    save_bound_claim validate_host_assignment host_phase_from_db host_record_from_row
    parse_timestamp to_i64 host_checks update_claim_rows default_retry update_host_row host_columns
    host_phase_to_db
saved_ready = refl

save_host-get_host_example :
    get_host sample_codec 77 ready_db ≡ (ok (with_progress ready_host new_host), ready_db)
unfolding initial_host
save_host-get_host_example =
    save_host-get_host sample_codec sample_codec-IsFaithful ready_host new_host bound_db ready_db
      bound_db-IsConsistent read_new (omega arith) saved_ready
