-- ===== src/Tests/Storage.antt =====
-- Claims that are created, updated and finalized in a database that starts empty.
use mc_control_plane.Base.{
  ℕ, none, some, String, Bool, true, List, [], ◌∷◌, ◌≡◌, ◌≢◌, ◌⊎◌, refl, arith, Result, ok, err,
  find_row, count_rows, update_rows, ◌>>=◌,
}
use mc_control_plane.AppErrors.{AppError}
use mc_control_plane.Domain.{
  HostClaimRecord, initial_claim, default_retry, new_condition, insert_sorted, set_condition,
  set_existing, sort_conditions, update_condition,
}
use mc_control_plane.Storage.Rows.{to_i64, to_u64, to_u32, parse_timestamp, claim_record_from_row}
use mc_control_plane.Storage.Tables.{
  Db, update_claim_rows, fetch_claim_row, insert_claim_row, claim_checks, claim_has_id,
  host_has_claim,
}
use mc_control_plane.Storage.Claims.{
  validate_resources, new_claim_row, create_new, create_claim, get_claim, save_claim_status,
  finalize_claim, claim_not_found, mark_claim_deleting, mark_new, deleting_record,
}
use mc_control_plane.Storage.Claims.Valid.{IsValid, validate_resources_lem}
use mc_control_plane.Storage.Claims.Stored.{create_claim_lem}
use mc_control_plane.Storage.Claims.Saved.{save_claim_status-get_claim}
use mc_control_plane.Storage.Claims.Stale.{save_claim_status-stale}
use mc_control_plane.Storage.Claims.Status.{finalize_claim_lem}
use mc_control_plane.Storage.Claims.Reading.{with_status}
use mc_control_plane.Storage.Invariant.Consistent.{IsConsistent, IsConsistent-IsInvariant}
use mc_control_plane.Storage.Invariant.Operations.{create_claim-Keeps, mark_claim_deleting-Keeps}
use mc_control_plane.Rpc.Preserved.{Always}
use mc_control_plane.Tests.Sample.{sample_codec, sample_codec-IsFaithful, empty_db, small, large}

pub empty_db-IsConsistent : IsConsistent empty_db
empty_db-IsConsistent = record {
  claim_ids = tt;
  host_ids = tt;
  one_host = tt;
  owned = tt;
  unshared = tt;
}

-- The database with the claim 1 of `small`, created at 5.
abbrev pub one_claim : Db sample_codec
one_claim = (create_claim sample_codec 1 small 5 empty_db).1

created : create_claim sample_codec 1 small 5 empty_db ≡ (ok (initial_claim 1 small 5), one_claim)
unfolding create_claim create_new new_claim_row insert_claim_row fetch_claim_row find_row ◌>>=◌
    validate_resources initial_claim claim_checks
created = refl

create_claim_lem_example :
    (initial_claim 1 small 5 ≡ initial_claim 1 small 5)
    × (get_claim sample_codec 1 one_claim
        ≡ (ok (record { resource = initial_claim 1 small 5; retry = default_retry }), one_claim))
    × (create_claim sample_codec 1 small 6 one_claim ≡ (ok (initial_claim 1 small 5), one_claim))
    × (create_claim sample_codec 1 large 6 one_claim ≡ (
      err (
          AppError.conflict "HostClaim"
            (sample_codec.uuid_to_string 1)
            "the existing claim has a different spec"),
      one_claim,
    ))
unfolding validate_resources find_row ◌>>=◌
create_claim_lem_example =
    create_claim_lem sample_codec sample_codec-IsFaithful 1 small large 5 6 empty_db one_claim
      (initial_claim 1 small 5) empty_db-IsConsistent refl (omega arith) created refl refl

pub one_claim-IsConsistent : IsConsistent one_claim
one_claim-IsConsistent =
    (create_claim-Keeps sample_codec (IsConsistent-IsInvariant {Allowed = Always}) 1 small 5).at
      empty_db empty_db-IsConsistent

abbrev pub stored : HostClaimRecord
stored = record { resource = initial_claim 1 small 5; retry = default_retry }

-- The claim as the controller saves it, with no condition and one attempt.
abbrev attempted : HostClaimRecord
attempted = record {
  resource = record (stored.resource) {
    status = record { observed_generation = 1; host_id = none; conditions = [] };
  };
  retry = record (stored.retry) { attempt = 1 };
}

abbrev saved_db : Db sample_codec
saved_db = (save_claim_status sample_codec attempted one_claim).1

save_claim_status-get_claim_example :
    (attempted.resource.deletion_timestamp ≡ stored.resource.deletion_timestamp)
    × (get_claim sample_codec 1 saved_db
        ≡ (ok (with_status sample_codec none 1 [] attempted.retry stored), saved_db))
unfolding initial_claim save_claim_status ◌>>=◌ to_i64
    mc_control_plane.Storage.Tables.update_claim_rows mc_control_plane.Base.count_rows create_claim
    validate_resources fetch_claim_row find_row insert_claim_row claim_checks
    mc_control_plane.Storage.Tables.sql_is
save_claim_status-get_claim_example =
    save_claim_status-get_claim sample_codec sample_codec-IsFaithful attempted stored one_claim
      saved_db one_claim-IsConsistent (create_claim_lem_example.1) (omega arith) refl

-- The claim is being deleted since 7.
abbrev deleting_db : Db sample_codec
deleting_db = (mark_claim_deleting sample_codec 1 7 one_claim).1

deleting_db-IsConsistent : IsConsistent deleting_db
deleting_db-IsConsistent =
    (mark_claim_deleting-Keeps sample_codec (IsConsistent-IsInvariant {Allowed = Always}) 1 7 tt).at
      one_claim one_claim-IsConsistent

deleting :
    get_claim sample_codec 1 deleting_db ≡ (ok (deleting_record sample_codec stored 7), deleting_db)
unfolding get_claim ◌>>=◌ fetch_claim_row find_row mark_claim_deleting create_claim
    validate_resources initial_claim insert_claim_row claim_checks claim_record_from_row to_u64
    to_u32 update_claim_rows count_rows update_rows default_retry insert_sorted new_condition
    set_condition set_existing sort_conditions update_condition create_new deleting_record mark_new
    new_claim_row parse_timestamp to_i64
deleting = refl

save_claim_status-stale_example :
    ((save_claim_status sample_codec attempted deleting_db).1 ≡ deleting_db)
    × ((save_claim_status sample_codec attempted deleting_db).0 ≢ ok true)
unfolding initial_claim deleting_record
save_claim_status-stale_example =
    save_claim_status-stale sample_codec sample_codec-IsFaithful attempted
      (deleting_record sample_codec stored 7) deleting_db deleting_db-IsConsistent deleting
      (λ e. cc e)

finalize_claim_lem_example :
    ((find_row (claim_has_id (sample_codec.uuid_to_string 1)) one_claim.host_claims ≡ none)
      × (finalize_claim sample_codec 1 one_claim
          ≡ (err (claim_not_found sample_codec 1), one_claim)))
    ⊎ (((finalize_claim sample_codec 1 one_claim).0 ≡ ok tt)
        × (find_row
              (claim_has_id (sample_codec.uuid_to_string 1))
              (finalize_claim sample_codec 1 one_claim).1.host_claims
            ≡ none)
        × (find_row
              (host_has_claim (sample_codec.uuid_to_string 1))
              (finalize_claim sample_codec 1 one_claim).1.hosts
            ≡ none)
        × (fetch_claim_row "other" (finalize_claim sample_codec 1 one_claim).1
            ≡ fetch_claim_row "other" one_claim))
finalize_claim_lem_example = finalize_claim_lem sample_codec 1 "other" one_claim refl

validate_resources_lem_example :
    (IsValid small.resources × (validate_resources small.resources ≡ ok tt))
    ⊎ ((IsValid small.resources → ⊥)
        × ((m : String) × (validate_resources small.resources ≡ err (AppError.invalid_argument m))))
validate_resources_lem_example = validate_resources_lem small.resources
