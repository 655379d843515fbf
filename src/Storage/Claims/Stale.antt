-- ===== src/Storage/Claims/Stale.antt =====
-- `save_claim_status` of storage.rs with a record that is older than a deletion request.
use mathlib.Core.Option
use mc_control_plane.Base.{
  none, some, true, false, ◌≡◌, ◌≢◌, refl, ok, ◌>>=◌, Result-cases, ◌⊎◌, Bool-cases, inl, inr,
  find_row,
}
use mc_control_plane.Base.Table.Keys.{update_rows-none, count_rows-find_row}
use mc_control_plane.Base.Table.Rows.{find_row-refused}
use mc_control_plane.Codec.{Codec, IsFaithful}
use mc_control_plane.Domain.{HostClaimRecord}
use mc_control_plane.Storage.Rows.{ClaimRow, JoinedRow, to_i64, claim_record_from_row}
use mc_control_plane.Storage.Tables.{Db, sql_is, fetch_claim_row, update_claim_rows}
use mc_control_plane.Storage.Invariant.Consistent.{IsConsistent}
use mc_control_plane.Storage.Claims.{save_claim_status, get_claim}
use mc_control_plane.Storage.Claims.Status.{fetch_claim_row-eq-some}
use mc_control_plane.Storage.Claims.Saved.{sql_is-eq, get_claim-eq-ok, deletion_text, observed_row}

module _ (c : Codec) where
  open c use {uuid_to_string, timestamp_to_string, conditions_to_json}

  IsStale : HostClaimRecord → Db c → Type 0
  IsStale saved db = find_row (observed_row c saved) db.host_claims ≡ none

  -- No row is updated when the deletion timestamps differ.
  IsStale-found :
      IsFaithful c
      → (saved found : HostClaimRecord) (db : Db c) (row : JoinedRow c) → IsConsistent db
      → fetch_claim_row (uuid_to_string saved.resource.id) db ≡ some row
      → claim_record_from_row c row ≡ ok found
      → saved.resource.deletion_timestamp ≢ found.resource.deletion_timestamp
      → IsStale saved db
  unfolding IsStale
  IsStale-found f saved found db row v fetched parsed differs =
      find_row-refused (λ (r : ClaimRow c). r.id) (uuid_to_string saved.resource.id)
        (λ r.
          sql_is r.deletion_timestamp
            (Option.map timestamp_to_string saved.resource.deletion_timestamp))
        db.host_claims row.claim v.claim_ids
        (fetch_claim_row-eq-some c (uuid_to_string saved.resource.id) db row fetched).0
        (refused (Bool-cases _))
    where
      refused :
          (sql_is row.claim.deletion_timestamp
                (Option.map timestamp_to_string saved.resource.deletion_timestamp)
              ≡ true)
            ⊎ (sql_is row.claim.deletion_timestamp
                  (Option.map timestamp_to_string saved.resource.deletion_timestamp)
                ≡ false)
          → sql_is row.claim.deletion_timestamp
              (Option.map timestamp_to_string saved.resource.deletion_timestamp)
            ≡ false
      refused (inl equal) = absurd (
          differs (
            deletion_text c f row found saved.resource.deletion_timestamp parsed
              (sql_is-eq _ _ equal)))
      refused (inr other) = other

  save_stale :
      (saved : HostClaimRecord) (db : Db c)
      → IsStale saved db
      → ((save_claim_status c saved db).1 ≡ db) × ((save_claim_status c saved db).0 ≢ ok true)
  unfolding save_claim_status update_claim_rows ◌>>=◌ IsStale
  save_stale saved db stale =
      elim (Result-cases (to_i64 saved.resource.status.observed_generation "observed_generation")) [
        | inr (e, failed) ↦ rw failed (refl, λ same. cc same)
        | inl (i, fits) ↦
            elim (Result-cases (conditions_to_json saved.resource.status.conditions)) [
              | inr (e, failed) ↦ rw (fits, failed) (refl, λ same. cc same)
              | inl (json, written) ↦
                  rw
                    (
                      fits,
                      written,
                      (count_rows-find_row (observed_row c saved) db.host_claims).1 stale,
                      update_rows-none (observed_row c saved) _ db.host_claims stale,
                    )
                    (refl, λ same. cc same)
            ]
      ]

  -- A record that was read before the deletion was requested, or before another request, stores
  -- nothing: the database stays, and the answer is not that the status was stored.
  pub save_claim_status-stale :
      IsFaithful c
      → (saved found : HostClaimRecord) (db : Db c) → IsConsistent db
      → get_claim c saved.resource.id db ≡ (ok found, db)
      → saved.resource.deletion_timestamp ≢ found.resource.deletion_timestamp
      → ((save_claim_status c saved db).1 ≡ db) × ((save_claim_status c saved db).0 ≢ ok true)
  save_claim_status-stale f saved found db v e differs =
      let (row, fetched, parsed) = get_claim-eq-ok c saved.resource.id db db found e in
      save_stale saved db (IsStale-found f saved found db row v fetched parsed differs)
