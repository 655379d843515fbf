-- ===== src/Storage/Claims/Saved.antt =====
-- `save_claim_status` of storage.rs against what `get_claim` reads before and after it.
use mathlib.Core.Option
use mc_control_plane.Base.{
  ℕ, ◌<◌, ℤ, pos, String, eq_iff, Option, none, some, Bool, true, ◌&&◌, ◌==◌, ◌≡◌, refl, sym, ap,
  arith, ok, ◌>>=◌, ok_or-eq-ok, map_err-eq-ok, bind-ok-elim, Bool-cases, inl, inr, find_row,
}
use mc_control_plane.Base.Table.Keys.{count_rows-find_row}
use mc_control_plane.Base.Table.Rows.{find_row-refused}
use mc_control_plane.Protocol.{HostClaimId, Timestamp}
use mc_control_plane.AppErrors.{AppError, external_error}
use mc_control_plane.Codec.{Codec, IsFaithful}
use mc_control_plane.Domain.{HostClaimRecord}
use mc_control_plane.Storage.Rows.{ClaimRow, JoinedRow, claim_record_from_row}
use mc_control_plane.Storage.Tables.{Db, sql_is, claim_has_id, fetch_claim_row, update_claim_rows}
use mc_control_plane.Storage.Commit.{committed-eq-ok}
use mc_control_plane.Storage.Invariant.Consistent.{IsConsistent}
use mc_control_plane.Storage.Claims.{save_claim_status, saved_columns, get_claim}
use mc_control_plane.Storage.Claims.Reading.{
  status_columns, with_status, claim_record_from_row-Reads, claim_record_from_row-status,
  parse_timestamps-lem,
}
use mc_control_plane.Storage.Claims.Status.{
  to_i64-eq-ok, fetch_claim_row-updated, fetch_claim_row-eq-some,
}

pub sql_is-eq : (a b : Option String) → sql_is a b ≡ true → a ≡ b
unfolding sql_is
sql_is-eq none none h = refl
sql_is-eq none (some b) h = cc
sql_is-eq (some a) none h = cc
sql_is-eq (some a) (some b) h = ap some ((eq_iff a b).0 h)

module _ (c : Codec) where
  open c use {uuid_to_string, timestamp_to_string, conditions_to_json}

  -- The row that `get_claim` reads.
  pub get_claim-eq-ok :
      (id : HostClaimId) (db db' : Db c) (found : HostClaimRecord)
      → get_claim c id db ≡ (ok found, db')
      → (row : JoinedRow c) × (fetch_claim_row (uuid_to_string id) db ≡ some row)
        × (claim_record_from_row c row ≡ ok found)
  unfolding get_claim
  get_claim-eq-ok id db db' found e =
      bind-ok-elim _ _
        (λ row fetched. bind-ok-elim _ _ λ read parsed last. (
          row,
          ok_or-eq-ok (fetch_claim_row (uuid_to_string id) db) _ fetched,
          cc (map_err-eq-ok AppError.internal _ parsed, last),
        ))
        (committed-eq-ok db db' _ found e)

  -- The deletion timestamp that a row stores is the one it is read as.
  pub deletion_text :
      IsFaithful c
      → (row : JoinedRow c) (found : HostClaimRecord) (t : Option Timestamp)
      → claim_record_from_row c row ≡ ok found
      → row.claim.deletion_timestamp ≡ Option.map timestamp_to_string t
      → t ≡ found.resource.deletion_timestamp
  deletion_text f row found t parsed e =
      cc ((claim_record_from_row-Reads c row found parsed).deleted, parse_timestamps-lem c f t, e)

  -- The rows that `save_claim_status` updates.
  abbrev pub observed_row : HostClaimRecord → ClaimRow c → Bool
  observed_row saved row =
      claim_has_id (uuid_to_string saved.resource.id) row
      && sql_is row.deletion_timestamp
          (Option.map timestamp_to_string saved.resource.deletion_timestamp)

  -- What an answer that the status was stored tells.
  record Saving (saved : HostClaimRecord) (db db' : Db c) : Type 0 where
    generation : ℤ
    fits : generation ≡ pos saved.resource.status.observed_generation
    json : c.Json
    written : conditions_to_json saved.resource.status.conditions ≡ ok json
    affected :
        (update_claim_rows (observed_row saved) (saved_columns c saved generation json) db).0 ≡ 1
    updated :
        db' ≡ (update_claim_rows (observed_row saved) (saved_columns c saved generation json) db).1

  is_one : (n : ℕ) → (n == 1) ≡ true → n ≡ 1
  is_one n h = ground arith

  both : (a b : Bool) → (a && b) ≡ true → (a ≡ true) × (b ≡ true)
  both a b h = ground arith

  save_claim_status-eq-ok :
      (saved : HostClaimRecord) (db db' : Db c)
      → save_claim_status c saved db ≡ (ok true, db')
      → Saving saved db db'
  unfolding save_claim_status
  save_claim_status-eq-ok saved db db' e =
      bind-ok-elim _ _
        (λ i fits. bind-ok-elim _ _ λ json written last. record {
          generation = i;
          fits =
              to_i64-eq-ok c saved.resource.status.observed_generation "observed_generation" i fits;
          json = json;
          written = map_err-eq-ok external_error _ written;
          affected = is_one _ (cc last);
          updated = cc last;
        })
        (committed-eq-ok db db' _ true e)

  -- The row of the claim that the update changed has the observed deletion timestamp.
  affected-observed :
      (saved : HostClaimRecord) (update : ClaimRow c → ClaimRow c) (db : Db c) (row : ClaimRow c)
      → IsConsistent db
      → find_row (claim_has_id (uuid_to_string saved.resource.id)) db.host_claims ≡ some row
      → (update_claim_rows (observed_row saved) update db).0 ≡ 1
      → row.deletion_timestamp ≡ Option.map timestamp_to_string saved.resource.deletion_timestamp
  unfolding update_claim_rows
  affected-observed saved update db row v found one =
      elim (Bool-cases (
        sql_is row.deletion_timestamp
          (Option.map timestamp_to_string saved.resource.deletion_timestamp))) [
            | inl equal ↦ sql_is-eq _ _ equal
            | inr other ↦ absurd (
                omega (
                  arith,
                  one,
                  (count_rows-find_row (observed_row saved) db.host_claims).1 (
                      find_row-refused (λ (r : ClaimRow c). r.id) (uuid_to_string saved.resource.id)
                        (λ r.
                          sql_is r.deletion_timestamp
                            (Option.map timestamp_to_string saved.resource.deletion_timestamp))
                        db.host_claims row v.claim_ids found other),
                ))
          ]

  -- The status columns, written over a row whose deletion timestamp is the observed one.
  saved_columns-status :
      (saved : HostClaimRecord) (i : ℤ) (json : c.Json) (row : ClaimRow c)
      → i ≡ pos saved.resource.status.observed_generation
      → row.deletion_timestamp ≡ Option.map timestamp_to_string saved.resource.deletion_timestamp
      → saved_columns c saved i json row
        ≡ status_columns c saved.resource.deletion_timestamp
            saved.resource.status.observed_generation json saved.retry row
  unfolding saved_columns
  saved_columns-status saved i json row e h = rw (e, h)

  saved_columns-id :
      (saved : HostClaimRecord) (i : ℤ) (json : c.Json) (row : ClaimRow c)
      → (saved_columns c saved i json row).id ≡ row.id
  unfolding saved_columns
  saved_columns-id saved i json row = refl

  -- With texts that are read back, in a consistent database: once a status is stored, the claim had
  -- the deletion timestamp of the stored record, and `get_claim` reads the claim as it was before, but
  -- for the observed generation, the conditions and the retry state, which are the stored record's.
  pub save_claim_status-get_claim :
      IsFaithful c
      → (saved found : HostClaimRecord) (db db' : Db c) → IsConsistent db
      → get_claim c saved.resource.id db ≡ (ok found, db)
      → saved.retry.attempt < 4294967296
      → save_claim_status c saved db ≡ (ok true, db')
      → (saved.resource.deletion_timestamp ≡ found.resource.deletion_timestamp)
        × (get_claim c saved.resource.id db' ≡ (
          ok (
              with_status c found.resource.deletion_timestamp
                saved.resource.status.observed_generation saved.resource.status.conditions
                saved.retry found),
          db',
        ))
  unfolding get_claim ◌>>=◌
  save_claim_status-get_claim f saved found db db' v e small stored =
      let (row, fetched, parsed) = get_claim-eq-ok saved.resource.id db db found e in
      let s = save_claim_status-eq-ok saved db db' stored in
      let text =
        affected-observed saved (saved_columns c saved s.generation s.json) db row.claim v
          (fetch_claim_row-eq-some c (uuid_to_string saved.resource.id) db row fetched).0
          s.affected in
      let same = deletion_text f row found saved.resource.deletion_timestamp parsed text in
      let refetched =
        fetch_claim_row-updated c (uuid_to_string saved.resource.id) (observed_row saved)
          (saved_columns c saved s.generation s.json) db row v (λ r h. (both _ _ h).0)
          (λ r. saved_columns-id saved s.generation s.json r) (omega (arith, s.affected)) fetched in
      let reread =
        claim_record_from_row-status c f row found saved.resource.deletion_timestamp
          saved.resource.status.observed_generation saved.resource.status.conditions s.json
          saved.retry s.written small parsed in
      (
        same,
        rw (
          sym same,
          s.updated,
          refetched,
          saved_columns-status saved s.generation s.json row.claim s.fits text,
          reread,
        ),
      )
