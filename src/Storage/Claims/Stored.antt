-- ===== src/Storage/Claims/Stored.antt =====
-- `create_claim` and `get_claim` of storage.rs: what is stored is read back.
use mc_control_plane.Base.{
  bind-eq-ok, Bool-cases, ◌<◌, pos, String, eq_iff, eq_refl, str_eq, none, some, is_some, true,
  false, List, [], ◌∷◌, ◌≡◌, refl, sym, ap, ◌∙◌, subst, arith, ok, err, ◌>>=◌, map_err-eq-ok,
  Result-cases, inl, inr, find_row,
}
use mc_control_plane.Base.Table.Keys.{find_row-append}
use mc_control_plane.Protocol.{HostClaimId, HostClaimSpec, HostClaim, Timestamp, spec_eq}
use mc_control_plane.AppErrors.{AppError}
use mc_control_plane.Codec.{Codec, IsFaithful}
use mc_control_plane.Domain.{initial_claim, default_retry}
use mc_control_plane.Storage.Rows.{HostRow, ClaimRow, to_i64, to_u64, claim_record_from_row}
use mc_control_plane.Storage.Tables.{
  Db, claim_has_id, host_has_claim, fetch_claim_row, insert_claim_row,
}
use mc_control_plane.Storage.Commit.{committed-eq-ok}
use mc_control_plane.Storage.Invariant.Consistent.{IsConsistent, insert_claim_row_ok}
use mc_control_plane.Storage.Invariant.Owned.{Owned}
use mc_control_plane.Storage.Claims.Reading.{
  read_uuid-lem, read_conditions-lem, parse_timestamp-lem, to_u32-lem,
}
use mc_control_plane.Storage.Claims.{
  validate_resources, new_claim_row, create_new, create_existing, create_found, create_claim,
  get_claim,
}

module _ (c : Codec) where
  open c use {uuid_to_string, timestamp_to_string, conditions_to_json}

  -- The row that an accepted claim is stored as.
  stored_row : HostClaim → c.Json → ClaimRow c
  stored_row claim json = record {
    id = uuid_to_string claim.id;
    generation = pos claim.generation;
    created_at = timestamp_to_string claim.created_at;
    deletion_timestamp = none;
    vcpus = pos claim.spec.resources.vcpus;
    memory_bytes = pos claim.spec.resources.memory_bytes;
    storage_bytes = pos claim.spec.resources.storage_bytes;
    observed_generation = pos claim.status.observed_generation;
    conditions_json = json;
    retry_attempt = pos 0;
    next_reconcile_at_unix_ms = none;
    last_error_kind = none;
    last_error_message = none;
  }

  new_claim_row-eq-ok :
      (claim : HostClaim) (row : ClaimRow c)
      → new_claim_row c claim ≡ ok row
      → (json : c.Json) × (conditions_to_json claim.status.conditions ≡ ok json)
        × (row ≡ stored_row claim json)
  unfolding new_claim_row ◌>>=◌ to_i64 stored_row
  new_claim_row-eq-ok claim row e =
      elim (Result-cases (conditions_to_json claim.status.conditions)) [
        | inl (json, written) ↦ (json, written, ground (arith, written))
        | inr (error, failed) ↦ absurd (ground (arith, failed))
      ]

  stored_row-read :
      IsFaithful c
      → (claim : HostClaim) (json : c.Json) → claim.deletion_timestamp ≡ none
      → claim.status.host_id ≡ none
      → claim.spec.resources.vcpus < 4294967296
      → conditions_to_json claim.status.conditions ≡ ok json
      → claim_record_from_row c (record { claim = stored_row claim json; host_id = none })
        ≡ ok (record { resource = claim; retry = default_retry })
  unfolding claim_record_from_row stored_row ◌>>=◌ to_u64 default_retry
  stored_row-read f claim json live unbound small written = rw (
    read_uuid-lem c f claim.id,
    read_conditions-lem c f claim.status.conditions json written,
    parse_timestamp-lem c f claim.created_at,
    to_u32-lem c claim.spec.resources.vcpus "vcpus" small,
    to_u32-lem c 0 "retry_attempt" (omega arith),
    live,
    unbound,
  )

  -- A Host whose claim is not there is not there either.
  no_host :
      (id : String) (claims : List (ClaimRow c)) (hosts : List (HostRow c))
      → Owned claims hosts
      → find_row (claim_has_id id) claims ≡ none
      → find_row (host_has_claim id) hosts ≡ none
  unfolding find_row
  no_host id claims [] o e = refl
  no_host id claims (h ∷ hs) o e = elim (Bool-cases (str_eq h.claim_id id)) [
    | inl same ↦ absurd (
        cc (
          subst (λ k. is_some (find_row (claim_has_id k) claims) ≡ true)
              ((eq_iff h.claim_id id).0 same) o.0,
          ap is_some e,
        ))
    | inr other ↦ rw other (no_host id claims hs o.1 e)
  ]

  -- What a creation of a new claim does.
  record Created (claim : HostClaim) (db db' : Db c) : Type 0 where
    json : c.Json
    written : conditions_to_json claim.status.conditions ≡ ok json
    inserted : insert_claim_row (stored_row claim json) db ≡ ok db'

  create_new-eq-ok :
      (id : HostClaimId) (spec : HostClaimSpec) (now : Timestamp) (db db' : Db c)
      (claim : HostClaim)
      → create_new c id spec now db ≡ ok (claim, db')
      → (claim ≡ initial_claim id spec now) × Created (initial_claim id spec now) db db'
  unfolding create_new
  create_new-eq-ok id spec now db db' claim e =
      let (row, made, rest) = bind-eq-ok _ _ e in
      let (stored, inserted, last) = bind-eq-ok _ _ rest in
      let (json, written, same) = new_claim_row-eq-ok (initial_claim id spec now) row made in
      (
        cc last,
        record {
          json = json;
          written = written;
          inserted = cc (map_err-eq-ok AppError.internal _ inserted, same, last);
        },
      )

  create_claim-new :
      (id : HostClaimId) (spec : HostClaimSpec) (now : Timestamp) (db db' : Db c)
      (claim : HostClaim)
      → fetch_claim_row (uuid_to_string id) db ≡ none
      → create_claim c id spec now db ≡ (ok claim, db')
      → (validate_resources spec.resources ≡ ok tt)
        × (create_new c id spec now db ≡ ok (claim, db'))
  unfolding create_claim
  create_claim-new id spec now db db' claim new e =
      let (_, valid, rest) = bind-eq-ok _ _ (committed-eq-ok db db' _ claim e) in
      (valid, ap (λ row. create_found c id spec now row db) (sym new) ∙ rest)

  fetch_claim_row-none :
      (id : String) (db : Db c)
      → find_row (claim_has_id id) db.host_claims ≡ none
      → fetch_claim_row id db ≡ none
  unfolding fetch_claim_row
  fetch_claim_row-none id db e = rw (e, fetch_claim_row)

  -- The row of a created claim is found, with no Host.
  fetch_claim_row-Created :
      (claim : HostClaim) (db db' : Db c) (made : Created claim db db')
      → IsConsistent db
      → fetch_claim_row (uuid_to_string claim.id) db'
        ≡ some (record { claim = stored_row claim made.json; host_id = none })
  unfolding fetch_claim_row stored_row
  fetch_claim_row-Created claim db db' made v =
      let (new, same) = insert_claim_row_ok (stored_row claim made.json) db db' made.inserted in
      rw (
        same,
        fetch_claim_row,
        find_row-append (claim_has_id (uuid_to_string claim.id)) db.host_claims
            (stored_row claim made.json),
        new,
        eq_refl (uuid_to_string claim.id),
        ap (λ (d : Db c). d.hosts) same,
        no_host (uuid_to_string claim.id) db.host_claims db.hosts v.owned new,
      )

spec_eq_refl : (spec : HostClaimSpec) → spec_eq spec spec ≡ true
spec_eq_refl spec = ground arith

module _ (c : Codec) where
  open c use {uuid_to_string}

  -- With texts that are read back, a new claim on at most 2^32-1 CPUs that is created in a consistent
  -- database is the initial claim; `get_claim` then reads it with the default retry state; creating
  -- it again with the same spec, at whatever time, answers it again; creating it with another valid
  -- spec is a conflict; and neither changes the database.
  pub create_claim_lem :
      IsFaithful c
      → (id : HostClaimId) (spec other : HostClaimSpec) (now later : Timestamp) (db db' : Db c)
        (claim : HostClaim)
      → IsConsistent db
      → find_row (claim_has_id (uuid_to_string id)) db.host_claims ≡ none
      → spec.resources.vcpus < 4294967296
      → create_claim c id spec now db ≡ (ok claim, db')
      → validate_resources other.resources ≡ ok tt
      → spec_eq spec other ≡ false
      → (claim ≡ initial_claim id spec now)
        × (get_claim c id db' ≡ (ok (record { resource = claim; retry = default_retry }), db'))
        × (create_claim c id spec later db' ≡ (ok claim, db'))
        × (create_claim c id other later db' ≡ (
          err (
              AppError.conflict "HostClaim"
                (uuid_to_string id)
                "the existing claim has a different spec"),
          db',
        ))
  unfolding create_claim get_claim create_existing ◌>>=◌ initial_claim
  create_claim_lem f id spec other now later db db' claim v new small e other_valid differs =
      let (valid, done) =
        create_claim-new c id spec now db db' claim
          (fetch_claim_row-none c (uuid_to_string id) db new) e in
      let (initial, made) = create_new-eq-ok c id spec now db db' claim done in
      let found = fetch_claim_row-Created c (initial_claim id spec now) db db' made v in
      let parsed =
        stored_row-read c f (initial_claim id spec now) made.json refl refl small made.written in
      (
        initial,
        rw (initial, found, parsed),
        rw (initial, found, parsed, valid, spec_eq_refl spec),
        rw (found, parsed, other_valid, differs),
      )
