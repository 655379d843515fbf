-- ===== src/Storage/Claims/Status.antt =====
-- `save_claim_status`, `mark_claim_deleting` and `finalize_claim` of storage.rs: what they change and
-- what they leave.
use mc_control_plane.Base.{
  ℕ, ◌<◌, ltb, ℤ, pos, String, eq_iff, eq_refl, str_eq, Option, none, some, Bool, true, false, ◌==◌,
  List, ◌≡◌, ◌⊎◌, refl, sym, ap, ◌∙◌, subst, arith, ok, err, Option-cases, inl, inr, find_row,
  delete_rows, count_rows,
}
use mc_control_plane.Base.Table.Keys.{
  count_rows-find_row, find_row-delete_self, find_row-delete_rows,
}
use mc_control_plane.Base.Table.Rows.{find_row-fits, find_row-updated}
use mc_control_plane.Protocol.{HostClaimId}
use mc_control_plane.Codec.{Codec}
use mc_control_plane.Storage.Rows.{ClaimRow, HostRow, JoinedRow, to_i64}
use mc_control_plane.Storage.Tables.{
  Db, claim_has_id, host_has_claim, fetch_claim_row, update_claim_rows, delete_claim_row,
}
use mc_control_plane.Storage.Invariant.Consistent.{IsConsistent}
use mc_control_plane.Storage.Claims.{claim_not_found, finalize_claim}

module _ (c : Codec) where
  open c use {uuid_to_string, timestamp_to_string, conditions_to_json}

  pub to_i64-eq-ok : (n : ℕ) (field : String) (i : ℤ) → to_i64 n field ≡ ok i → i ≡ pos n
  unfolding to_i64
  to_i64-eq-ok n field i e = ground arith

  pub host_of : List (HostRow c) → String → Option String
  host_of hosts id = elim (find_row (host_has_claim id) hosts) [ none ↦ none | some h ↦ some h.id ]

  pub fetch_claim_row-eq-some :
      (id : String) (db : Db c) (row : JoinedRow c)
      → fetch_claim_row id db ≡ some row
      → (find_row (claim_has_id id) db.host_claims ≡ some row.claim)
        × (row.host_id ≡ host_of db.hosts row.claim.id)
  unfolding fetch_claim_row host_of
  fetch_claim_row-eq-some id db row e =
      elim (Option-cases (find_row (claim_has_id id) db.host_claims)) [
        | inl missing ↦ absurd (ground (arith, missing))
        | inr (r, found) ↦ ground (arith, found)
      ]

  fetch_claim_row-missing :
      (id : String) (db : Db c)
      → find_row (claim_has_id id) db.host_claims ≡ none
      → fetch_claim_row id db ≡ none
  unfolding fetch_claim_row
  fetch_claim_row-missing id db e = rw (e, fetch_claim_row)

  fetch_claim_row-some :
      (id : String) (db : Db c) (r : ClaimRow c) (host_id : Option String)
      → find_row (claim_has_id id) db.host_claims ≡ some r
      → host_id ≡ host_of db.hosts r.id
      → fetch_claim_row id db ≡ some (record { claim = r; host_id = host_id })
  unfolding fetch_claim_row host_of
  fetch_claim_row-some id db r host_id e h = rw (e, fetch_claim_row, h)

  -- A claim is found after its row, and no other, is updated.
  pub fetch_claim_row-updated :
      (id : String) (p : ClaimRow c → Bool) (f : ClaimRow c → ClaimRow c) (db : Db c)
      (row : JoinedRow c)
      → IsConsistent db
      → ((r : ClaimRow c) → p r ≡ true → claim_has_id id r ≡ true)
      → ((r : ClaimRow c) → (f r).id ≡ r.id)
      → 0 < (update_claim_rows p f db).0
      → fetch_claim_row id db ≡ some row
      → fetch_claim_row id (update_claim_rows p f db).1 ≡ some (record row { claim = f row.claim })
  unfolding update_claim_rows
  fetch_claim_row-updated id p f db row v h same n e =
      let (found, host) = fetch_claim_row-eq-some id db row e in
      fetch_claim_row-some id (update_claim_rows p f db).1 (f row.claim) row.host_id
        (find_row-updated (λ (r : ClaimRow c). r.id) id p f db.host_claims row.claim v.claim_ids h
          same n found)
        (rw (same row.claim) host)

  counted :
      (id : String) (db : Db c) (r : ClaimRow c)
      → find_row (claim_has_id id) db.host_claims ≡ some r
      → (count_rows (claim_has_id id) db.host_claims == 0 ≡ false)
        × (ltb 0 (count_rows (claim_has_id id) db.host_claims) ≡ true)
  counted id db r found = ground (arith, count_rows-find_row (claim_has_id id) db.host_claims)

  not_other : (a b s : String) → str_eq a b ≡ false → str_eq s b ≡ true → str_eq s a ≡ false
  not_other a b s n e = ground (arith, eq_iff s b, eq_iff s a, eq_iff a b, eq_refl b)

  swapped : (s k id : String) → str_eq k id ≡ false → str_eq s k ≡ true → str_eq s id ≡ false
  swapped s k id n e = subst (λ x. str_eq x id ≡ false) (sym ((eq_iff s k).0 e)) n

  -- The deletion with its cascade, seen from another claim.
  fetch_claim_row-deleted :
      (id other : String) (db : Db c)
      → str_eq id other ≡ false
      → fetch_claim_row other (record {
        host_claims = delete_rows (claim_has_id id) db.host_claims;
        hosts = delete_rows (host_has_claim id) db.hosts;
      })
        ≡ fetch_claim_row other db
  unfolding host_of
  fetch_claim_row-deleted id other db n =
      elim (Option-cases (find_row (claim_has_id other) db.host_claims)) [
        | inl missing ↦
            fetch_claim_row-missing other _ (same_claim ∙ missing)
            ∙ sym (fetch_claim_row-missing other db missing)
        | inr (r, found) ↦
            fetch_claim_row-some other _ r (host_of db.hosts r.id) (same_claim ∙ found) (
              sym (
                ap (λ o. elim o [ none ↦ none | some h ↦ some h.id ])
                  (same_host r.id
                    (not_other id other r.id n (find_row-fits _ db.host_claims r found)))))
            ∙ sym (fetch_claim_row-some other db r (host_of db.hosts r.id) found refl)
      ]
    where
      same_claim :
          find_row (claim_has_id other) (delete_rows (claim_has_id id) db.host_claims)
          ≡ find_row (claim_has_id other) db.host_claims
      same_claim =
          find_row-delete_rows (claim_has_id other) (claim_has_id id) db.host_claims
            (λ r. not_other id other r.id n)

      same_host :
          (k : String)
          → str_eq k id ≡ false
          → find_row (host_has_claim k) (delete_rows (host_has_claim id) db.hosts)
            ≡ find_row (host_has_claim k) db.hosts
      same_host k e =
          find_row-delete_rows (host_has_claim k) (host_has_claim id) db.hosts
            (λ h. swapped h.claim_id k id e)

  -- A claim that is there is removed with its Hosts.
  pub finalize_claim-found :
      (id : HostClaimId) (db : Db c) (r : ClaimRow c)
      → find_row (claim_has_id (uuid_to_string id)) db.host_claims ≡ some r
      → ((finalize_claim c id db).0 ≡ ok tt)
        × (find_row (claim_has_id (uuid_to_string id)) (finalize_claim c id db).1.host_claims
            ≡ none)
        × (find_row (host_has_claim (uuid_to_string id)) (finalize_claim c id db).1.hosts ≡ none)
  unfolding finalize_claim delete_claim_row
  finalize_claim-found id db r found =
      let (some_row, positive) = counted (uuid_to_string id) db r found in
      rw (some_row, positive)
        (
          refl,
          find_row-delete_self (claim_has_id (uuid_to_string id)) db.host_claims,
          find_row-delete_self (host_has_claim (uuid_to_string id)) db.hosts,
        )

  -- `finalize_claim` succeeds just if the claim is there. The claim and its Hosts are gone then, and
  -- every other claim is found as before, with its Host; otherwise the claim is reported missing, and
  -- the database is as it was.
  pub finalize_claim_lem :
      (id : HostClaimId) (other : String) (db : Db c)
      → str_eq (uuid_to_string id) other ≡ false
      → ((find_row (claim_has_id (uuid_to_string id)) db.host_claims ≡ none)
          × (finalize_claim c id db ≡ (err (claim_not_found c id), db)))
        ⊎ (((finalize_claim c id db).0 ≡ ok tt)
            × (find_row (claim_has_id (uuid_to_string id)) (finalize_claim c id db).1.host_claims
                ≡ none)
            × (find_row (host_has_claim (uuid_to_string id)) (finalize_claim c id db).1.hosts
                ≡ none)
            × (fetch_claim_row other (finalize_claim c id db).1 ≡ fetch_claim_row other db))
  unfolding finalize_claim delete_claim_row
  finalize_claim_lem id other db different =
      elim (Option-cases (find_row (claim_has_id (uuid_to_string id)) db.host_claims)) [
        | inl missing ↦ inl (
          missing,
          rw ((count_rows-find_row (claim_has_id (uuid_to_string id)) db.host_claims).1 missing),
        )
        | inr (r, found) ↦
            let (some_row, positive) = counted (uuid_to_string id) db r found in
            let (fine, gone, unhosted) = finalize_claim-found id db r found in
            inr (
              fine,
              gone,
              unhosted,
              rw (some_row, positive)
                  (fetch_claim_row-deleted (uuid_to_string id) other db different),
            )
      ]
