-- ===== src/Storage/Invariant/Listed.antt =====
-- The claims that `list_claims` of storage.rs answers with a deletion timestamp are rows whose deletion
-- is requested.
use mc_control_plane.Base.{
  String, Option, none, some, is_some, true, List, [], ◌∷◌, map, ◌≡◌, refl, sym, subst, ap, ◌∙◌,
  arith, inl, inr, Result, ok, ◌>>=◌, traverse_list, traverse_option, filter_rows, bind-ok-elim,
  Result-cases,
}
use mc_control_plane.Base.Table.All.{All, All-concat, All-sort}
use mc_control_plane.Protocol.{HostClaimId, Timestamp}
use mc_control_plane.AppErrors.{AnyhowError}
use mc_control_plane.Codec.{Codec, IsFaithful}
use mc_control_plane.Domain.{HostClaimRecord}
use mc_control_plane.Storage.Rows.{
  ClaimRow, HostRow, JoinedRow, claim_record_from_row, parse_timestamp, read_uuid,
}
use mc_control_plane.Storage.Tables.{
  Db, join_claim, join_claims, select_claims, host_has_claim, delete_claim_row,
}
use mc_control_plane.Storage.Claims.{list_claims}
use mc_control_plane.Storage.Claims.Reading.{claim_record_from_row-Reads, read_uuid-lem}
use mc_control_plane.Storage.Terms.{Promise, Assignment}
use mc_control_plane.Storage.Invariant.Guarded.{Guarded, GuardedResult, IsDeletionGuard}
use mc_control_plane.Storage.Invariant.Demand.{
  RowMarked, RowMarked-IsRowsInvariant, IsRowsInvariant-IsInvariant, IsWritten, AllWritten,
}
use mc_control_plane.Storage.Invariant.Standing.{
  Standing, delete_claim_row-Standing, BothStanding, delete_claim_row-BothStanding,
}

module _ {c : Codec} where
  abbrev MarkedIn : String → Db c → Type 0
  MarkedIn id db = RowMarked id db.host_claims

  -- A row of a table of claims.
  abbrev Stands : List (ClaimRow c) → ClaimRow c → Type 0
  Stands rows r = IsWritten r × (is_some r.deletion_timestamp ≡ true → RowMarked r.id rows)

  Stands-all : (rows : List (ClaimRow c)) → All IsWritten rows → All (Stands rows) rows
  Stands-all [] w = tt
  Stands-all (r ∷ rows) w = ((w.0, λ e. inl (refl, e)), weaken rows (Stands-all rows w.1))
    where
      weaken : (ss : List (ClaimRow c)) → All (Stands rows) ss → All (Stands (r ∷ rows)) ss
      weaken [] a = tt
      weaken (s ∷ ss) a = ((a.0.0, λ e. inr (a.0.1 e)), weaken ss a.1)

  abbrev Joined : List (ClaimRow c) → JoinedRow c → Type 0
  Joined rows j = Stands rows j.claim

  module _ (rows : List (ClaimRow c)) where
    hosts-Joined :
        (row : ClaimRow c) (hs : List (HostRow c))
        → Stands rows row
        → All
            (Joined rows)
            (map (λ (x : HostRow c). record { claim = row; host_id = some x.id }) hs)
    hosts-Joined row [] s = tt
    hosts-Joined row (h ∷ hs) s = (s, hosts-Joined row hs s)

    join_claim-Joined :
        (row : ClaimRow c) (hs : List (HostRow c))
        → Stands rows row
        → All (Joined rows) (join_claim row hs)
    unfolding join_claim
    join_claim-Joined row [] s = (s, tt)
    join_claim-Joined row (h ∷ hs) s = (s, hosts-Joined row hs s)

    join_claims-Joined :
        (some_rows : List (ClaimRow c)) (hosts : List (HostRow c))
        → All (Stands rows) some_rows
        → All (Joined rows) (join_claims some_rows hosts)
    unfolding join_claims
    join_claims-Joined [] hosts a = tt
    join_claims-Joined (row ∷ rest) hosts a =
        All-concat (Joined rows) (join_claim row (filter_rows (host_has_claim row.id) hosts)) _
          (join_claim-Joined row _ a.0) (join_claims-Joined rest hosts a.1)

    module _ (f : IsFaithful c) where
      marked_read :
          (t : Option String) (o : Option Timestamp)
          → traverse_option (parse_timestamp c) t ≡ ok o
          → is_some o ≡ true
          → is_some t ≡ true
      marked_read (some t) o e h = refl
      marked_read none o e h = absurd (ground (arith, e, h))

      -- The identifier of a record is written as the row has it.
      read-marked :
          (j : JoinedRow c) (found : HostClaimRecord)
          → claim_record_from_row c j ≡ ok found
          → Joined rows j
          → is_some found.resource.deletion_timestamp ≡ true
          → RowMarked (c.uuid_to_string found.resource.id) rows
      read-marked j found e ((id, written), marked) h =
          let reads = claim_record_from_row-Reads c j found e in
          subst (λ i. RowMarked i rows)
            (written
              ∙ ap c.uuid_to_string (
                  same_id id found.resource.id (read_uuid c j.claim.id)
                    (ap (read_uuid c) written ∙ read_uuid-lem c f id) reads.id))
            (marked (
              marked_read j.claim.deletion_timestamp found.resource.deletion_timestamp reads.deleted
                h))
        where
          same_id :
              (a b : HostClaimId) (r : Result AnyhowError HostClaimId) → r ≡ ok a → r ≡ ok b → a ≡ b
          same_id a b r e e' = cc (e, e')

      all_read :
          (cs ds : List HostClaimRecord) (r : Result AnyhowError (List HostClaimRecord))
          → r ≡ ok cs
          → r ≡ ok ds
          → cs ≡ ds
      all_read cs ds r e e' = cc (e, e')

      read-Guarded :
          (js : List (JoinedRow c)) (db : Db c)
          → db.host_claims ≡ rows
          → All (Joined rows) js
          → (claims : List HostClaimRecord) → traverse_list (claim_record_from_row c) js ≡ ok claims
          → Guarded MarkedIn claims db
      unfolding ◌>>=◌
      read-Guarded [] db e a claims t =
          subst (λ cs. Guarded MarkedIn cs db) (all_read [] claims (ok []) refl t) tt
      read-Guarded (j ∷ js) db e a claims t =
          bind-ok-elim _ _
            (λ claim read. bind-ok-elim _ _ λ others rest last.
              subst (λ cs. Guarded MarkedIn cs db)
                (all_read (claim ∷ others) claims (ok (claim ∷ others)) refl last)
                (
                  (λ h.
                      subst (RowMarked (c.uuid_to_string claim.resource.id)) (sym e)
                        (read-marked j claim read a.0 h)),
                  read-Guarded js db e a.1 others rest,
                ))
            t

  -- What `list_claims` answers.
  list_claims-Guarded :
      IsFaithful c
      → (db : Db c) → AllWritten db.host_claims
      → GuardedResult MarkedIn (list_claims c db).0 (list_claims c db).1
  unfolding list_claims ◌>>=◌ select_claims
  list_claims-Guarded f db v =
      elim (Result-cases (traverse_list (claim_record_from_row c) (select_claims db))) [
        | inl (claims, read) ↦ rw read (
            read-Guarded db.host_claims f (select_claims db) db refl
              (All-sort _ _ _ (
                join_claims-Joined db.host_claims db.host_claims db.hosts
                  (Stands-all db.host_claims v)))
              claims read)
        | inr (e, failed) ↦ rw failed tt
      ]

  -- A row may be removed once its deletion is requested.
  marked-IsDeletionGuard :
      {Allowed : HostClaimId → Type 0} {Inv : Db c → Type 0}
      → IsFaithful c
      → ((db : Db c) → Inv db → AllWritten db.host_claims)
      → ((id : String) (db : Db c) → MarkedIn id db → Inv db → Inv (delete_claim_row id db).1)
      → IsDeletionGuard MarkedIn Allowed Inv
  marked-IsDeletionGuard f written removed = record {
    kept = λ id. IsRowsInvariant-IsInvariant (RowMarked id) (RowMarked-IsRowsInvariant id);
    listed = λ db v. list_claims-Guarded f db (written db v);
    delete_claim = removed;
  }

  pub Standing-IsDeletionGuard :
      IsFaithful c
      → {Allowed : HostClaimId → Type 0} (key : String) (shown : Promise)
      → shown.deletion_timestamp ≡ none
      → IsDeletionGuard MarkedIn Allowed (Standing {c = c} key shown)
  Standing-IsDeletionGuard f key shown live =
      marked-IsDeletionGuard f (λ db v. v.0) (delete_claim_row-Standing key shown live)

  pub BothStanding-IsDeletionGuard :
      IsFaithful c
      → {Allowed : HostClaimId → Type 0} (key : String) (shown : Promise) (assigned : Assignment)
      → shown.deletion_timestamp ≡ none
      → IsDeletionGuard MarkedIn Allowed (BothStanding {c = c} key shown assigned)
  BothStanding-IsDeletionGuard f key shown assigned live =
      marked-IsDeletionGuard f (λ db v. v.0.0)
        (delete_claim_row-BothStanding key shown assigned live)
