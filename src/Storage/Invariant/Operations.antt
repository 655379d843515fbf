-- ===== src/Storage/Invariant/Operations.antt =====
-- Every operation of `Storage` on claims keeps a property of the database that its statements keep.
use mc_control_plane.Base.{Option, none, some, refl, map_err-eq-ok, Bool-cases, inl, inr, ◌==◌}
use mc_control_plane.Protocol.{HostClaimId, HostClaimSpec, Timestamp}
use mc_control_plane.AppErrors.{AppError}
use mc_control_plane.Codec.{Codec}
use mc_control_plane.Domain.{HostClaimRecord}
use mc_control_plane.Storage.Rows.{JoinedRow}
use mc_control_plane.Storage.Tables.{Db, fetch_claim_row, delete_claim_row}
use mc_control_plane.Storage.Claims.{
  create_claim, get_claim, list_claims, mark_claim_deleting, save_claim_status, saved_columns,
  finalize_claim, create_existing, create_new, create_found,
}
use mc_control_plane.Storage.Invariant.Updates.{IsStatusUpdate-IsClaimUpdate}
use mc_control_plane.Storage.Invariant.Transactions.{
  Commits, Commits-bind, Commits-if, Commits-ok, Commits-err, Keeps, transaction-Keeps,
}
use mc_control_plane.Storage.Invariant.Interface.{IsInvariant, Changes}
use mc_control_plane.Storage.Invariant.Promises.{new_claim_row-IsNewClaim}

module _ (c : Codec) {Allowed : HostClaimId → Type 0} {Inv : Db c → Type 0}
    (k : IsInvariant Allowed Inv) where
  open c use {uuid_to_string, timestamp_to_string}

  create_found-Commits :
      (id : HostClaimId) (spec : HostClaimSpec) (now : Timestamp) (row : Option (JoinedRow c))
      (db : Db c)
      → Inv db
      → Commits Inv (create_found c id spec now row db)
  unfolding create_existing create_new
  create_found-Commits id spec now (some row) db v =
      Commits-bind _ _ λ _ _. Commits-if _ _ _ (Commits-ok _ db v) (Commits-err _)
  create_found-Commits id spec now none db v = Commits-bind _ _ λ row made.
      Commits-bind _ _ λ db' inserted. Commits-ok _ db' (
        k.insert_claim row db db' (new_claim_row-IsNewClaim c id spec now row (made))
          (map_err-eq-ok AppError.internal _ inserted) v)

  pub create_claim-Keeps :
      (id : HostClaimId) (spec : HostClaimSpec) (now : Timestamp)
      → Keeps Inv (create_claim c id spec now)
  unfolding create_claim
  create_claim-Keeps id spec now = transaction-Keeps _ λ db v.
      Commits-bind _ _
        λ _ _. create_found-Commits id spec now (fetch_claim_row (uuid_to_string id) db) db v

  pub get_claim-Keeps : (id : HostClaimId) → Keeps Inv (get_claim c id)
  unfolding get_claim
  get_claim-Keeps id =
      transaction-Keeps _ λ db v. Commits-bind _ _ λ _ _. Commits-bind _ _ λ _ _. Commits-ok _ db v

  pub list_claims-Keeps : Keeps Inv (list_claims c)
  unfolding list_claims
  list_claims-Keeps = transaction-Keeps _ λ db v. Commits-bind _ _ λ _ _. Commits-ok _ db v

  pub mark_claim_deleting-Keeps :
      (id : HostClaimId) (now : Timestamp) → Allowed id → Keeps Inv (mark_claim_deleting c id now)
  unfolding mark_claim_deleting
  mark_claim_deleting-Keeps id now allowed = transaction-Keeps _ λ db v.
      Commits-bind _ _ λ row fetched. Commits-bind _ _ λ found read.
        Commits-if _ _ _
          (Commits-bind _ _ λ _ stored. Commits-bind _ _ λ _ _.
            Commits-if _ _ _
              (Commits-ok _ _ (
                k.update_claims _ _ db
                  (IsStatusUpdate-IsClaimUpdate _ _ 0 "observed_generation" _ stored (record {
                    same_id = λ _. refl;
                    same_generation = λ _. refl;
                    same_vcpus = λ _. refl;
                    same_memory = λ _. refl;
                    same_storage = λ _. refl;
                    observed = λ _. refl;
                    attempted = λ _. refl;
                  }))
                  (Changes.deletion id allowed (λ _. refl) (λ _. refl)) v))
              (Commits-err _))
          (Commits-ok _ db v)

  pub save_claim_status-Keeps : (saved : HostClaimRecord) → Keeps Inv (save_claim_status c saved)
  unfolding save_claim_status saved_columns
  save_claim_status-Keeps saved = transaction-Keeps _ λ db v. Commits-bind _ _ λ _ stored.
      Commits-bind _ _ λ _ _. Commits-ok _ _ (
        k.update_claims _ _ db
          (IsStatusUpdate-IsClaimUpdate _ _ saved.retry.attempt "observed_generation" _ stored
            (record {
              same_id = λ _. refl;
              same_generation = λ _. refl;
              same_vcpus = λ _. refl;
              same_memory = λ _. refl;
              same_storage = λ _. refl;
              observed = λ _. refl;
              attempted = λ _. refl;
            }))
          (Changes.status λ _. refl) v)

module _ (c : Codec) (Inv : Db c → Type 0) where
  open c use {uuid_to_string}

  -- A claim may be removed where the deletion of its row keeps the property.
  pub finalize_claim_kept :
      (id : HostClaimId) (db : Db c)
      → Inv (delete_claim_row (uuid_to_string id) db).1
      → Inv db
      → Inv (finalize_claim c id db).1
  unfolding finalize_claim
  finalize_claim_kept id db removed v =
      elim (Bool-cases ((delete_claim_row (uuid_to_string id) db).0 == 0)) [
        | inl none_there ↦ rw none_there v
        | inr one_there ↦ rw one_there removed
      ]
