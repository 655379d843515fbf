-- ===== src/Storage/Invariant/HostOperations.antt =====
-- Every operation of `Storage` on Hosts keeps a property of the database that its statements keep.
use mc_control_plane.Base.{
  ℕ, String, Option, none, some, ◌≡◌, refl, arith, ok, ◌>>=◌, map_err-eq-ok,
}
use mc_control_plane.Protocol.{
  HostPhase, HostClaimId, HostId, HostResources, Timestamp, Host, HostClaim,
}
use mc_control_plane.AppErrors.{AppError}
use mc_control_plane.Codec.{Codec}
use mc_control_plane.Domain.{HostClaimRecord, HostRecord, initial_host}
use mc_control_plane.Storage.Rows.{host_phase_to_db, HostRow}
use mc_control_plane.Storage.Tables.{Db, fetch_host_for_claim_row}
use mc_control_plane.Storage.Hosts.{get_host, list_hosts, save_host, host_columns}
use mc_control_plane.Storage.Hosts.Ensure.{
  ensure_host, new_host_row, bound_claim, save_bound_claim, bind_inserted, read_host, assign_new,
  assign,
}
use mc_control_plane.Storage.Invariant.Updates.{
  IsStatusUpdate-IsClaimUpdate, host_columns-IsHostUpdate, host_phase_from_db-host_phase_to_db,
}
use mc_control_plane.Storage.Invariant.Transactions.{
  Commits, Commits-bind, Commits-if, Commits-ok, Commits-err, Returns, Returns-bind, Returns-if,
  Returns-ok, Returns-err, Keeps, transaction-Keeps,
}
use mc_control_plane.Storage.Invariant.Interface.{IsInvariant, PhaseKnown, Changes}

module _ (c : Codec) {Allowed : HostClaimId → Type 0} {Inv : Db c → Type 0}
    (k : IsInvariant Allowed Inv) where
  open c use {uuid_to_string, timestamp_to_string}

  new_host_row-pending :
      (host : Host) (plan : String) (row : HostRow c)
      → new_host_row c host plan ≡ ok row
      → (row.provider_resource_id ≡ none) × (row.phase ≡ "pending")
  unfolding new_host_row ◌>>=◌
  new_host_row-pending host plan row e = ground arith

  new_host_row-PhaseKnown :
      (host : Host) (plan : String) (row : HostRow c)
      → new_host_row c host plan ≡ ok row
      → PhaseKnown row
  unfolding host_phase_to_db
  new_host_row-PhaseKnown host plan row e = (
    HostPhase.pending,
    rw (new_host_row-pending host plan row e).1
        (host_phase_from_db-host_phase_to_db HostPhase.pending),
  )

  save_bound_claim-Returns :
      (id : HostClaimId) (claim : HostClaim) (db : Db c)
      → Inv db
      → Returns Inv (save_bound_claim c id claim db)
  unfolding save_bound_claim
  save_bound_claim-Returns id claim db v = Returns-bind _ _ λ _ stored. Returns-bind _ _ λ _ _.
      Returns-if _ _ _
        (Returns-ok (
          k.update_claims _ _ db
            (IsStatusUpdate-IsClaimUpdate _ _ 0 "observed_generation" _ stored (record {
              same_id = λ _. refl;
              same_generation = λ _. refl;
              same_vcpus = λ _. refl;
              same_memory = λ _. refl;
              same_storage = λ _. refl;
              observed = λ _. refl;
              attempted = λ _. refl;
            }))
            (Changes.status λ _. refl) v))
        (Returns-err _)

  bind_inserted-Returns :
      (id : HostClaimId) (claim : HostClaim) (inserted : ℕ × Db c)
      → Inv inserted.1
      → Returns Inv (bind_inserted c id claim inserted)
  unfolding bind_inserted
  bind_inserted-Returns id claim (affected, db) v =
      Returns-if _ _ _ (save_bound_claim-Returns id claim db v) (Returns-ok v)

  read_host-Commits :
      (id : HostClaimId) (plan : String) (resources : HostResources) (row : Option (HostRow c))
      (db : Db c)
      → Inv db
      → Commits Inv (read_host c id plan resources row db)
  unfolding read_host
  read_host-Commits id plan resources row db v =
      Commits-bind _ _ λ _ _. Commits-bind _ _ λ _ _. Commits-bind _ _ λ _ _. Commits-ok _ db v

  assign-Commits :
      (claim : HostClaimRecord) (id : HostClaimId) (plan : String) (resources : HostResources)
      (fresh : HostId) (now : Timestamp) (row : Option (HostRow c)) (db : Db c)
      → Inv db
      → Commits Inv (assign c claim id plan resources fresh now row db)
  unfolding assign_new initial_host
  assign-Commits claim id plan resources fresh now (some row) db v =
      read_host-Commits id plan resources (some row) db v
  assign-Commits claim id plan resources fresh now none db v = Commits-bind _ _ λ row made.
      Commits-bind _ _ λ inserted done. Commits-bind _ _ λ db' bound.
        read_host-Commits id plan resources _ db' (
          (bind_inserted-Returns id (bound_claim c claim.resource fresh now) inserted (
              k.insert_host row db inserted
                (new_host_row-pending (initial_host fresh id resources now) plan row made).0
                (new_host_row-PhaseKnown (initial_host fresh id resources now) plan row made)
                (map_err-eq-ok AppError.internal _ done) v)).holds
            db' bound)

  pub ensure_host-Keeps :
      (id : HostClaimId) (plan : String) (resources : HostResources) (fresh : HostId)
      (now : Timestamp)
      → Keeps Inv (ensure_host c id plan resources fresh now)
  unfolding ensure_host
  ensure_host-Keeps id plan resources fresh now = transaction-Keeps _ λ db v.
      Commits-bind _ _ λ _ _. Commits-bind _ _ λ _ _. Commits-bind _ _ λ claim _.
        Commits-if _ _ _ (Commits-err _) (
          assign-Commits claim id plan resources fresh now
            (fetch_host_for_claim_row (uuid_to_string id) db) db v)

  pub get_host-Keeps : (id : HostId) → Keeps Inv (get_host c id)
  unfolding get_host
  get_host-Keeps id =
      transaction-Keeps _ λ db v. Commits-bind _ _ λ _ _. Commits-bind _ _ λ _ _. Commits-ok _ db v

  pub list_hosts-Keeps : Keeps Inv (list_hosts c)
  unfolding list_hosts
  list_hosts-Keeps = transaction-Keeps _ λ db v. Commits-bind _ _ λ _ _. Commits-ok _ db v

  pub save_host-Keeps : (saved : HostRecord) → Keeps Inv (save_host c saved)
  unfolding save_host
  save_host-Keeps saved = transaction-Keeps _ λ db v. Commits-bind _ _ λ json _.
      Commits-bind _ _ λ result updated. Commits-if _ _ _ (Commits-err _) (
        Commits-ok _ _ (
          k.update_host (uuid_to_string saved.resource.id)
            saved.resource.status.provider_resource_id (host_columns c saved json) db result
            (host_columns-IsHostUpdate saved json) (map_err-eq-ok AppError.internal _ updated) v))
