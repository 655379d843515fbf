-- ===== src/Storage/Invariant/Interface.antt =====
-- What a property of the database needs of the SQL statements of storage.rs, so that every operation
-- keeps it. The statements change rows by functions of which the operations promise what the
-- records below say.
use mc_control_plane.Base.{ℕ, Bool, String, Option, none, is_some, true, ◌≡◌, ok}
use mc_control_plane.Codec.{Codec}
use mc_control_plane.Protocol.{HostClaimId, HostPhase}
use mc_control_plane.Storage.Rows.{ClaimRow, HostRow, host_phase_from_db}
use mc_control_plane.Storage.Tables.{
  Db, claim_has_id, claim_checks, host_checks, insert_claim_row, insert_host_row, update_claim_rows,
  update_host_row, delete_claim_row,
}
use mc_control_plane.Storage.Terms.{promise, assignment}

module _ {c : Codec} where
  -- The phase of a row is one that the CHECK clause of hosts allows.
  abbrev pub PhaseKnown : HostRow c → Type 0
  PhaseKnown h = (p : HostPhase) × (host_phase_from_db h.phase ≡ ok p)

  -- The row of a claim that is accepted.
  pub record IsNewClaim (row : ClaimRow c) : Type 0 where
    pub written : (id : HostClaimId) × (row.id ≡ c.uuid_to_string id)

  -- An update leaves what the owners of claims decide as it is, or it requests the deletion of a claim
  -- of which that may be asked.
  pub data Changes (Allowed : HostClaimId → Type 0) (p : ClaimRow c → Bool)
      (f : ClaimRow c → ClaimRow c) : Type 0 where
    status : ((r : ClaimRow c) → promise (f r) ≡ promise r) → Changes Allowed p f
    deletion :
        (id : HostClaimId)
        → Allowed id
        → ((r : ClaimRow c) → p r ≡ claim_has_id (c.uuid_to_string id) r)
        → ((r : ClaimRow c) → is_some (f r).deletion_timestamp ≡ true)
        → Changes Allowed p f

  pub record IsClaimUpdate (f : ClaimRow c → ClaimRow c) : Type 0 where
    pub same_id : (r : ClaimRow c) → (f r).id ≡ r.id
    pub checked : (r : ClaimRow c) → claim_checks r ≡ true → claim_checks (f r) ≡ true

  pub record IsHostUpdate (written : Option String) (f : HostRow c → HostRow c) : Type 0 where
    pub same_id : (h : HostRow c) → (f h).id ≡ h.id
    pub same_claim : (h : HostRow c) → (f h).claim_id ≡ h.claim_id
    pub same_assignment : (h : HostRow c) → assignment (f h) ≡ assignment h
    pub recorded : (h : HostRow c) → (f h).provider_resource_id ≡ written
    pub checked : (h : HostRow c) → host_checks h ≡ true → host_checks (f h) ≡ true
    pub known : (h : HostRow c) → PhaseKnown (f h)

  -- Every statement but the deletion of a row keeps the property, if the deletion of a claim is
  -- requested just where that is allowed.
  pub record IsInvariant (Allowed : HostClaimId → Type 0) (Inv : Db c → Type 0) : Type 0 where
    pub insert_claim :
        (row : ClaimRow c) (db db' : Db c)
        → IsNewClaim row
        → insert_claim_row row db ≡ ok db'
        → Inv db
        → Inv db'
    pub insert_host :
        (row : HostRow c) (db : Db c) (r : ℕ × Db c)
        → row.provider_resource_id ≡ none
        → PhaseKnown row
        → insert_host_row row db ≡ ok r
        → Inv db
        → Inv r.1
    pub update_claims :
        (p : ClaimRow c → Bool) (f : ClaimRow c → ClaimRow c) (db : Db c)
        → IsClaimUpdate f
        → Changes Allowed p f
        → Inv db
        → Inv (update_claim_rows p f db).1
    pub update_host :
        (id : String) (written : Option String) (f : HostRow c → HostRow c) (db : Db c)
        (r : ℕ × Db c)
        → IsHostUpdate written f
        → update_host_row id written f db ≡ ok r
        → Inv db
        → Inv r.1

  -- So does the deletion.
  pub record IsKeptByDeletion (Inv : Db c → Type 0) : Type 0 where
    pub delete_claim : (id : String) (db : Db c) → Inv db → Inv (delete_claim_row id db).1
