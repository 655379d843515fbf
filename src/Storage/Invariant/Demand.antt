-- ===== src/Storage/Invariant/Demand.antt =====
-- Properties of the claims' rows of storage.rs that every statement keeps but the deletion of a row: a
-- deletion that was requested stays requested, and identifiers are texts that were written.
use mc_control_plane.Base.{
  ℕ, String, none, is_some, true, Bool, List, [], ◌∷◌, ◌++◌, ◌≡◌, sym, ap, subst, ◌∙◌, inl, inr,
  find_row, update_rows,
}
use mc_control_plane.Base.Table.All.{All, All-append, All-update, Any, Any-concat, Any-update}
use mc_control_plane.Protocol.{HostClaimId}
use mc_control_plane.Codec.{Codec}
use mc_control_plane.Storage.Rows.{ClaimRow}
use mc_control_plane.Storage.Tables.{Db, claim_has_id, update_claim_rows}
use mc_control_plane.Storage.Terms.{Promise}
use mc_control_plane.Storage.Invariant.Interface.{IsNewClaim, Changes, IsClaimUpdate, IsInvariant}
use mc_control_plane.Storage.Invariant.Consistent.{
  insert_claim_row_ok, insert_host_row_ok, update_host_row_ok,
}

module _ {c : Codec} where
  -- What a property of the claims' rows needs of the statements.
  pub record IsRowsInvariant (Allowed : HostClaimId → Type 0) (Q : List (ClaimRow c) → Type 0)
      : Type 0 where
    pub append :
        (row : ClaimRow c) (rows : List (ClaimRow c))
        → IsNewClaim row
        → find_row (claim_has_id row.id) rows ≡ none
        → Q rows
        → Q (rows ++ row ∷ [])
    pub update :
        (p : ClaimRow c → Bool) (f : ClaimRow c → ClaimRow c) (db : Db c)
        → IsClaimUpdate f
        → Changes Allowed p f
        → Q db.host_claims
        → Q (update_rows p f db.host_claims)

  pub IsRowsInvariant-IsInvariant :
      {Allowed : HostClaimId → Type 0} (Q : List (ClaimRow c) → Type 0)
      → IsRowsInvariant Allowed Q
      → IsInvariant Allowed (λ db. Q db.host_claims)
  unfolding update_claim_rows
  IsRowsInvariant-IsInvariant Q k = record {
    insert_claim = λ row db db' n e v.
        let (new, same) = insert_claim_row_ok row db db' e in
        subst (λ (s : Db c). Q s.host_claims) (sym same) (k.append row db.host_claims n new v);
    insert_host = λ row db r _ _ e v. elim (insert_host_row_ok row db r e) [
      | inl same ↦ subst (λ (s : ℕ × Db c). Q s.1.host_claims) (sym same) v
      | inr (_, _, _, same) ↦ subst (λ (s : ℕ × Db c). Q s.1.host_claims) (sym same) v
    ];
    update_claims = λ p f db u s v. k.update p f db u s v;
    update_host = λ id written f db r u e v.
        subst (λ (s : Db c). Q s.host_claims) (sym (update_host_row_ok id written f db r e).0) v;
  }

  -- A claim with that id has its deletion requested.
  abbrev pub RowMarked : String → List (ClaimRow c) → Type 0
  RowMarked id = Any λ row. (row.id ≡ id) × (is_some row.deletion_timestamp ≡ true)

  pub RowMarked-IsRowsInvariant :
      {Allowed : HostClaimId → Type 0} (id : String) → IsRowsInvariant Allowed (RowMarked id)
  RowMarked-IsRowsInvariant id = record {
    append = λ row rows n new v. Any-concat _ rows _ v;
    update = λ p f db u s v. elim s [
      | Changes.status h ↦
          Any-update _ p f db.host_claims
            (λ r m.
              (u.same_id r ∙ m.0, ap (λ (x : Promise). is_some x.deletion_timestamp) (h r) ∙ m.1))
            v
      | Changes.deletion other a g h ↦
          Any-update _ p f db.host_claims (λ r m. (u.same_id r ∙ m.0, h r)) v
    ];
  }

  -- The text of an identifier.
  abbrev pub IsWritten : ClaimRow c → Type 0
  IsWritten row = (id : HostClaimId) × (row.id ≡ c.uuid_to_string id)

  abbrev pub AllWritten : List (ClaimRow c) → Type 0
  AllWritten = All IsWritten

  pub AllWritten-IsRowsInvariant :
      {Allowed : HostClaimId → Type 0} → IsRowsInvariant Allowed AllWritten
  AllWritten-IsRowsInvariant = record {
    append = λ row rows n new v. All-append IsWritten rows row v n.written;
    update =
        λ p f db u s v. All-update IsWritten p f db.host_claims (λ r w. (w.0, u.same_id r ∙ w.1)) v;
  }
