-- ===== src/Storage/Invariant/Checked.antt =====
-- Every row meets the CHECK clauses of crates/control-plane/migrations/control-plane/0001_initial.sql.
use mc_control_plane.Base.{
  ℕ, ltb, String, Bool, true, false, [], ◌∷◌, ◌++◌, ◌≡◌, ◌⊎◌, sym, subst, arith, if◌then◌else◌, inl,
  inr, ok, delete_rows, count_rows,
}
use mc_control_plane.Base.Table.All.{All, All-append, All-update, All-delete}
use mc_control_plane.Protocol.{HostClaimId}
use mc_control_plane.Codec.{Codec}
use mc_control_plane.Storage.Rows.{ClaimRow, HostRow}
use mc_control_plane.Storage.Tables.{
  Db, claim_checks, host_checks, claim_has_id, host_has_id, host_has_claim, insert_claim_row,
  insert_host_row, update_claim_rows, delete_claim_row,
}
use mc_control_plane.Storage.Invariant.Interface.{PhaseKnown, IsInvariant, IsKeptByDeletion}
use mc_control_plane.Storage.Invariant.Consistent.{update_host_row_ok}

module _ {c : Codec} where
  abbrev pub ClaimChecked : ClaimRow c → Type 0
  ClaimChecked r = claim_checks r ≡ true

  abbrev pub HostChecked : HostRow c → Type 0
  HostChecked h = (host_checks h ≡ true) × PhaseKnown h

  pub record IsChecked (db : Db c) : Type 0 where
    pub claims : All ClaimChecked db.host_claims
    pub hosts : All HostChecked db.hosts

  insert_claim_checked :
      (row : ClaimRow c) (db db' : Db c)
      → insert_claim_row row db ≡ ok db'
      → (claim_checks row ≡ true) × (db' ≡ record db { host_claims = db.host_claims ++ row ∷ [] })
  unfolding insert_claim_row
  insert_claim_checked row db db' e = ground arith

  insert_host_checked :
      (row : HostRow c) (db : Db c) (r : ℕ × Db c)
      → insert_host_row row db ≡ ok r
      → (host_checks row ≡ true) × ((r.1 ≡ db) ⊎ (r.1 ≡ record db { hosts = db.hosts ++ row ∷ [] }))
  unfolding insert_host_row
  insert_host_checked row db r e = ground arith

  pub IsChecked-IsInvariant : {Allowed : HostClaimId → Type 0} → IsInvariant Allowed IsChecked
  unfolding update_claim_rows
  IsChecked-IsInvariant = record {
    insert_claim = λ row db db' _ e v.
        let (checked, same) = insert_claim_checked row db db' e in
        subst IsChecked (sym same) (record {
          claims = All-append ClaimChecked db.host_claims row v.claims checked;
          hosts = v.hosts;
        });
    insert_host = λ row db r _ known e v.
        let (checked, same) = insert_host_checked row db r e in
        elim same [
          | inl unchanged ↦ subst IsChecked (sym unchanged) v
          | inr inserted ↦ subst IsChecked (sym inserted) (record {
            claims = v.claims;
            hosts = All-append HostChecked db.hosts row v.hosts (checked, known);
          })
        ];
    update_claims = λ p f db u _ v. record {
      claims = All-update ClaimChecked p f db.host_claims u.checked v.claims;
      hosts = v.hosts;
    };
    update_host = λ id written f db r u e v.
        subst IsChecked (sym (update_host_row_ok id written f db r e).0) (record {
          claims = v.claims;
          hosts =
              All-update HostChecked (host_has_id id) f db.hosts
                (λ h q. (u.checked h q.0, u.known h)) v.hosts;
        });
  }

  pub IsChecked-IsKeptByDeletion : IsKeptByDeletion IsChecked
  unfolding delete_claim_row
  IsChecked-IsKeptByDeletion = record {
    delete_claim = λ id db v. record {
      claims = All-delete ClaimChecked (claim_has_id id) db.host_claims v.claims;
      hosts = cascade id db v (ltb 0 (count_rows (claim_has_id id) db.host_claims));
    };
  }
    where
      cascade :
          (id : String) (db : Db c)
          → IsChecked db
          → (b : Bool)
          → All HostChecked (if b then delete_rows (host_has_claim id) db.hosts else db.hosts)
      cascade id db v true = All-delete HostChecked (host_has_claim id) db.hosts v.hosts
      cascade id db v false = v.hosts
