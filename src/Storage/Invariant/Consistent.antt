-- ===== src/Storage/Invariant/Consistent.antt =====
-- Every statement keeps the database consistent.
use mc_control_plane.Base.{
  ℕ, String, str_eq, Option, none, is_some, Bool, true, List, [], ◌∷◌, ◌++◌, ◌≡◌, sym, ap, ◌∙◌,
  subst, arith, ltb, find_row, update_rows, count_rows, Bool-cases, Option-cases, inl, inr, ◌⊎◌, ok,
}
use mc_control_plane.Base.Table.Keys.{
  find_row-append, find_row-update_rows, Unique, Unique-append, Unique-update, Unique-delete,
  count_rows-find_row, update_rows-none, delete_rows-none,
}
use mc_control_plane.Protocol.{HostClaimId}
use mc_control_plane.Codec.{Codec}
use mc_control_plane.Storage.Rows.{ClaimRow, HostRow}
use mc_control_plane.Storage.Tables.{
  Db, claim_has_id, host_has_id, host_has_claim, resource_taken, insert_claim_row, insert_host_row,
  update_claim_rows, update_host_row, delete_claim_row,
}
use mc_control_plane.Storage.Invariant.Interface.{
  IsClaimUpdate, IsHostUpdate, IsInvariant, IsKeptByDeletion,
}
use mc_control_plane.Storage.Invariant.Resources.{
  Unshared, Unshared-append, Unshared-update, Unshared-delete,
}
use mc_control_plane.Storage.Invariant.Owned.{
  Owned, Owned-keep, Owned-append, Owned-update, Owned-delete,
}

module _ {c : Codec} where
  pub record IsConsistent (db : Db c) : Type 0 where
    pub claim_ids : Unique (λ (r : ClaimRow c). r.id) db.host_claims
    pub host_ids : Unique (λ (r : HostRow c). r.id) db.hosts
    pub one_host : Unique (λ (r : HostRow c). r.claim_id) db.hosts
    pub owned : Owned db.host_claims db.hosts
    pub unshared : Unshared db.hosts

  pub is_some-append :
      (q : ClaimRow c → Bool) (rs : List (ClaimRow c)) (r : ClaimRow c)
      → is_some (find_row q rs) ≡ true
      → is_some (find_row q (rs ++ r ∷ [])) ≡ true
  is_some-append q rs r h = elim (Option-cases (find_row q rs)) [
    | inl none_found ↦ absurd (cc (ap is_some none_found))
    | inr (s, e) ↦ rw (find_row-append q rs r, e)
  ]

  pub insert_claim_row_ok :
      (row : ClaimRow c) (db db' : Db c)
      → insert_claim_row row db ≡ ok db'
      → (find_row (claim_has_id row.id) db.host_claims ≡ none)
        × (db' ≡ record db { host_claims = db.host_claims ++ row ∷ [] })
  unfolding insert_claim_row
  insert_claim_row_ok row db db' e = ground arith

  pub insert_host_row_ok :
      (row : HostRow c) (db : Db c) (r : ℕ × Db c)
      → insert_host_row row db ≡ ok r
      → (r ≡ (0, db))
        ⊎ ((find_row (host_has_claim row.claim_id) db.hosts ≡ none)
            × (find_row (host_has_id row.id) db.hosts ≡ none)
            × (is_some (find_row (claim_has_id row.claim_id) db.host_claims) ≡ true)
            × (r ≡ (1, record db { hosts = db.hosts ++ row ∷ [] })))
  unfolding insert_host_row
  insert_host_row_ok row db r e = ground arith

  pub update_host_row_ok :
      (id : String) (written : Option String) (f : HostRow c → HostRow c) (db : Db c) (r : ℕ × Db c)
      → update_host_row id written f db ≡ ok r
      → (r.1 ≡ record db { hosts = update_rows (host_has_id id) f db.hosts })
        × ((count_rows (host_has_id id) db.hosts ≡ 0)
            ⊎ (find_row (resource_taken id written) db.hosts ≡ none))
  unfolding update_host_row
  update_host_row_ok id written f db r e = ground arith

  insert_claim_row-IsConsistent :
      (row : ClaimRow c) (db db' : Db c)
      → insert_claim_row row db ≡ ok db'
      → IsConsistent db
      → IsConsistent db'
  insert_claim_row-IsConsistent row db db' e v =
      let (new, same) = insert_claim_row_ok row db db' e in
      subst IsConsistent (sym same) (record {
        claim_ids = Unique-append _ db.host_claims row new v.claim_ids;
        host_ids = v.host_ids;
        one_host = v.one_host;
        owned =
            Owned-keep db.host_claims (db.host_claims ++ row ∷ []) db.hosts
              (λ id h. is_some-append (claim_has_id id) db.host_claims row h) v.owned;
        unshared = v.unshared;
      })

  insert_host_row-IsConsistent :
      (row : HostRow c) (db : Db c) (r : ℕ × Db c)
      → row.provider_resource_id ≡ none
      → insert_host_row row db ≡ ok r
      → IsConsistent db
      → IsConsistent r.1
  insert_host_row-IsConsistent row db r fresh e v = elim (insert_host_row_ok row db r e) [
    | inl same ↦ subst (λ (s : ℕ × Db c). IsConsistent s.1) (sym same) v
    | inr (no_host, no_id, claimed, same) ↦
        subst (λ (s : ℕ × Db c). IsConsistent s.1) (sym same)
          (record {
            claim_ids = v.claim_ids;
            host_ids = Unique-append _ db.hosts row no_id v.host_ids;
            one_host = Unique-append _ db.hosts row no_host v.one_host;
            owned = Owned-append db.host_claims db.hosts row claimed v.owned;
            unshared = Unshared-append db.hosts row fresh v.unshared;
          })
  ]

  update_claim_rows-IsConsistent :
      (p : ClaimRow c → Bool) (f : ClaimRow c → ClaimRow c) (db : Db c)
      → IsClaimUpdate f
      → IsConsistent db
      → IsConsistent (update_claim_rows p f db).1
  unfolding update_claim_rows
  update_claim_rows-IsConsistent p f db k v = record {
    claim_ids = Unique-update _ p f db.host_claims k.same_id v.claim_ids;
    host_ids = v.host_ids;
    one_host = v.one_host;
    owned =
        Owned-keep db.host_claims (update_rows p f db.host_claims) db.hosts
          (λ id h.
            find_row-update_rows (claim_has_id id) p f db.host_claims
              (λ r. ap (λ s. str_eq s id) (k.same_id r))
            ∙ h)
          v.owned;
    unshared = v.unshared;
  }

  update_host_row-IsConsistent :
      (id : String) (written : Option String) (f : HostRow c → HostRow c) (db : Db c) (r : ℕ × Db c)
      → IsHostUpdate written f
      → update_host_row id written f db ≡ ok r
      → IsConsistent db
      → IsConsistent r.1
  update_host_row-IsConsistent id written f db r k e v =
      let (same, free) = update_host_row_ok id written f db r e in
      subst IsConsistent (sym same) (record {
        claim_ids = v.claim_ids;
        host_ids = Unique-update _ (host_has_id id) f db.hosts k.same_id v.host_ids;
        one_host = Unique-update _ (host_has_id id) f db.hosts k.same_claim v.one_host;
        owned = Owned-update db.host_claims (host_has_id id) f db.hosts k.same_claim v.owned;
        unshared = elim free [
          | inl untouched ↦
              rw
                (update_rows-none (host_has_id id) f db.hosts
                  ((count_rows-find_row (host_has_id id) db.hosts).0 untouched))
                v.unshared
          | inr untaken ↦
              Unshared-update id written f db.hosts k.recorded v.host_ids untaken v.unshared
        ];
      })

  delete_claim_row-IsConsistent :
      (id : String) (db : Db c) → IsConsistent db → IsConsistent (delete_claim_row id db).1
  unfolding delete_claim_row
  delete_claim_row-IsConsistent id db v =
      elim (Bool-cases (ltb 0 (count_rows (claim_has_id id) db.host_claims))) [
        | inl some_row ↦ rw some_row (record {
          claim_ids = Unique-delete _ (claim_has_id id) db.host_claims v.claim_ids;
          host_ids = Unique-delete _ (host_has_claim id) db.hosts v.host_ids;
          one_host = Unique-delete _ (host_has_claim id) db.hosts v.one_host;
          owned = Owned-delete id db.host_claims db.hosts v.owned;
          unshared = Unshared-delete (host_has_claim id) db.hosts v.unshared;
        })
        | inr no_row ↦
            rw
              (
                no_row,
                delete_rows-none (claim_has_id id) db.host_claims
                    ((count_rows-find_row (claim_has_id id) db.host_claims).0 (ground arith)),
              )
              v
      ]

  pub IsConsistent-IsInvariant : {Allowed : HostClaimId → Type 0} → IsInvariant Allowed IsConsistent
  IsConsistent-IsInvariant = record {
    insert_claim = λ row db db' _. insert_claim_row-IsConsistent row db db';
    insert_host = λ row db r unrecorded _. insert_host_row-IsConsistent row db r unrecorded;
    update_claims = λ p f db u _. update_claim_rows-IsConsistent p f db u;
    update_host = update_host_row-IsConsistent;
  }

  pub IsConsistent-IsKeptByDeletion : IsKeptByDeletion IsConsistent
  IsConsistent-IsKeptByDeletion = record { delete_claim = delete_claim_row-IsConsistent }
