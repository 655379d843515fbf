-- ===== src/Storage/Invariant/Guarded.antt =====
-- Properties of the database that hold together, and what the controller has to know of a claim before
-- it removes the claim: a guard that holds of the claims that `list_claims` of storage.rs answers with
-- a deletion timestamp, and that every statement keeps.
use mc_control_plane.Base.{String, is_some, true, List, [], ◌∷◌, ◌≡◌, Result, ok, err}
use mc_control_plane.AppErrors.{AppError}
use mc_control_plane.Protocol.{HostClaimId}
use mc_control_plane.Codec.{Codec}
use mc_control_plane.Domain.{HostClaimRecord}
use mc_control_plane.Storage.Tables.{Db, delete_claim_row}
use mc_control_plane.Storage.Claims.{list_claims}
use mc_control_plane.Storage.Invariant.Interface.{IsInvariant, IsKeptByDeletion}

module _ {c : Codec} {Allowed : HostClaimId → Type 0} where
  pub both-IsInvariant :
      {A B : Db c → Type 0}
      → IsInvariant Allowed A
      → IsInvariant Allowed B
      → IsInvariant Allowed (λ db. A db × B db)
  both-IsInvariant a b = record {
    insert_claim =
        λ row db db' n e v. (a.insert_claim row db db' n e v.0, b.insert_claim row db db' n e v.1);
    insert_host =
        λ row db r n p e v. (a.insert_host row db r n p e v.0, b.insert_host row db r n p e v.1);
    update_claims =
        λ p f db u s v. (a.update_claims p f db u s v.0, b.update_claims p f db u s v.1);
    update_host =
        λ id w f db r u e v. (a.update_host id w f db r u e v.0, b.update_host id w f db r u e v.1);
  }

  given-IsInvariant :
      (X : Type 0) {A : Db c → Type 0}
      → IsInvariant Allowed A
      → IsInvariant Allowed (λ db. X → A db)
  given-IsInvariant X a = record {
    insert_claim = λ row db db' n e v x. a.insert_claim row db db' n e (v x);
    insert_host = λ row db r n p e v x. a.insert_host row db r n p e (v x);
    update_claims = λ p f db u s v x. a.update_claims p f db u s (v x);
    update_host = λ id w f db r u e v x. a.update_host id w f db r u e (v x);
  }

  always-IsInvariant : IsInvariant {c = c} Allowed (λ db. Unit {0})
  always-IsInvariant = record {
    insert_claim = λ row db db' n e v. tt;
    insert_host = λ row db r n p e v. tt;
    update_claims = λ p f db u s v. tt;
    update_host = λ id w f db r u e v. tt;
  }

module _ {c : Codec} (Guard : String → Db c → Type 0) where
  -- The guard of each claim whose deletion is requested.
  abbrev pub Guarded : List HostClaimRecord → Db c → Type 0
  Guarded [] db = Unit
  Guarded (claim ∷ claims) db =
      (is_some claim.resource.deletion_timestamp ≡ true
        → Guard (c.uuid_to_string claim.resource.id) db)
      × Guarded claims db

  pub Guarded-IsInvariant :
      {Allowed : HostClaimId → Type 0}
      → ((id : String) → IsInvariant Allowed (Guard id))
      → (claims : List HostClaimRecord) → IsInvariant Allowed (Guarded claims)
  Guarded-IsInvariant kept [] = always-IsInvariant
  Guarded-IsInvariant kept (claim ∷ claims) =
      both-IsInvariant (given-IsInvariant _ (kept (c.uuid_to_string claim.resource.id)))
        (Guarded-IsInvariant kept claims)

  abbrev pub GuardedResult : Result AppError (List HostClaimRecord) → Db c → Type 0
  GuardedResult (ok claims) db = Guarded claims db
  GuardedResult (err e) db = Unit

  -- The deletion of a claim with its guard keeps the property.
  pub record IsDeletionGuard (Allowed : HostClaimId → Type 0) (Inv : Db c → Type 0) : Type 0 where
    pub kept : (id : String) → IsInvariant Allowed (Guard id)
    pub listed : (db : Db c) → Inv db → GuardedResult (list_claims c db).0 (list_claims c db).1
    pub delete_claim :
        (id : String) (db : Db c) → Guard id db → Inv db → Inv (delete_claim_row id db).1

module _ {c : Codec} where
  abbrev pub Unguarded : String → Db c → Type 0
  Unguarded id db = Unit

  all-Unguarded : (claims : List HostClaimRecord) (db : Db c) → Guarded Unguarded claims db
  all-Unguarded [] db = tt
  all-Unguarded (claim ∷ claims) db = (λ _. tt, all-Unguarded claims db)

  -- Where every deletion keeps the property, no guard is needed.
  pub unguarded :
      {Allowed : HostClaimId → Type 0} {Inv : Db c → Type 0}
      → IsKeptByDeletion Inv
      → IsDeletionGuard Unguarded Allowed Inv
  unguarded d = record {
    kept = λ id. always-IsInvariant;
    listed = λ db v. answered (list_claims c db).0 (list_claims c db).1;
    delete_claim = λ id db _ v. d.delete_claim id db v;
  }
    where
      answered :
          (r : Result AppError (List HostClaimRecord)) (db : Db c) → GuardedResult Unguarded r db
      answered (ok claims) db = all-Unguarded claims db
      answered (err e) db = tt
