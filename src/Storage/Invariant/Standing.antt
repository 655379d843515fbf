-- ===== src/Storage/Invariant/Standing.antt =====
-- A live claim and its Host stand in the tables of storage.rs for as long as nobody asks for the
-- deletion of that claim.
use mc_control_plane.Base.{
  ℕ, ltb, String, str_eq, none, true, false, Bool, List, [], ◌∷◌, ◌≡◌, ◌≢◌, sym, ap, subst, ◌∙◌,
  inl, inr, delete_rows, count_rows, eq_iff, Bool-cases, if◌then◌else◌,
}
use mc_control_plane.Base.Table.All.{All, All-delete}
use mc_control_plane.Base.Table.Held.{Shows, Held, Held-append, Held-update, Held-delete}
use mc_control_plane.Protocol.{HostClaimId}
use mc_control_plane.Codec.{Codec, IsFaithful}
use mc_control_plane.Storage.Rows.{ClaimRow, HostRow}
use mc_control_plane.Storage.Tables.{
  Db, claim_has_id, host_has_id, host_has_claim, update_claim_rows, delete_claim_row,
}
use mc_control_plane.Storage.Terms.{Promise, Assignment, promise, assignment}
use mc_control_plane.Storage.Invariant.Interface.{Changes, IsInvariant}
use mc_control_plane.Storage.Invariant.Consistent.{
  insert_claim_row_ok, insert_host_row_ok, update_host_row_ok,
}
use mc_control_plane.Storage.Invariant.Demand.{IsRowsInvariant, RowMarked, IsWritten, AllWritten}

-- Another claim.
abbrev pub Other : HostClaimId → HostClaimId → Type 0
Other id other = other ≢ id

misses : (key other k : String) → other ≢ key → str_eq k key ≡ true → str_eq k other ≡ false
misses key other k apart e = elim (Bool-cases (str_eq k other)) [
  | inl hit ↦ absurd (apart (sym ((eq_iff k other).0 hit) ∙ (eq_iff k key).0 e))
  | inr miss ↦ miss
]

module _ {c : Codec} where
  -- The claims of a key show that promise, and there is one.
  abbrev pub ClaimHeld : String → Promise → List (ClaimRow c) → Type 0
  ClaimHeld = Held (λ (r : ClaimRow c). r.id) promise

  -- The same of the Hosts of the claim.
  abbrev pub HostHeld : String → Assignment → List (HostRow c) → Type 0
  HostHeld = Held (λ (h : HostRow c). h.claim_id) assignment

  read_back : IsFaithful c → (a b : HostClaimId) → c.uuid_to_string a ≡ c.uuid_to_string b → a ≡ b
  read_back f a b e = cc (f.uuid_roundtrip a, ap c.uuid_from_str e, f.uuid_roundtrip b)

  pub ClaimHeld-IsRowsInvariant :
      IsFaithful c
      → (id : HostClaimId) (shown : Promise)
      → IsRowsInvariant (Other id) (ClaimHeld (c.uuid_to_string id) shown)
  ClaimHeld-IsRowsInvariant f id shown = record {
    append = λ row rows n new v. Held-append _ _ _ shown rows row new v;
    update = λ p g db u s v.
        Held-update _ _ _ shown p g db.host_claims u.same_id
          (elim s [
            | Changes.status h ↦ λ r hit mine. h r
            | Changes.deletion other apart e h ↦ λ r hit mine. absurd (
                apart (
                  read_back f other id
                    (sym ((eq_iff r.id (c.uuid_to_string other)).0 (sym (e r) ∙ hit)) ∙ mine)))
          ])
          v;
  }

  -- What is not requested to be deleted is not marked.
  marked_apart :
      (key other : String) (shown : Promise) (rows : List (ClaimRow c))
      → shown.deletion_timestamp ≡ none
      → All (Shows (λ (r : ClaimRow c). r.id) promise key shown) rows
      → RowMarked other rows
      → other ≢ key
  marked_apart key other shown [] live a m same = absurd m
  marked_apart key other shown (r ∷ rows) live a (inl m) same =
      let shows = ap (λ (x : Promise). x.deletion_timestamp) (a.0 (m.0 ∙ same)) in
      absurd (cc (live, shows, m.1))
  marked_apart key other shown (r ∷ rows) live a (inr m) same =
      marked_apart key other shown rows live a.1 m same

  -- The claim, in a table of written identifiers.
  abbrev pub Standing : String → Promise → Db c → Type 0
  Standing key shown db = AllWritten db.host_claims × ClaimHeld key shown db.host_claims

  pub delete_claim_row-Standing :
      (key : String) (shown : Promise)
      → shown.deletion_timestamp ≡ none
      → (other : String) (db : Db c) → RowMarked other db.host_claims
      → Standing key shown db
      → Standing key shown (delete_claim_row other db).1
  unfolding delete_claim_row
  delete_claim_row-Standing key shown live other db m v = (
    All-delete IsWritten (claim_has_id other) db.host_claims v.0,
    Held-delete _ _ key shown (claim_has_id other) db.host_claims
        (λ r e.
          misses key other r.id (marked_apart key other shown db.host_claims live v.1.same m) e)
        v.1,
  )

  pub HostHeld-IsInvariant :
      {Allowed : HostClaimId → Type 0} (key : String) (shown : Assignment)
      → IsInvariant Allowed (λ (db : Db c). HostHeld key shown db.hosts)
  unfolding update_claim_rows
  HostHeld-IsInvariant key shown = record {
    insert_claim = λ row db db' _ e v.
        subst (λ (s : Db c). HostHeld key shown s.hosts) (sym (insert_claim_row_ok row db db' e).1)
          v;
    insert_host = λ row db r _ _ e v. elim (insert_host_row_ok row db r e) [
      | inl same ↦ subst (λ (s : ℕ × Db c). HostHeld key shown s.1.hosts) (sym same) v
      | inr (no_host, _, _, same) ↦
          subst (λ (s : ℕ × Db c). HostHeld key shown s.1.hosts) (sym same)
            (Held-append _ _ key shown db.hosts row no_host v)
    ];
    update_claims = λ p f db u _ v. v;
    update_host = λ id written f db r u e v.
        subst (λ (s : Db c). HostHeld key shown s.hosts)
          (sym (update_host_row_ok id written f db r e).0)
          (Held-update _ _ key shown (host_has_id id) f db.hosts u.same_claim
            (λ h hit mine. u.same_assignment h) v);
  }

  pub delete_claim_row-HostHeld :
      (key : String) (shown : Assignment) (other : String) (db : Db c)
      → other ≢ key
      → HostHeld key shown db.hosts
      → HostHeld key shown (delete_claim_row other db).1.hosts
  unfolding delete_claim_row
  delete_claim_row-HostHeld key shown other db apart v =
      cascade (ltb 0 (count_rows (claim_has_id other) db.host_claims))
    where
      cascade :
          (b : Bool)
          → HostHeld key shown (if b then delete_rows (host_has_claim other) db.hosts else db.hosts)
      cascade true =
          Held-delete _ _ key shown (host_has_claim other) db.hosts
            (λ h e. misses key other h.claim_id apart e) v
      cascade false = v

  -- The claim and its Host.
  abbrev pub BothStanding : String → Promise → Assignment → Db c → Type 0
  BothStanding key shown assigned db = Standing key shown db × HostHeld key assigned db.hosts

  pub delete_claim_row-BothStanding :
      (key : String) (shown : Promise) (assigned : Assignment)
      → shown.deletion_timestamp ≡ none
      → (other : String) (db : Db c) → RowMarked other db.host_claims
      → BothStanding key shown assigned db
      → BothStanding key shown assigned (delete_claim_row other db).1
  delete_claim_row-BothStanding key shown assigned live other db m v = (
    delete_claim_row-Standing key shown live other db m v.0,
    delete_claim_row-HostHeld key assigned other db
        (marked_apart key other shown db.host_claims live v.0.1.same m) v.1,
  )
