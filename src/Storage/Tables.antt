-- ===== src/Storage/Tables.antt =====
-- The two tables with the constraints of crates/control-plane/migrations/control-plane/0001_initial.sql, and the SQL
-- statements of storage.rs. I/O errors of SQLite are left out: a statement fails only by a
-- constraint.
use Prim.Native.String.{len}
use mc_control_plane.Base.{
  ℕ, pos, leb_ℤ, ltb, String, str_eq, str_le, Option, none, some, is_some, Bool, true, false, not,
  ◌&&◌, List, [], ◌∷◌, ◌++◌, map, Result, ok, err, if◌then◌else◌, find_row, filter_rows, count_rows,
  update_rows, delete_rows, sort_rows,
}
use mc_control_plane.AppErrors.{AnyhowError, AppError}
use mc_control_plane.Codec.{Codec}
use mc_control_plane.Storage.Rows.{ClaimRow, HostRow, JoinedRow}

pub record Db (c : Codec) : Type 0 where
  pub host_claims : List (ClaimRow c)
  pub hosts : List (HostRow c)

-- What an operation of `Storage` is.
abbrev pub Op : Codec → Type 0 → Type 0
Op c A = Db c → Result AppError A × Db c

abbrev pub committed :
    {A : Type 0} {c : Codec} → Db c → Result AppError (A × Db c) → Result AppError A × Db c
committed db (ok (a, db')) = (ok a, db')
committed db (err e) = (err e, db)

-- `begin` to `commit`; a return before the commit rolls back.
abbrev pub transaction : {A : Type 0} {c : Codec} → (Db c → Result AppError (A × Db c)) → Op c A
transaction body db = committed db (body db)

-- The columns' `IS`: equality in which NULL equals NULL.
unfoldable pub sql_is : Option String → Option String → Bool
sql_is none none = true
sql_is (some a) (some b) = str_eq a b
sql_is _ _ = false

-- ORDER BY created_at ASC, id ASC.
abbrev created_before : String → String → String → String → Bool
created_before at id at' id' = if str_eq at at' then str_le id id' else str_le at at'

module _ {c : Codec} where
  abbrev pub claim_has_id : String → ClaimRow c → Bool
  claim_has_id id row = str_eq row.id id

  abbrev pub host_has_id : String → HostRow c → Bool
  host_has_id id row = str_eq row.id id

  abbrev pub host_has_claim : String → HostRow c → Bool
  host_has_claim claim_id row = str_eq row.claim_id claim_id

  -- The CHECK clauses of host_claims and of hosts, but for `phase`, which `host_phase_to_db` meets.
  unfoldable pub claim_checks : ClaimRow c → Bool
  claim_checks row =
      leb_ℤ (pos 1) row.generation
      && (leb_ℤ (pos 1) row.vcpus
          && (leb_ℤ (pos 1) row.memory_bytes
              && (leb_ℤ (pos 1) row.storage_bytes
                  && (leb_ℤ (pos 0) row.observed_generation && leb_ℤ (pos 0) row.retry_attempt))))

  unfoldable pub host_checks : HostRow c → Bool
  host_checks row =
      leb_ℤ (pos 1) row.vcpus
      && (leb_ℤ (pos 1) row.memory_bytes
          && (leb_ℤ (pos 1) row.storage_bytes
              && (ltb 0 (len row.provider_plan_id) && leb_ℤ (pos 0) row.retry_attempt)))

  -- `fetch_claim_row`: a claim's row, joined with its Host's identifier.
  unfoldable pub fetch_claim_row : String → Db c → Option (JoinedRow c)
  fetch_claim_row id db = elim (find_row (claim_has_id id) db.host_claims) [
    | none ↦ none
    | some row ↦ some (record {
      claim = row;
      host_id = elim (find_row (host_has_claim row.id) db.hosts) [
        | none ↦ none
        | some h ↦ some h.id
      ];
    })
  ]

  unfoldable pub fetch_host_for_claim_row : String → Db c → Option (HostRow c)
  fetch_host_for_claim_row claim_id db = find_row (host_has_claim claim_id) db.hosts

  unfoldable pub fetch_host_row : String → Db c → Option (HostRow c)
  fetch_host_row id db = find_row (host_has_id id) db.hosts

  -- INSERT INTO host_claims.
  unfoldable pub insert_claim_row : ClaimRow c → Db c → Result AnyhowError (Db c)
  insert_claim_row row db =
      if is_some (find_row (claim_has_id row.id) db.host_claims)
      then err (AnyhowError.constraint_failed "UNIQUE host_claims.id")
      else if claim_checks row
      then ok (record db { host_claims = db.host_claims ++ row ∷ [] })
      else err (AnyhowError.constraint_failed "CHECK host_claims")

  -- INSERT INTO hosts … ON CONFLICT(claim_id) DO NOTHING, with the rows affected.
  unfoldable pub insert_host_row : HostRow c → Db c → Result AnyhowError (ℕ × Db c)
  insert_host_row row db =
      if not (host_checks row)
      then err (AnyhowError.constraint_failed "CHECK hosts")
      else if is_some (find_row (host_has_claim row.claim_id) db.hosts)
      then ok (0, db)
      else if is_some (find_row (host_has_id row.id) db.hosts)
      then err (AnyhowError.constraint_failed "UNIQUE hosts.id")
      else if is_some (find_row (claim_has_id row.claim_id) db.host_claims)
      then ok (1, record db { hosts = db.hosts ++ row ∷ [] })
      else err (AnyhowError.constraint_failed "FOREIGN KEY hosts.claim_id")

  -- UPDATE host_claims, with the rows affected. The new values come from unsigned numbers, so the
  -- CHECK clauses hold of them.
  unfoldable pub update_claim_rows :
      (ClaimRow c → Bool) → (ClaimRow c → ClaimRow c) → Db c → ℕ × Db c
  update_claim_rows p f db =
      (count_rows p db.host_claims, record db { host_claims = update_rows p f db.host_claims })

  -- A provider resource that another Host has recorded.
  abbrev pub resource_taken : String → Option String → HostRow c → Bool
  resource_taken id none row = false
  resource_taken id (some r) row =
      not (str_eq row.id id) && sql_is row.provider_resource_id (some r)

  -- UPDATE hosts … WHERE id = ?, with the rows affected; `provider_resource_id` is UNIQUE.
  unfoldable pub update_host_row :
      String → Option String → (HostRow c → HostRow c) → Db c → Result AnyhowError (ℕ × Db c)
  update_host_row id provider_resource_id f db =
      let affected = count_rows (host_has_id id) db.hosts in
      if ltb 0 affected && is_some (find_row (resource_taken id provider_resource_id) db.hosts)
      then err (AnyhowError.constraint_failed "UNIQUE hosts.provider_resource_id")
      else ok (affected, record db { hosts = update_rows (host_has_id id) f db.hosts })

  -- DELETE FROM host_claims WHERE id = ?, with ON DELETE CASCADE, and the rows affected.
  unfoldable pub delete_claim_row : String → Db c → ℕ × Db c
  delete_claim_row id db =
      let affected = count_rows (claim_has_id id) db.host_claims in
      (
        affected,
        record db {
          host_claims = delete_rows (claim_has_id id) db.host_claims;
          hosts = if ltb 0 affected then delete_rows (host_has_claim id) db.hosts else db.hosts;
        },
      )

  abbrev claim_before : JoinedRow c → JoinedRow c → Bool
  claim_before a b = created_before a.claim.created_at a.claim.id b.claim.created_at b.claim.id

  abbrev host_before : HostRow c → HostRow c → Bool
  host_before a b = created_before a.created_at a.id b.created_at b.id

  -- LEFT JOIN: a row for each Host of the claim, or one without a Host.
  unfoldable pub join_claim : ClaimRow c → List (HostRow c) → List (JoinedRow c)
  join_claim row [] = record { claim = row; host_id = none } ∷ []
  join_claim row (h ∷ hs) =
      map (λ (x : HostRow c). record { claim = row; host_id = some x.id }) (h ∷ hs)

  unfoldable pub join_claims : List (ClaimRow c) → List (HostRow c) → List (JoinedRow c)
  unfolding join_claim
  join_claims [] hosts = []
  join_claims (row ∷ rows) hosts =
      join_claim row (filter_rows (host_has_claim row.id) hosts) ++ join_claims rows hosts

  unfoldable pub select_claims : Db c → List (JoinedRow c)
  unfolding join_claims
  select_claims db = sort_rows claim_before (join_claims db.host_claims db.hosts)

  unfoldable pub select_hosts : Db c → List (HostRow c)
  select_hosts db = sort_rows host_before db.hosts
