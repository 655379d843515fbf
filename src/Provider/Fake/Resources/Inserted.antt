-- ===== src/Provider/Fake/Resources/Inserted.antt =====
-- What `create` of fake.rs inserts or finds.
use mc_control_plane.Base.{
  ℕ, String, eq_refl, ◌<>◌, true, Option, none, some, [], ◌∷◌, ◌++◌, ◌≡◌, ◌⊎◌, refl, ap, ◌∙◌, arith,
  Option-cases, Result-cases, inl, inr, Result, ok, find_row,
}
use mc_control_plane.Base.Table.Keys.{find_row-append}
use mc_control_plane.Protocol.{HostId, Uuid, Timestamp}
use mc_control_plane.Codec.{Codec, IsFaithful}
use mc_control_plane.Provider.{ProviderLifecycle, ProviderResource, CreateOutcome, ProviderError}
use mc_control_plane.Provider.Fake.Tables.{ResourceRow, FakeDb, consume_fault}
use mc_control_plane.Provider.Fake.Resources.{
  lifecycle_from_db, resource_has_host, resource_from_row, resource_by_host, plan_of_host,
  create_existing, insert_resource, create_new, create,
}

module _ (c : Codec) (new_uuid : ℕ → Uuid) (clock : ℕ → Timestamp) where
  open c use {uuid_to_string}

  unfoldable pub new_row : HostId → String → FakeDb → ResourceRow
  new_row host_id plan_id db = record {
    id = "fake-" <> uuid_to_string (new_uuid db.readings);
    host_id = uuid_to_string host_id;
    plan_id = plan_id;
    lifecycle = "ready";
    created_at = c.timestamp_to_string (clock db.readings);
  }

  -- The resource of an inserted row.
  unfoldable pub new_resource : HostId → FakeDb → ProviderResource
  new_resource host_id db = record {
    id = "fake-" <> uuid_to_string (new_uuid db.readings);
    host_id = host_id;
    lifecycle = ProviderLifecycle.ready;
  }

  pub insert_resource-eq-ok :
      (host_id : HostId) (plan_id : String) (db db' : FakeDb) (r : ProviderResource)
      → insert_resource c new_uuid clock host_id plan_id db ≡ (ok r, db')
      → (r ≡ new_resource host_id db)
        × (db'.provider_resources ≡ db.provider_resources ++ new_row host_id plan_id db ∷ [])
  unfolding insert_resource new_row new_resource
  insert_resource-eq-ok host_id plan_id db db' r e = ground arith

  new_row-read :
      IsFaithful c
      → (host_id : HostId) (plan_id : String) (db db' : FakeDb)
      → resource_from_row c new_uuid clock (new_row host_id plan_id db) db'
        ≡ (ok (some (new_resource host_id db)), db')
  unfolding resource_from_row lifecycle_from_db new_row new_resource
  new_row-read f host_id plan_id db db' = rw (resource_from_row, f.uuid_roundtrip host_id)

  new_resource-host : (host_id : HostId) (db : FakeDb) → (new_resource host_id db).host_id ≡ host_id
  unfolding new_resource
  new_resource-host host_id db = refl

  pub new_row-fits :
      (host_id : HostId) (plan_id : String) (db : FakeDb)
      → resource_has_host c new_uuid clock host_id (new_row host_id plan_id db) ≡ true
  unfolding new_row
  new_row-fits host_id plan_id db = eq_refl (uuid_to_string host_id)

  looked_up :
      IsFaithful c
      → (host_id : HostId) (plan_id : String) (db db' : FakeDb) (r : ProviderResource)
      → r ≡ new_resource host_id db
      → find_row (resource_has_host c new_uuid clock host_id) db'.provider_resources
        ≡ some (new_row host_id plan_id db)
      → resource_by_host c new_uuid clock host_id db' ≡ (ok (some r), db')
  unfolding resource_by_host
  looked_up f host_id plan_id db db' r made found =
      rw (made, resource_by_host, found) (new_row-read f host_id plan_id db db')

  pub insert_resource-row :
      (host_id : HostId) (plan_id : String) (db db' : FakeDb) (r : ProviderResource)
      → find_row (resource_has_host c new_uuid clock host_id) db.provider_resources ≡ none
      → insert_resource c new_uuid clock host_id plan_id db ≡ (ok r, db')
      → find_row (resource_has_host c new_uuid clock host_id) db'.provider_resources
        ≡ some (new_row host_id plan_id db)
  insert_resource-row host_id plan_id db db' r missing e =
      ap (find_row (resource_has_host c new_uuid clock host_id))
        (insert_resource-eq-ok host_id plan_id db db' r e).1
      ∙ find_row-append (resource_has_host c new_uuid clock host_id) db.provider_resources
          (new_row host_id plan_id db)
      ∙ rw (missing, new_row-fits host_id plan_id db)

  -- The row that `insert_resource` appends is found.
  pub insert_resource-found :
      IsFaithful c
      → (host_id : HostId) (plan_id : String) (db db' : FakeDb) (r : ProviderResource)
      → find_row (resource_has_host c new_uuid clock host_id) db.provider_resources ≡ none
      → insert_resource c new_uuid clock host_id plan_id db ≡ (ok r, db')
      → (resource_by_host c new_uuid clock host_id db' ≡ (ok (some r), db')) × (r.host_id ≡ host_id)
  insert_resource-found f host_id plan_id db db' r missing e =
      let made = (insert_resource-eq-ok host_id plan_id db db' r e).0 in
      (
        looked_up f host_id plan_id db db' r made
            (insert_resource-row host_id plan_id db db' r missing e),
        ap (λ (x : ProviderResource). x.host_id) made ∙ new_resource-host host_id db,
      )

  pub create_existing-found :
      (host_id : HostId) (plan_id : String) (existing : ProviderResource) (db db' : FakeDb)
      (outcome : CreateOutcome)
      → create_existing c new_uuid clock host_id plan_id existing db ≡ (ok outcome, db')
      → (db' ≡ db) × (outcome ≡ CreateOutcome.created existing)
  unfolding create_existing plan_of_host
  create_existing-found host_id plan_id existing db db' outcome e =
      elim (Option-cases
        (find_row (resource_has_host c new_uuid clock host_id) db.provider_resources)) [
          | inl missing ↦ absurd (ground (arith, missing))
          | inr (row, found) ↦ ground (arith, found)
        ]

  -- The state in which `create` inserts, and what it inserts.
  abbrev pub before_insert : FakeDb → FakeDb
  before_insert db = (consume_fault "create_response_loss" db).1

  abbrev pub inserted : HostId → String → FakeDb → Result ProviderError ProviderResource × FakeDb
  inserted host_id plan_id db = insert_resource c new_uuid clock host_id plan_id (before_insert db)

  pub create_new-eq-ok :
      (host_id : HostId) (plan_id : String) (db db' : FakeDb) (outcome : CreateOutcome)
      → create_new c new_uuid clock host_id plan_id db ≡ (ok outcome, db')
      → (r : ProviderResource) × ((inserted host_id plan_id db).0 ≡ ok r)
        × ((inserted host_id plan_id db).1 ≡ db')
        × ((outcome ≡ CreateOutcome.created r) ⊎ (outcome ≡ CreateOutcome.outcome_unknown))
  unfolding create_new
  create_new-eq-ok host_id plan_id db db' outcome e =
      elim (Result-cases (inserted host_id plan_id db).0) [
        | inl (r, made) ↦ (r, made, ground (arith, made), ground (arith, made))
        | inr (error, failed) ↦ absurd (ground (arith, failed))
      ]

  -- The lookup of `create`, once no fault stops it.
  abbrev pub before_create : FakeDb → FakeDb
  before_create db =
      (consume_fault "create_transient_failure" (consume_fault "create_definitive_failure" db).1).1

  abbrev pub looked : HostId → FakeDb → Result ProviderError (Option ProviderResource) × FakeDb
  looked host_id db = resource_by_host c new_uuid clock host_id (before_create db)

  pub create-eq-ok :
      (host_id : HostId) (plan_id : String) (db db' : FakeDb) (outcome : CreateOutcome)
      → create c new_uuid clock host_id plan_id db ≡ (ok outcome, db')
      → ((r : ProviderResource) × ((looked host_id db).0 ≡ ok (some r))
          × (create_existing c new_uuid clock host_id plan_id r (looked host_id db).1
              ≡ (ok outcome, db')))
        ⊎ (((looked host_id db).0 ≡ ok none)
            × (create_new c new_uuid clock host_id plan_id (looked host_id db).1
                ≡ (ok outcome, db')))
  unfolding create
  create-eq-ok host_id plan_id db db' outcome e = elim (Result-cases (looked host_id db).0) [
    | inr (error, failed) ↦ absurd (ground (arith, failed))
    | inl (o, found) ↦ elim (Option-cases o) [
      | inl nothing ↦ inr (found ∙ ap ok nothing, ground (arith, found, nothing))
      | inr (r, something) ↦ inl (r, found ∙ ap ok something, ground (arith, found, something))
    ]
  ]
