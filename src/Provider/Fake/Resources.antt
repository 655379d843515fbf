-- ===== src/Provider/Fake/Resources.antt =====
-- `observe`, `create` and `delete` of fake.rs. `new_uuid` and `clock` are the readings of
-- `Uuid::now_v7()` and `Timestamp::now()`, one for each resource created. The messages that print a
-- text with `{:?}` have it between quotes as it stands; what Rust would escape in it is not written out.
pub mod Found
pub mod Inserted
pub mod Created
use mc_control_plane.Base.{
  ℕ, suc, pos, leb_ℤ, String, str_eq, ◌<>◌, Option, none, some, is_some, Bool, not, ◌&&◌, ◌==◌, [],
  ◌∷◌, ◌++◌, Result, ok, err, if◌then◌else◌, find_row, count_rows, delete_rows,
}
use mc_control_plane.Protocol.{HostId, Uuid, Timestamp}
use mc_control_plane.Codec.{Codec}
use mc_control_plane.Provider.{
  ProviderLifecycle, ProviderResource, ProviderObservation, CreateOutcome, DeleteOutcome,
  ProviderError, Call, HostProvider,
}
use mc_control_plane.Provider.Fake.Tables.{
  PlanRow, ResourceRow, FakeDb, ◌>>=◌, pure, raise, consume_fault,
}
use mc_control_plane.Provider.Fake.Plans.{select_plan}

unfoldable pub lifecycle_from_db : String → Result ProviderError ProviderLifecycle
lifecycle_from_db value =
    if str_eq value "provisioning"
    then ok ProviderLifecycle.provisioning
    else if str_eq value "ready"
    then ok ProviderLifecycle.ready
    else if str_eq value "deleting"
    then ok ProviderLifecycle.deleting
    else err (ProviderError.transient ("unknown fake provider lifecycle \"" <> value <> "\""))

module _ (c : Codec) (new_uuid : ℕ → Uuid) (clock : ℕ → Timestamp) where
  open c use {uuid_to_string, uuid_from_str, timestamp_to_string}

  abbrev pub resource_has_host : HostId → ResourceRow → Bool
  resource_has_host host_id row = str_eq row.host_id (uuid_to_string host_id)

  unfoldable pub resource_from_row : ResourceRow → Call FakeDb (Option ProviderResource)
  unfolding lifecycle_from_db
  resource_from_row row db = elim (uuid_from_str row.host_id) [
    | err e ↦ (err (ProviderError.transient e), db)
    | ok host_id ↦ elim (lifecycle_from_db row.lifecycle) [
      | err e ↦ (err e, db)
      | ok lifecycle ↦
          (ok (some (record { id = row.id; host_id = host_id; lifecycle = lifecycle })), db)
    ]
  ]

  unfoldable pub resource_by_host : HostId → Call FakeDb (Option ProviderResource)
  unfolding resource_from_row
  resource_by_host host_id db = elim (find_row (resource_has_host host_id) db.provider_resources) [
    | none ↦ (ok none, db)
    | some row ↦ resource_from_row row db
  ]

  unfoldable pub observe : HostId → Call FakeDb ProviderObservation
  observe host_id = do
    faulty ← consume_fault "observe_transient_failure"
    if faulty then raise (ProviderError.transient "injected observation failure") else do
      found ← resource_by_host host_id
      elim found [
        | none ↦ pure ProviderObservation.absent
        | some resource ↦ pure (ProviderObservation.present resource)
      ]

  -- The plan of the row that `resource_by_host` has just found.
  unfoldable pub plan_of_host : HostId → Call FakeDb String
  plan_of_host host_id db = elim (find_row (resource_has_host host_id) db.provider_resources) [
    | none ↦ (err (ProviderError.transient "no rows returned"), db)
    | some row ↦ (ok row.plan_id, db)
  ]

  unfoldable pub create_existing : HostId → String → ProviderResource → Call FakeDb CreateOutcome
  unfolding plan_of_host
  create_existing host_id plan_id existing = do
    existing_plan ← plan_of_host host_id
    if str_eq existing_plan plan_id
        then pure (CreateOutcome.created existing)
        else raise (
            ProviderError.definitive (
              "Host "
              <> uuid_to_string host_id
              <> " already owns a provider resource with plan \""
              <> existing_plan
              <> "\", not \""
              <> plan_id
              <> "\""))

  abbrev plan_enabled : String → PlanRow → Bool
  plan_enabled id row = str_eq row.id id && (leb_ℤ row.enabled (pos 1) && leb_ℤ (pos 1) row.enabled)

  -- INSERT INTO provider_resources, with the readings that the row takes.
  unfoldable pub insert_resource : HostId → String → Call FakeDb ProviderResource
  insert_resource host_id plan_id db =
      let id = "fake-" <> uuid_to_string (new_uuid db.readings) in
      if is_some (find_row (λ (row : ResourceRow). str_eq row.id id) db.provider_resources)
      then (err (ProviderError.transient "UNIQUE constraint failed: provider_resources.id"), db)
      else if is_some (find_row (resource_has_host host_id) db.provider_resources)
      then (
        err (ProviderError.transient "UNIQUE constraint failed: provider_resources.host_id"),
        db,
      )
      else (
        ok (record { id = id; host_id = host_id; lifecycle = ProviderLifecycle.ready }),
        record db {
          provider_resources =
              db.provider_resources
              ++ record {
                id = id;
                host_id = uuid_to_string host_id;
                plan_id = plan_id;
                lifecycle = "ready";
                created_at = timestamp_to_string (clock db.readings);
              }
                ∷ [];
          readings = suc db.readings;
        },
      )

  unfoldable pub create_new : HostId → String → Call FakeDb CreateOutcome
  unfolding insert_resource
  create_new host_id plan_id = do
    plan_exists ← (λ db. (ok (count_rows (plan_enabled plan_id) db.plans), db))
    if not (plan_exists == 1)
        then raise
            (ProviderError.definitive ("unknown or disabled provider plan \"" <> plan_id <> "\""))
        else do
          lose_response ← consume_fault "create_response_loss"
          resource ← insert_resource host_id plan_id
          if lose_response
              then pure CreateOutcome.outcome_unknown
              else pure (CreateOutcome.created resource)

  unfoldable pub create : HostId → String → Call FakeDb CreateOutcome
  unfolding create_existing create_new
  create host_id plan_id = do
    refused ← consume_fault "create_definitive_failure"
    if refused then raise (ProviderError.definitive "injected definitive create failure") else do
      faulty ← consume_fault "create_transient_failure"
      if faulty then raise (ProviderError.transient "injected transient create failure") else do
        found ← resource_by_host host_id
        elim found [
          | some existing ↦ create_existing host_id plan_id existing
          | none ↦ create_new host_id plan_id
        ]

  unfoldable pub delete : HostId → Call FakeDb DeleteOutcome
  delete host_id = do
    faulty ← consume_fault "delete_transient_failure"
    if faulty then raise (ProviderError.transient "injected transient delete failure") else do
      lose_response ← consume_fault "delete_response_loss"
      (λ db. (
        ok (if lose_response then DeleteOutcome.outcome_unknown else DeleteOutcome.deleted),
        record db {
          provider_resources = delete_rows (resource_has_host host_id) db.provider_resources;
        },
      ))

  abbrev pub fake_provider : HostProvider FakeDb
  fake_provider = record {
    select_plan = select_plan;
    observe = observe;
    create = create;
    delete = delete;
  }
