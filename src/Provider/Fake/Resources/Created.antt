-- ===== src/Provider/Fake/Resources/Created.antt =====
-- What `create` of fake.rs leaves: what `observe` finds, and what a second `create` does.
use mc_control_plane.Base.{
  ℕ, String, str_eq, ◌<>◌, false, none, some, ◌≡◌, ◌⊎◌, refl, ap, ◌∙◌, arith, ◌≢◌, Bool-cases,
  Option-cases, inl, inr, ok, err, find_row, eq_iff,
}
use mc_control_plane.Protocol.{HostId, Uuid, Timestamp}
use mc_control_plane.Codec.{Codec, IsFaithful}
use mc_control_plane.Provider.{ProviderResource, ProviderObservation, CreateOutcome, ProviderError}
use mc_control_plane.Provider.Fake.Tables.{FakeDb, consume_fault}
use mc_control_plane.Provider.Fake.Resources.{
  insert_resource, resource_has_host, resource_by_host, plan_of_host, create_existing, create,
  observe,
}
use mc_control_plane.Provider.Fake.Resources.Found.{
  paired, consume_fault-resources, resource_by_host-same, resource_by_host-none,
  resource_by_host-host, resource_by_host-again, observe-found,
}
use mc_control_plane.Provider.Fake.Resources.Inserted.{
  before_insert, before_create, looked, new_row, insert_resource-row, insert_resource-found,
  create_existing-found, create_new-eq-ok, create-eq-ok,
}

module _ (c : Codec) (new_uuid : ℕ → Uuid) (clock : ℕ → Timestamp) where
  -- The plan that a Host's resource was created with.
  create_existing-plan :
      (host_id : HostId) (plan_id : String) (existing : ProviderResource) (db db' : FakeDb)
      (outcome : CreateOutcome)
      → create_existing c new_uuid clock host_id plan_id existing db ≡ (ok outcome, db')
      → (plan_of_host c new_uuid clock host_id db).0 ≡ ok plan_id
  unfolding create_existing plan_of_host
  create_existing-plan host_id plan_id existing db db' outcome e =
      elim (Option-cases
        (find_row (resource_has_host c new_uuid clock host_id) db.provider_resources)) [
          | inl missing ↦ absurd (ground (arith, missing))
          | inr (row, found) ↦ ground (arith, found, eq_iff row.plan_id plan_id)
        ]

  plan_of_host-found :
      (host_id : HostId) (plan_id : String) (db db' : FakeDb)
      → db'.provider_resources ≡ db.provider_resources
      → (plan_of_host c new_uuid clock host_id db).0 ≡ ok plan_id
      → plan_of_host c new_uuid clock host_id db' ≡ (ok plan_id, db')
  unfolding plan_of_host
  plan_of_host-found host_id plan_id db db' same e =
      elim (Option-cases
        (find_row (resource_has_host c new_uuid clock host_id) db.provider_resources)) [
          | inl missing ↦ absurd (ground (arith, missing))
          | inr (row, found) ↦ ground (arith, found, same, e)
        ]

  abbrev refusal : HostId → String → String → String
  refusal host_id existing_plan asked =
      "Host "
      <> c.uuid_to_string host_id
      <> " already owns a provider resource with plan \""
      <> existing_plan
      <> "\", not \""
      <> asked
      <> "\""

  -- With the resource and its plan as they are, `create` inserts nothing.
  create-existing :
      (host_id : HostId) (plan_id asked : String) (r : ProviderResource) (db : FakeDb)
      → consume_fault "create_definitive_failure" db ≡ (ok false, db)
      → consume_fault "create_transient_failure" db ≡ (ok false, db)
      → resource_by_host c new_uuid clock host_id db ≡ (ok (some r), db)
      → plan_of_host c new_uuid clock host_id db ≡ (ok plan_id, db)
      → ((plan_id ≡ asked)
          × (create c new_uuid clock host_id asked db ≡ (ok (CreateOutcome.created r), db)))
        ⊎ ((plan_id ≢ asked)
            × (message : String) × (create c new_uuid clock host_id asked db
                ≡ (err (ProviderError.definitive message), db)))
  unfolding create create_existing
  create-existing host_id plan_id asked r db steady quiet found plan =
      elim (Bool-cases (str_eq plan_id asked)) [
        | inl same ↦
            inl ((eq_iff plan_id asked).0 same, ground (arith, steady, quiet, found, plan, same))
        | inr other ↦ inr (
          (λ e. ground (arith, other, (eq_iff plan_id asked).1 e)),
          refusal host_id plan_id asked,
          ground (arith, steady, quiet, found, plan, other),
        )
      ]

  insert_resource-plan :
      (host_id : HostId) (plan_id : String) (db db' : FakeDb) (r : ProviderResource)
      → find_row (resource_has_host c new_uuid clock host_id) db.provider_resources ≡ none
      → insert_resource c new_uuid clock host_id plan_id db ≡ (ok r, db')
      → plan_of_host c new_uuid clock host_id db' ≡ (ok plan_id, db')
  unfolding plan_of_host new_row
  insert_resource-plan host_id plan_id db db' r missing e =
      rw (plan_of_host, insert_resource-row c new_uuid clock host_id plan_id db db' r missing e)
        refl

  -- A lookup that finds nothing is as good where `create` inserts.
  before_insert-none :
      (host_id : HostId) (db : FakeDb)
      → (looked c new_uuid clock host_id db).0 ≡ ok none
      → find_row
          (resource_has_host c new_uuid clock host_id)
          (before_insert c new_uuid clock (looked c new_uuid clock host_id db).1).provider_resources
        ≡ none
  before_insert-none host_id db missing =
      ap (find_row (resource_has_host c new_uuid clock host_id)) (
        consume_fault-resources "create_response_loss" (looked c new_uuid clock host_id db).1
        ∙ ap (λ (d : FakeDb). d.provider_resources)
            (resource_by_host-same c new_uuid clock host_id (before_create c new_uuid clock db)))
      ∙ resource_by_host-none c new_uuid clock host_id (before_create c new_uuid clock db) missing

  -- The resource and its plan after `create` has answered.
  create-found :
      IsFaithful c
      → (host_id : HostId) (plan_id : String) (db db' : FakeDb) (outcome : CreateOutcome)
      → create c new_uuid clock host_id plan_id db ≡ (ok outcome, db')
      → (r : ProviderResource) × (resource_by_host c new_uuid clock host_id db'
          ≡ (ok (some r), db'))
        × (plan_of_host c new_uuid clock host_id db' ≡ (ok plan_id, db'))
        × (r.host_id ≡ host_id)
        × ((outcome ≡ CreateOutcome.created r) ⊎ (outcome ≡ CreateOutcome.outcome_unknown))
  create-found f host_id plan_id db db' outcome e =
      elim (create-eq-ok c new_uuid clock host_id plan_id db db' outcome e) [
        | inl (r, found, kept) ↦
            let (same, made) =
              create_existing-found c new_uuid clock host_id plan_id r
                (looked c new_uuid clock host_id db).1 db' outcome kept in
            (
              r,
              resource_by_host-again c new_uuid clock host_id (before_create c new_uuid clock db)
                  db' (some r) same found,
              plan_of_host-found host_id plan_id (looked c new_uuid clock host_id db).1 db'
                  (ap (λ (d : FakeDb). d.provider_resources) same)
                  (create_existing-plan host_id plan_id r (looked c new_uuid clock host_id db).1 db'
                    outcome kept),
              resource_by_host-host c new_uuid clock f host_id (before_create c new_uuid clock db) r
                  found,
              inl made,
            )
        | inr (missing, made) ↦
            let (r, row, after, told) =
              create_new-eq-ok c new_uuid clock host_id plan_id
                (looked c new_uuid clock host_id db).1 db' outcome made in
            let absent = before_insert-none host_id db missing in
            let placed = paired _ (ok r) db' row after in
            let (found, mine) =
              insert_resource-found c new_uuid clock f host_id plan_id _ db' r absent placed in
            (r, found, insert_resource-plan host_id plan_id _ db' r absent placed, mine, told)
      ]

  -- With texts that are read back: if `create` answers, then `observe`, with no fault left for it,
  -- finds a resource of just that Host and changes nothing; it is the one that the answer names,
  -- unless the answer was lost.
  pub observe-create :
      IsFaithful c
      → (host_id : HostId) (plan_id : String) (db db' : FakeDb) (outcome : CreateOutcome)
      → create c new_uuid clock host_id plan_id db ≡ (ok outcome, db')
      → consume_fault "observe_transient_failure" db' ≡ (ok false, db')
      → (r : ProviderResource) × (observe c new_uuid clock host_id db'
          ≡ (ok (ProviderObservation.present r), db'))
        × (r.host_id ≡ host_id)
        × ((outcome ≡ CreateOutcome.created r) ⊎ (outcome ≡ CreateOutcome.outcome_unknown))
  observe-create f host_id plan_id db db' outcome e quiet =
      let (r, found, plan, mine, told) = create-found f host_id plan_id db db' outcome e in
      (r, observe-found c new_uuid clock host_id db' r quiet found, mine, told)

  -- With texts that are read back: once `create` has returned an outcome for a Host, a second
  -- `create` with no fault left for it changes nothing. With the same plan it answers a resource,
  -- the one that the first call named or, if its answer was lost, one of that Host; with another
  -- plan it is refused for good.
  pub create_again :
      IsFaithful c
      → (host_id : HostId) (plan_id asked : String) (db db' : FakeDb) (outcome : CreateOutcome)
      → create c new_uuid clock host_id plan_id db ≡ (ok outcome, db')
      → consume_fault "create_definitive_failure" db' ≡ (ok false, db')
      → consume_fault "create_transient_failure" db' ≡ (ok false, db')
      → (r : ProviderResource) × ((outcome ≡ CreateOutcome.created r)
          ⊎ ((outcome ≡ CreateOutcome.outcome_unknown) × (r.host_id ≡ host_id)))
        × (((plan_id ≡ asked)
              × (create c new_uuid clock host_id asked db' ≡ (ok (CreateOutcome.created r), db')))
            ⊎ ((plan_id ≢ asked)
                × (message : String) × (create c new_uuid clock host_id asked db'
                    ≡ (err (ProviderError.definitive message), db'))))
  create_again f host_id plan_id asked db db' outcome e steady quiet =
      let (r, found, plan, mine, told) = create-found f host_id plan_id db db' outcome e in
      (
        r,
        elim told [ inl named ↦ inl named | inr lost ↦ inr (lost, mine) ],
        create-existing host_id plan_id asked r db' steady quiet found plan,
      )
