-- ===== src/Tests/Provider.antt =====
-- The fake provider and the deletion at concrete inputs.
use mc_control_plane.Base.{
  ap, ℕ, String, ◌+◌, pos, ◌≤ℤ◌, true, false, is_some, List, [], ◌∷◌, ◌≡◌, ◌≢◌, ◌⊎◌, refl, arith,
  inl, inr, ok, err, find_row, ◌>>=◌, count_rows,
}
use mc_control_plane.Base.Table.Least.{IsRow}
use mc_control_plane.Domain.{HostRecord, initial_host, default_retry, initial_claim}
use mc_control_plane.Storage.Tables.{
  Db, claim_has_id, fetch_claim_row, insert_claim_row, claim_checks,
}
use mc_control_plane.Storage.Hosts.Ensure.{ensure_host}
use mc_control_plane.Storage.Claims.{validate_resources, create_claim}
use mc_control_plane.Provider.{
  ProviderError, ProviderLifecycle, ProviderResource, ProviderObservation, CreateOutcome,
  DeleteOutcome, HostProvider,
}
use mc_control_plane.Provider.Fake.Tables.{PlanRow, FakeDb, consume_fault}
use mc_control_plane.Provider.Fake.Plans.{catalog, select_plan}
use mc_control_plane.Provider.Fake.Plans.Cheapest.{price, IsEnough, IsAnswer, select_plan_lem}
use mc_control_plane.Provider.Fake.Resources.{observe, create, delete, fake_provider}
use mc_control_plane.Provider.Fake.Resources.Found.{observe-delete}
use mc_control_plane.Provider.Fake.Resources.Created.{observe-create, create_again}
use mc_control_plane.Controller.World.{Readings, World}
use mc_control_plane.Controller.Deletion.{release_host}
use mc_control_plane.Controller.Deletion.Release.{release_host-IsPresent}
use mc_control_plane.Tests.Sample.{sample_codec, sample_codec-IsFaithful, small, context}
use mc_control_plane.Tests.Storage.{one_claim, stored}

abbrev pub uuids : ℕ → ℕ
uuids n = n + 2

abbrev pub fake_db : FakeDb
fake_db = record { plans = catalog; provider_resources = []; faults = []; readings = 0 }

abbrev large_plan : PlanRow
large_plan = record {
  id = "large";
  vcpus = pos 8;
  memory_bytes = pos 9000;
  storage_bytes = pos 9000;
  hourly_price_micros = pos 40;
  enabled = pos 1;
}

abbrev small_plan : PlanRow
small_plan = record {
  id = "small";
  vcpus = pos 2;
  memory_bytes = pos 4096;
  storage_bytes = pos 8192;
  hourly_price_micros = pos 10;
  enabled = pos 1;
}

abbrev two_plans : FakeDb
two_plans = record fake_db { plans = large_plan ∷ small_plan ∷ [] }

large_plan-IsEnough : IsEnough small.resources large_plan
large_plan-IsEnough = record {
  enabled = refl;
  vcpus = omega arith;
  memory = omega arith;
  storage = omega arith;
}

select_plan_lem_example :
    (r : PlanRow) × IsRow r two_plans.plans
    × IsEnough small.resources r
    × (price r ≤ℤ price large_plan)
    × IsAnswer r two_plans (select_plan small.resources two_plans)
select_plan_lem_example =
    select_plan_lem small.resources two_plans large_plan (omega arith) (omega arith) (inl refl)
      large_plan-IsEnough

abbrev made : ProviderResource
made = record { id = "fake-II"; host_id = 77; lifecycle = ProviderLifecycle.ready }

abbrev created_db : FakeDb
created_db = (create sample_codec uuids uuids 77 "small" two_plans).1

observe-create_example :
    (r : ProviderResource) × (observe sample_codec uuids uuids 77 created_db
      ≡ (ok (ProviderObservation.present r), created_db))
    × (r.host_id ≡ 77)
    × ((CreateOutcome.created made ≡ CreateOutcome.created r)
        ⊎ (CreateOutcome.created made ≡ CreateOutcome.outcome_unknown))
unfolding create consume_fault find_row mc_control_plane.Provider.Fake.Resources.resource_by_host
    mc_control_plane.Base.count_rows
observe-create_example =
    observe-create sample_codec uuids uuids sample_codec-IsFaithful 77 "small" two_plans created_db
      (CreateOutcome.created made) refl refl

abbrev small_id : String
small_id = "small"

abbrev large_id : String
large_id = "large"

create_again_example :
    (r : ProviderResource) × ((CreateOutcome.created made ≡ CreateOutcome.created r)
      ⊎ ((CreateOutcome.created made ≡ CreateOutcome.outcome_unknown) × (r.host_id ≡ 77)))
    × (((small_id ≡ large_id)
          × (create sample_codec uuids uuids 77 large_id created_db
              ≡ (ok (CreateOutcome.created r), created_db)))
        ⊎ ((small_id ≢ large_id)
            × (message : String) × (create sample_codec uuids uuids 77 large_id created_db
                ≡ (err (ProviderError.definitive message), created_db))))
unfolding create consume_fault find_row mc_control_plane.Provider.Fake.Resources.resource_by_host
    mc_control_plane.Base.count_rows
create_again_example =
    create_again sample_codec uuids uuids sample_codec-IsFaithful 77 small_id large_id two_plans
      created_db (CreateOutcome.created made) refl refl refl

observe-delete_example :
    observe sample_codec uuids uuids 77 (delete sample_codec uuids uuids 77 created_db).1
    ≡ (ok ProviderObservation.absent, (delete sample_codec uuids uuids 77 created_db).1)
unfolding delete consume_fault find_row create
    mc_control_plane.Provider.Fake.Resources.resource_by_host mc_control_plane.Base.count_rows
observe-delete_example =
    observe-delete sample_codec uuids uuids 77 created_db
      (delete sample_codec uuids uuids 77 created_db).1 DeleteOutcome.deleted refl refl

-- The claim 1 is bound to the Host 77.
abbrev pub bound_db : Db sample_codec
bound_db = (ensure_host sample_codec 1 "small" small.resources 77 8 one_claim).1

abbrev pub new_host : HostRecord
new_host = record {
  resource = initial_host 77 1 small.resources 8;
  provider_plan_id = "small";
  retry = default_retry;
}

abbrev pub readings : Readings
readings = record { now = 9; fresh = 78 }

-- The provider still has the resource of the Host.
abbrev pub world : World sample_codec FakeDb
world = record {
  shared = record { db = one_claim; notified = false };
  provider = created_db;
  requests = [];
}

seen :
    observe sample_codec uuids uuids 77 created_db
    ≡ (ok (ProviderObservation.present made), created_db)
unfolding observe create consume_fault find_row
    mc_control_plane.Provider.Fake.Resources.resource_by_host count_rows
seen = refl

release_host-IsPresent_example :
    is_some (
      find_row
        (claim_has_id "I")
        (release_host sample_codec context
          (fake_provider sample_codec uuids uuids)
          stored
          (pos 1000)
          readings
          new_host
          world).1.shared.db.host_claims)
    ≡ true
unfolding initial_host find_row create_claim ◌>>=◌ validate_resources fetch_claim_row initial_claim
    insert_claim_row claim_checks
release_host-IsPresent_example =
    release_host-IsPresent sample_codec context (fake_provider sample_codec uuids uuids) stored
      new_host (pos 1000) readings world "I" (λ e. cc (ap (λ p. p.0) seen, e)) refl
