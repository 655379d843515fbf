-- ===== src/Tests/Controller.antt =====
-- The controller and the RPC server at concrete inputs, with the fake provider.
use mc_control_plane.Base.{
  ℕ, ◌+◌, ℤ, pos, ◌≤ℤ◌, Bool, true, false, ◌&&◌, ◌||◌, none, some, List, [], ◌∷◌, ◌≡◌, refl, arith,
  Result, ok, err,
}
use mc_control_plane.Protocol.{ConditionStatus}
use mc_control_plane.AppErrors.{AnyhowError, AppError, into_rpc_error}
use mc_control_plane.Domain.{
  HostClaimRecord, HostRecord, is_due, i64_max, default_retry, initial_host,
}
use mc_control_plane.Storage.Invariant.Consistent.{IsConsistent}
use mc_control_plane.Storage.Invariant.Checked.{IsChecked}
use mc_control_plane.Provider.{ProviderLifecycle, ProviderResource, ProviderError, HostProvider}
use mc_control_plane.Provider.Fake.Tables.{FakeDb}
use mc_control_plane.Provider.Fake.Plans.{catalog}
use mc_control_plane.Provider.Fake.Resources.{fake_provider}
use mc_control_plane.Rpc.{Request, Shared, handle, handle_all}
use mc_control_plane.Rpc.Answers.{
  asks_change, is_ok, handle-err, handle-notified, into_rpc_error-code,
}
use mc_control_plane.Controller.Marks.{schedule_claim_provider_error, schedule_host_retry_only}
use mc_control_plane.Controller.Marks.Observation.{
  apply_provider_observation, provider_observation_is_stable,
}
use mc_control_plane.Controller.Outcomes.Observed.{
  condition_status, apply_provider_observation_lem, schedule-is_due,
}
use mc_control_plane.Controller.World.{World}
use mc_control_plane.Controller.Loop.{wake_up}
use mc_control_plane.Controller.Preserved.Permits.{wake_up-notified}
use mc_control_plane.Controller.Service.{
  Clock, Reachable, Reachable-IsConsistent, Reachable-IsChecked,
}
use mc_control_plane.Tests.Sample.{sample_codec, empty_db, small, context}
use mc_control_plane.Tests.Storage.{empty_db-IsConsistent, stored}

abbrev fake : HostProvider FakeDb
fake = fake_provider sample_codec (λ n. n + 100) (λ n. n + 50)

abbrev fake_db : FakeDb
fake_db = record { plans = catalog; provider_resources = []; faults = []; readings = 0 }

abbrev pub clock : Clock
clock n = (pos 1000, λ id. record { now = 10; fresh = 77 })

abbrev start : Shared sample_codec
start = record { db = empty_db; notified = true }

abbrev create_one : Request
create_one = Request.host_claim_create 1 small 5

-- A request creates a claim; a round then works on it, while another request deletes it.
abbrev after_request : Shared sample_codec
after_request = (handle sample_codec context create_one start).1

abbrev after_round : Shared sample_codec
after_round =
    (wake_up sample_codec context fake true clock (record {
      shared = after_request;
      provider = fake_db;
      requests = [] ∷ (Request.host_claim_delete 1 12 ∷ []) ∷ [];
    })).shared

abbrev provider_after : FakeDb
provider_after =
    (wake_up sample_codec context fake true clock (record {
      shared = after_request;
      provider = fake_db;
      requests = [] ∷ (Request.host_claim_delete 1 12 ∷ []) ∷ [];
    })).provider

permit : after_request.notified ≡ true
unfolding handle mc_control_plane.Storage.Claims.create_claim mc_control_plane.Base.◌>>=◌
    mc_control_plane.Storage.Claims.validate_resources
    mc_control_plane.Storage.Tables.fetch_claim_row mc_control_plane.Base.find_row
    mc_control_plane.Domain.initial_claim mc_control_plane.Storage.Tables.insert_claim_row
    mc_control_plane.Storage.Tables.claim_checks
permit = handle-notified sample_codec context create_one start

run : Reachable sample_codec context fake empty_db after_round provider_after
run =
    Reachable.notified_round after_request fake_db ([] ∷ (Request.host_claim_delete 1 12 ∷ []) ∷ [])
      clock permit (Reachable.requested start fake_db create_one (Reachable.started fake_db))

Reachable-IsConsistent_example : IsConsistent after_round.db
Reachable-IsConsistent_example =
    Reachable-IsConsistent sample_codec context fake empty_db empty_db-IsConsistent after_round
      provider_after run

Reachable-IsChecked_example : IsChecked after_round.db
Reachable-IsChecked_example =
    Reachable-IsChecked sample_codec context fake empty_db (record { claims = tt; hosts = tt })
      after_round provider_after run

-- The request is handled once the round has taken the permit, and before it reads the claims.
abbrev met : World sample_codec FakeDb
met = record { shared = start; provider = fake_db; requests = (create_one ∷ []) ∷ [] }

met_permit :
    (handle_all sample_codec context
      (create_one ∷ [])
      (record { db = empty_db; notified = false })).notified
    ≡ true
unfolding handle_all handle mc_control_plane.Storage.Claims.create_claim mc_control_plane.Base.◌>>=◌
    mc_control_plane.Storage.Claims.validate_resources
    mc_control_plane.Storage.Tables.fetch_claim_row mc_control_plane.Base.find_row
    mc_control_plane.Domain.initial_claim mc_control_plane.Storage.Tables.insert_claim_row
    mc_control_plane.Storage.Tables.claim_checks
met_permit =
    handle-notified sample_codec context create_one (record { db = empty_db; notified = false })

wake_up-notified_example : (wake_up sample_codec context fake true clock met).shared.notified ≡ true
wake_up-notified_example =
    wake_up-notified sample_codec context fake true clock start fake_db (create_one ∷ []) []
      met_permit

abbrev host : HostRecord
host = record {
  resource = initial_host 77 1 small.resources 6;
  provider_plan_id = "fake-2c-4g-40g";
  retry = default_retry;
}

abbrev resource : ProviderResource
resource = record { id = "fake-1"; host_id = 77; lifecycle = ProviderLifecycle.ready }

apply_provider_observation_lem_example :
    (condition_status "Ready"
        (apply_provider_observation sample_codec resource 9
          (stored, host)).0.resource.status.conditions
      ≡ some ConditionStatus.is_true)
    × (condition_status "Accepted"
          (apply_provider_observation sample_codec resource 9
            (stored, host)).0.resource.status.conditions
        ≡ some ConditionStatus.is_true)
    × (condition_status "Bound"
          (apply_provider_observation sample_codec resource 9
            (stored, host)).0.resource.status.conditions
        ≡ some ConditionStatus.is_true)
    × (condition_status "Ready"
          (apply_provider_observation sample_codec resource 9
            (stored, host)).1.resource.status.conditions
        ≡ some ConditionStatus.is_true)
    × (provider_observation_is_stable
          (apply_provider_observation sample_codec resource 9 (stored, host)).1
          resource
        ≡ true)
apply_provider_observation_lem_example =
    apply_provider_observation_lem sample_codec resource 9 stored host

schedule-is_due_example :
    (is_due
        (schedule_claim_provider_error
          (ProviderError.transient "timeout")
          (pos 1000)
          9
          stored).retry
        (pos 1000)
      ≡ false)
    × (is_due
          (schedule_host_retry_only (ProviderError.transient "timeout") (pos 1000) host).retry
          (pos 1000)
        ≡ false)
schedule-is_due_example =
    schedule-is_due (ProviderError.transient "timeout") 1000 9 stored host (omega arith)

handle-err_example : (handle sample_codec context (Request.host_claim_get 4) start).1 ≡ start
unfolding handle mc_control_plane.Storage.Claims.get_claim mc_control_plane.Base.◌>>=◌
    mc_control_plane.Storage.Tables.fetch_claim_row mc_control_plane.Base.find_row
handle-err_example =
    handle-err sample_codec context (Request.host_claim_get 4) start
      (into_rpc_error (AppError.not_found "HostClaim" (sample_codec.uuid_to_string 4))) refl

handle-notified_example : (handle sample_codec context create_one start).1.notified ≡ (
    asks_change create_one && is_ok (handle sample_codec context create_one start).0
    || start.notified)
handle-notified_example = handle-notified sample_codec context create_one start

into_rpc_error-code_example :
    ((into_rpc_error (AppError.invalid_argument "a")).error_data.kind
      ≡ (into_rpc_error (AppError.invalid_argument "b")).error_data.kind)
    × (into_rpc_error (AppError.internal AnyhowError.host_row_missing)
        ≡ into_rpc_error (AppError.internal (AnyhowError.external "disk")))
unfolding into_rpc_error
into_rpc_error-code_example =
    into_rpc_error-code (AppError.invalid_argument "a") (AppError.invalid_argument "b")
      AnyhowError.host_row_missing (AnyhowError.external "disk") refl
