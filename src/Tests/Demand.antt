-- ===== src/Tests/Demand.antt =====
-- A claim with its Host, and a run in which another claim is created and deleted.
use mc_control_plane.Base.{true, pos, none, List, [], ◌∷◌, refl, find_row}
use mc_control_plane.Base.Table.All.{All}
use mc_control_plane.Storage.Rows.{ClaimRow, HostRow}
use mc_control_plane.Storage.Tables.{Db}
use mc_control_plane.Storage.Invariant.Consistent.{IsConsistent}
use mc_control_plane.Storage.Invariant.Demand.{IsWritten}
use mc_control_plane.Storage.Invariant.Standing.{Other}
use mc_control_plane.Provider.Fake.Tables.{FakeDb}
use mc_control_plane.Rpc.{Request, Shared, handle}
use mc_control_plane.Controller.World.{World}
use mc_control_plane.Controller.Loop.{wake_up}
use mc_control_plane.Controller.Service.{Reachable, Asks}
use mc_control_plane.Controller.Service.Demand.{
  ClaimStands, HostStands, Reachable-ClaimStands, Reachable-HostStands,
}
use mc_control_plane.Tests.Sample.{sample_codec, sample_codec-IsFaithful, small, context}
use mc_control_plane.Tests.Calls.{fake}
use mc_control_plane.Tests.Controller.{clock}
use mc_control_plane.Tests.Provider.{fake_db}

abbrev claim_row : ClaimRow sample_codec
claim_row = record {
  id = "I";
  generation = pos 1;
  created_at = "III";
  deletion_timestamp = none;
  vcpus = pos 2;
  memory_bytes = pos 4096;
  storage_bytes = pos 8192;
  observed_generation = pos 1;
  conditions_json = [];
  retry_attempt = pos 0;
  next_reconcile_at_unix_ms = none;
  last_error_kind = none;
  last_error_message = none;
}

abbrev host_row : HostRow sample_codec
host_row = record {
  id = "II";
  claim_id = "I";
  created_at = "IIII";
  phase = "pending";
  provider_plan_id = "fake-2c-4g-40g";
  vcpus = pos 2;
  memory_bytes = pos 4294967296;
  storage_bytes = pos 42949672960;
  provider_resource_id = none;
  observed_at = none;
  conditions_json = [];
  retry_attempt = pos 0;
  next_reconcile_at_unix_ms = none;
  last_error_kind = none;
  last_error_message = none;
}

abbrev assigned_db : Db sample_codec
assigned_db = record { host_claims = claim_row ∷ []; hosts = host_row ∷ [] }

assigned_db-IsConsistent : IsConsistent assigned_db
unfolding find_row
assigned_db-IsConsistent = record {
  claim_ids = (refl, tt);
  host_ids = (refl, tt);
  one_host = (refl, tt);
  owned = (refl, tt);
  unshared = (refl, tt);
}

assigned_db-IsWritten : All IsWritten assigned_db.host_claims
assigned_db-IsWritten = ((1, refl), tt)

-- While a round goes on, another claim is created, and then its deletion is asked for.
abbrev batches : List (List Request)
batches =
    (Request.host_claim_create 2 small 5 ∷ [])
    ∷ (Request.host_claim_delete 2 12 ∷ Request.host_claim_list ∷ [])
    ∷ []

abbrev begun : Shared sample_codec
begun = record { db = assigned_db; notified = true }

abbrev round : World sample_codec FakeDb
round =
    wake_up sample_codec context fake true clock
      (record { shared = begun; provider = fake_db; requests = batches })

abbrev run :
    Reachable sample_codec context fake assigned_db
      (handle sample_codec context (Request.host_claim_get 1) round.shared).1
      round.provider
run =
    Reachable.requested round.shared round.provider (Request.host_claim_get 1)
      (Reachable.notified_round begun fake_db batches clock refl (Reachable.started fake_db))

run-Asks : Asks (Other 1) _ _ run
run-Asks = (tt, (((tt, tt), (((λ e. absurd (cc e)), (tt, tt)), tt)), tt))

Reachable-ClaimStands_example :
    ClaimStands 1 claim_row
      (handle sample_codec context (Request.host_claim_get 1) round.shared).1.db
unfolding find_row
Reachable-ClaimStands_example =
    Reachable-ClaimStands sample_codec context fake assigned_db sample_codec-IsFaithful
      assigned_db-IsConsistent assigned_db-IsWritten 1 claim_row refl refl _ _ run run-Asks

Reachable-HostStands_example :
    HostStands 1 host_row (handle sample_codec context (Request.host_claim_get 1) round.shared).1.db
unfolding find_row
Reachable-HostStands_example =
    Reachable-HostStands sample_codec context fake assigned_db sample_codec-IsFaithful
      assigned_db-IsConsistent assigned_db-IsWritten 1 claim_row refl refl host_row refl _ _ run
      run-Asks
