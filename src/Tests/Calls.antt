-- ===== src/Tests/Calls.antt =====
-- The calls of the provider at a concrete Host, with the fake provider.
use mc_control_plane.Base.{pos, false, [], ok, ◌≡◌, refl, find_row, ◌>>=◌}
use mc_control_plane.Provider.{HostProvider, ProviderObservation}
use mc_control_plane.Provider.Fake.Tables.{FakeDb, consume_fault}
use mc_control_plane.Provider.Fake.Resources.{fake_provider, observe, resource_by_host}
use mc_control_plane.Controller.World.{World}
use mc_control_plane.Controller.Reconcile.{reconcile_host}
use mc_control_plane.Controller.Deletion.{release_host}
use mc_control_plane.Controller.Calls.Creation.{Asked, reconcile_host-Asked}
use mc_control_plane.Tests.Sample.{sample_codec, context}
use mc_control_plane.Storage.Claims.{create_claim, validate_resources}
use mc_control_plane.Storage.Tables.{fetch_claim_row, insert_claim_row, claim_checks}
use mc_control_plane.Domain.{initial_claim}
use mc_control_plane.Controller.Deletion.Finalized.{IsFinalized, release_host-IsFinalized}
use mc_control_plane.Tests.Storage.{stored, one_claim}
use mc_control_plane.Tests.Provider.{new_host, bound_db, readings, uuids, fake_db}

abbrev pub fake : HostProvider FakeDb
fake = fake_provider sample_codec uuids uuids

-- The Host has been assigned, and the provider has no resource yet.
abbrev assigned : World sample_codec FakeDb
assigned = record {
  shared = record { db = bound_db; notified = false };
  provider = fake_db;
  requests = [];
}

reconcile_host-Asked_example :
    Asked sample_codec context fake new_host fake_db
      (reconcile_host sample_codec context fake stored new_host
        (pos 1000)
        readings
        assigned).1.provider
reconcile_host-Asked_example =
    reconcile_host-Asked sample_codec context fake stored new_host (pos 1000) readings assigned

-- The claim is being released, and the provider has no resource of its Host any more.
abbrev vanished : World sample_codec FakeDb
vanished = record {
  shared = record { db = one_claim; notified = false };
  provider = fake_db;
  requests = [];
}

seen_absent : (fake.observe 77 fake_db).0 ≡ ok ProviderObservation.absent
unfolding observe consume_fault find_row resource_by_host
seen_absent = refl

release_host-IsFinalized_example :
    IsFinalized sample_codec context fake stored
      (release_host sample_codec context fake stored (pos 1000) readings new_host vanished)
unfolding find_row create_claim ◌>>=◌ validate_resources fetch_claim_row initial_claim
    insert_claim_row claim_checks mc_control_plane.Domain.is_due
    mc_control_plane.Domain.default_retry mc_control_plane.Domain.initial_host
release_host-IsFinalized_example =
    release_host-IsFinalized sample_codec context fake stored new_host (pos 1000) readings vanished
      refl seen_absent refl
