-- ===== src/Tests/Daemon.antt =====
-- The owners of a database and the daemon at concrete paths.
use mc_control_plane.Base.{String, none, List, [], ◌∷◌, ok, ◌≡◌, ◌↔◌, refl}
use mc_control_plane.Config.{Config, LogFormat}
use mc_control_plane.Storage.Ownership.{ConnectFailures, connect, NoneTwice, Owners}
use mc_control_plane.Storage.Ownership.Exclusive.{TakesOrKeeps, Owners_lem}
use mc_control_plane.Rpc.Socket.{SocketIdentity}
use mc_control_plane.Daemon.{TaskEnd, Exit, Machine, Surroundings, start, main}
use mc_control_plane.Daemon.Shutdown.{AllFine, main_lem}
use mc_control_plane.Tests.Socket.{quiet, no_failures, fresh}

abbrev no_connect_failures : ConnectFailures
no_connect_failures = record {
  create_directory = none;
  open_lock = none;
  lock_database = none;
  open_database = none;
  migrate = none;
}

abbrev owned : List String
owned = "a.db.lock" ∷ []

owned_after : owned ≡ (connect no_connect_failures "a.db" []).1
unfolding connect
owned_after = refl

owned-Owners : Owners owned
owned-Owners = Owners.connected no_connect_failures "a.db" [] owned owned_after Owners.nobody

Owners_lem_example :
    NoneTwice owned × TakesOrKeeps "a.db" owned (connect no_connect_failures "a.db" owned)
Owners_lem_example = Owners_lem owned owned-Owners no_connect_failures "a.db"

abbrev config : Config
config = record {
  socket_path = "control-plane.sock";
  database_path = "b.db";
  fake_provider_database_path = "fake.db";
  socket_mode = 432;
  reconcile_interval_ms = 5000;
  log_format = LogFormat.json;
}

abbrev around : Surroundings
around = record {
  diagnostics = none;
  storage = no_connect_failures;
  provider = none;
  others = quiet;
  socket = no_failures;
  fresh = fresh;
  unbind_inspect = none;
  unbind_remove = none;
  before_unbind_remove = λ fs. fs;
}

abbrev machine : Machine
machine = record { locks = owned; socket_path = none }

abbrev exit : Exit
exit = Exit.signal (ok tt) (TaskEnd.returned (ok tt)) TaskEnd.join_error

main_lem_example :
    ((main around config exit (λ fs. fs) machine).1.locks ≡ owned)
    × (((main around config exit (λ fs. fs) machine).0 ≡ ok tt) ↔ (
        ((guard : SocketIdentity) × ((start around config machine).0 ≡ ok guard)) × AllFine exit))
main_lem_example = main_lem around config exit (λ fs. fs) machine
