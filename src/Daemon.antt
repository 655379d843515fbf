-- ===== src/Daemon.antt =====
-- crates/control-plane/src/main.rs: what `main` sets up, how it ends, and what is left then. The
-- state is what outlives the process: the database locks and what stands at the socket's path. The
-- controller and the server run as tasks; how they end is an argument.
pub mod Shutdown
use mc_control_plane.Base.{ℕ, String, Option, none, some, List, Result, ok, err}
use mc_control_plane.Config.{Config}
use mc_control_plane.Storage.Ownership.{
  ConnectError, ConnectFailures, database_lock_path, unlock, connect,
}
use mc_control_plane.Rpc.Socket.{SocketIdentity, FileSystem, SocketError, Others, Failures}
use mc_control_plane.Rpc.Socket.Guard.{bind, unbind}

pub data DaemonError : Type 0 where
  diagnostics provider shutdown_signal task : String → DaemonError
  storage : ConnectError → DaemonError
  socket : SocketError → DaemonError
  panicked : String → DaemonError

-- What a task ends with: its own result, or the `JoinError` of a panic.
pub data TaskEnd : Type 0 where
  returned : Result DaemonError (Unit {0}) → TaskEnd
  join_error : TaskEnd

-- `task_result`.
abbrev pub task_result : String → TaskEnd → Result DaemonError (Unit {0})
task_result task_name (TaskEnd.returned r) = r
task_result task_name TaskEnd.join_error = err (DaemonError.panicked task_name)

-- The branch of `select!` that is taken, with the ends that are awaited after the cancellation.
pub data Exit : Type 0 where
  signal : Result DaemonError (Unit {0}) → TaskEnd → TaskEnd → Exit
  controller : TaskEnd → TaskEnd → Exit
  rpc : TaskEnd → TaskEnd → Exit

-- `Result::and`.
abbrev pub and :
    Result DaemonError (Unit {0}) → Result DaemonError (Unit {0}) → Result DaemonError (Unit {0})
and (ok t) r = r
and (err e) r = err e

unfoldable pub primary_result : Exit → Result DaemonError (Unit {0})
primary_result (Exit.signal result controller_task rpc_task) =
    and (and result (task_result "Host controller" controller_task))
      (task_result "local RPC" rpc_task)
primary_result (Exit.controller result rpc_task) =
    and (task_result "Host controller" result) (task_result "local RPC" rpc_task)
primary_result (Exit.rpc result controller_task) =
    and (task_result "local RPC" result) (task_result "Host controller" controller_task)

pub record Machine : Type 0 where
  pub locks : List String
  pub socket_path : FileSystem

-- What the environment decides: the failures, with those of the two calls that the end of the server
-- makes, and the identity of the socket's file.
pub record Surroundings : Type 0 where
  pub diagnostics : Option String
  pub storage : ConnectFailures
  pub provider : Option String
  pub others : Others
  pub socket : Failures
  pub fresh : SocketIdentity
  pub unbind_inspect : Option String
  pub unbind_remove : Option String
  pub before_unbind_remove : FileSystem → FileSystem

-- The end of a process that got as far as the storage: the lock is dropped.
abbrev pub release : Config → Machine → Machine
release config m = record m { locks = unlock (database_lock_path config.database_path) m.locks }

module _ (around : Surroundings) (config : Config) where
  abbrev pub with_socket :
      Result SocketError SocketIdentity × FileSystem
      → Machine
      → Result DaemonError SocketIdentity × Machine
  with_socket (err e, path) m =
      (err (DaemonError.socket e), release config (record m { socket_path = path }))
  with_socket (ok guard, path) m = (ok guard, record m { socket_path = path })

  abbrev pub with_provider : Option String → Machine → Result DaemonError SocketIdentity × Machine
  with_provider (some e) m = (err (DaemonError.provider e), release config m)
  with_provider none m =
      with_socket (bind around.others around.socket around.fresh config.socket_mode m.socket_path) m

  abbrev pub with_storage :
      Result ConnectError (Unit {0}) × List String
      → Machine
      → Result DaemonError SocketIdentity × Machine
  with_storage (err e, locks) m = (err (DaemonError.storage e), record m { locks = locks })
  with_storage (ok t, locks) m = with_provider around.provider (record m { locks = locks })

  abbrev pub with_diagnostics :
      Option String → Machine → Result DaemonError SocketIdentity × Machine
  with_diagnostics (some e) m = (err (DaemonError.diagnostics e), m)
  with_diagnostics none m = with_storage (connect around.storage config.database_path m.locks) m

  -- `main` up to the two tasks.
  unfoldable pub start : Machine → Result DaemonError SocketIdentity × Machine
  start m = with_diagnostics around.diagnostics m

  -- The tasks run, the server unbinds its socket, and `storage.close` and the drops follow.
  abbrev pub finished :
      Exit
      → (FileSystem → FileSystem)
      → SocketIdentity
      → Machine
      → Result DaemonError (Unit {0}) × Machine
  finished exit meanwhile guard m = (
    primary_result exit,
    release config (record m {
      socket_path =
          unbind around.unbind_inspect around.unbind_remove around.before_unbind_remove guard
            (meanwhile m.socket_path);
    }),
  )

  abbrev pub run_tasks :
      Exit
      → (FileSystem → FileSystem)
      → Result DaemonError SocketIdentity × Machine
      → Result DaemonError (Unit {0}) × Machine
  run_tasks exit meanwhile (err e, m) = (err e, m)
  run_tasks exit meanwhile (ok guard, m) = finished exit meanwhile guard m

  unfoldable pub main :
      Exit → (FileSystem → FileSystem) → Machine → Result DaemonError (Unit {0}) × Machine
  unfolding start primary_result
  main exit meanwhile m = run_tasks exit meanwhile (start m)
