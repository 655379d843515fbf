-- ===== src/Daemon/Shutdown.antt =====
-- What `main` of main.rs leaves when it ends.
use mc_control_plane.Base.{
  String, Option, none, some, List, Result, ok, err, ◌≡◌, refl, ap, inl, inr, ◌∙◌, ◌↔◌,
}
use mc_control_plane.Config.{Config}
use mc_control_plane.Storage.Ownership.{ConnectError, database_lock_path, unlock}
use mc_control_plane.Storage.Ownership.Exclusive.{TakesOrKeeps, connect-TakesOrKeeps, unlock_self}
use mc_control_plane.Rpc.Socket.{SocketIdentity, SocketError, FileSystem}
use mc_control_plane.Daemon.{
  DaemonError, TaskEnd, task_result, Exit, and, primary_result, Machine, Surroundings, with_socket,
  with_provider, with_storage, with_diagnostics, start, run_tasks, main,
}

module _ (around : Surroundings) (config : Config) (exit : Exit)
    (meanwhile : FileSystem → FileSystem) where
  -- The locks at the end of a run that goes on from the given part of the start.
  abbrev locks_after : Result DaemonError SocketIdentity × Machine → List String
  locks_after r = (run_tasks around config exit meanwhile r).1.locks

  socket-locks :
      (r : Result SocketError SocketIdentity × FileSystem) (m : Machine)
      → locks_after (with_socket around config r m)
        ≡ unlock (database_lock_path config.database_path) m.locks
  socket-locks (err e, path) m = refl
  socket-locks (ok guard, path) m = refl

  provider-locks :
      (o : Option String) (m : Machine)
      → locks_after (with_provider around config o m)
        ≡ unlock (database_lock_path config.database_path) m.locks
  provider-locks (some e) m = refl
  provider-locks none m = socket-locks _ m

  storage-locks :
      (r : Result ConnectError (Unit {0}) × List String) (m : Machine)
      → TakesOrKeeps config.database_path m.locks r
      → locks_after (with_storage around config r m) ≡ m.locks
  storage-locks (err e, locks) m (inl (fine, free, taken)) = absurd (cc fine)
  storage-locks (err e, locks) m (inr (e', failed, kept)) = kept
  storage-locks (ok t, locks) m (inr (e', failed, kept)) = absurd (cc failed)
  storage-locks (ok t, locks) m (inl (fine, free, taken)) =
      provider-locks around.provider (record m { locks = locks })
      ∙ ap (unlock (database_lock_path config.database_path)) taken
      ∙ unlock_self (database_lock_path config.database_path) m.locks

  -- However `main` ends, early by an error or after its tasks, the database locks are as they were
  -- before it.
  main-locks : (m : Machine) → (main around config exit meanwhile m).1.locks ≡ m.locks
  unfolding main start
  main-locks m = by_diagnostics around.diagnostics
    where
      by_diagnostics :
          (o : Option String) → locks_after (with_diagnostics around config o m) ≡ m.locks
      by_diagnostics (some e) = refl
      by_diagnostics none =
          storage-locks _ m (connect-TakesOrKeeps around.storage config.database_path m.locks)

-- A task that was joined, and whose own result is good.
abbrev pub IsDone : TaskEnd → Type 0
IsDone e = e ≡ TaskEnd.returned (ok tt)

-- The signal handler, where its branch was taken, and both tasks ended well.
abbrev pub AllFine : Exit → Type 0
AllFine (Exit.signal result controller_task rpc_task) =
    (result ≡ ok tt) × IsDone controller_task × IsDone rpc_task
AllFine (Exit.controller result rpc_task) = IsDone result × IsDone rpc_task
AllFine (Exit.rpc result controller_task) = IsDone result × IsDone controller_task

task_result_iff : (name : String) (e : TaskEnd) → (task_result name e ≡ ok tt) ↔ IsDone e
task_result_iff name (TaskEnd.returned r) = (λ h. ap TaskEnd.returned h, λ h. cc h)
task_result_iff name TaskEnd.join_error = (λ h. absurd (cc h), λ h. absurd (cc h))

and_iff : (a b : Result DaemonError (Unit {0})) → (and a b ≡ ok tt) ↔ ((a ≡ ok tt) × (b ≡ ok tt))
and_iff (ok t) b = (λ e. (refl, e), λ h. h.1)
and_iff (err x) b = (λ e. absurd (cc e), λ h. absurd (cc (h.0)))

and-IsDone :
    (first last : String) (a b : TaskEnd)
    → (and (task_result first a) (task_result last b) ≡ ok tt) ↔ (IsDone a × IsDone b)
and-IsDone first last a b =
    let both = and_iff (task_result first a) (task_result last b) in
    let ends_a = task_result_iff first a in
    let ends_b = task_result_iff last b in
    (
      λ e. (ends_a.0 ((both.0 e).0), ends_b.0 ((both.0 e).1)),
      λ h. both.1 (ends_a.1 (h.0), ends_b.1 (h.1)),
    )

primary_result_iff : (exit : Exit) → (primary_result exit ≡ ok tt) ↔ AllFine exit
unfolding primary_result
primary_result_iff (Exit.signal result controller_task rpc_task) =
    let outer =
      and_iff (and result (task_result "Host controller" controller_task))
        (task_result "local RPC" rpc_task) in
    let inner = and_iff result (task_result "Host controller" controller_task) in
    let ends_c = task_result_iff "Host controller" controller_task in
    let ends_r = task_result_iff "local RPC" rpc_task in
    (
      λ e.
          let (both, last) = outer.0 e in
          ((inner.0 both).0, ends_c.0 ((inner.0 both).1), ends_r.0 last),
      λ h. outer.1 (inner.1 (h.0, ends_c.1 (h.1)), ends_r.1 (h.2)),
    )
primary_result_iff (Exit.controller result rpc_task) =
    and-IsDone "Host controller" "local RPC" result rpc_task
primary_result_iff (Exit.rpc result controller_task) =
    and-IsDone "local RPC" "Host controller" result controller_task

module _ (around : Surroundings) (config : Config) (exit : Exit)
    (meanwhile : FileSystem → FileSystem) where
  IsStarted : Result DaemonError SocketIdentity → Type 0
  IsStarted r = (guard : SocketIdentity) × (r ≡ ok guard)

  run_tasks_iff :
      (r : Result DaemonError SocketIdentity × Machine)
      → ((run_tasks around config exit meanwhile r).0 ≡ ok tt) ↔ (IsStarted (r.0) × AllFine exit)
  unfolding IsStarted
  run_tasks_iff (err e, m) = (λ h. absurd (cc h), λ h. absurd (cc (h.0.1)))
  run_tasks_iff (ok guard, m) =
      (λ h. ((guard, refl), (primary_result_iff exit).0 h), λ h. (primary_result_iff exit).1 (h.1))

  -- However `main` ends, early by an error or after its tasks, the database locks are as they were
  -- before it; and it ends well just if it started, the signal handler, where its branch was taken,
  -- answered no error, and both tasks were joined and returned no error.
  pub main_lem :
      (m : Machine)
      → ((main around config exit meanwhile m).1.locks ≡ m.locks)
        × (((main around config exit meanwhile m).0 ≡ ok tt)
            ↔ (((guard : SocketIdentity) × ((start around config m).0 ≡ ok guard)) × AllFine exit))
  unfolding main IsStarted
  main_lem m = (main-locks around config exit meanwhile m, run_tasks_iff (start around config m))
