-- ===== src/Storage/Ownership.antt =====
-- `Storage::connect` and `acquire_database_ownership` of storage.rs: one process owns a database.
-- The state is the lock files that are locked, by their paths; a process that ends, or drops its
-- `Storage`, unlocks its own. SQLite and the file system may fail for reasons of their own
-- (`ConnectFailures`).
pub mod Exclusive
use mc_control_plane.Base.{
  String, str_eq, ◌<>◌, Bool, true, false, ◌||◌, Option, none, some, List, [], ◌∷◌, Result, ok, err,
  if◌then◌else◌, ◌≡◌, ◌≢◌, refl, arith, eq_iff, ◌⊎◌, inl, inr, Bool-cases, Option-cases,
}

pub data ConnectError : Type 0 where
  create_directory open_lock lock_database open_database migrate : String → ConnectError
  already_owned : ConnectError

pub record ConnectFailures : Type 0 where
  pub create_directory : Option String
  pub open_lock : Option String
  pub lock_database : Option String
  pub open_database : Option String
  pub migrate : Option String

-- `database_lock_path`.
abbrev pub database_lock_path : String → String
database_lock_path path = path <> ".lock"

abbrev pub is_locked : String → List String → Bool
is_locked lock [] = false
is_locked lock (held ∷ locks) = str_eq held lock || is_locked lock locks

-- `File::unlock`, by the drop of the `File`.
abbrev pub unlock : String → List String → List String
unlock lock [] = []
unlock lock (held ∷ locks) = if str_eq held lock then locks else held ∷ unlock lock locks

abbrev pub failing : Option String → (String → ConnectError) → Result ConnectError (Unit {0})
failing none f = ok tt
failing (some e) f = err (f e)

-- `try_lock`: `WouldBlock` is another owner.
abbrev pub try_lock :
    Option String → String → List String → Result ConnectError (Unit {0}) × List String
try_lock (some e) lock locks = (err (ConnectError.lock_database e), locks)
try_lock none lock locks =
    if is_locked lock locks then (err ConnectError.already_owned, locks) else (ok tt, lock ∷ locks)

unfoldable pub acquire_database_ownership :
    Option String
    → Option String
    → String
    → List String
    → Result ConnectError (Unit {0}) × List String
acquire_database_ownership (some e) failure path locks = (err (ConnectError.open_lock e), locks)
acquire_database_ownership none failure path locks =
    try_lock failure (database_lock_path path) locks

-- What follows the lock; an error drops the lock.
abbrev pub opened :
    Result ConnectError (Unit {0})
    → String
    → List String
    → Result ConnectError (Unit {0}) × List String
opened (ok t) path locks = (ok tt, locks)
opened (err e) path locks = (err e, unlock (database_lock_path path) locks)

abbrev pub and_then :
    Result ConnectError (Unit {0}) → Result ConnectError (Unit {0}) → Result ConnectError (Unit {0})
and_then (ok t) r = r
and_then (err e) r = err e

abbrev pub owned :
    ConnectFailures
    → String
    → Result ConnectError (Unit {0}) × List String
    → Result ConnectError (Unit {0}) × List String
owned failures path (err e, locks) = (err e, locks)
owned failures path (ok t, locks) =
    opened
      (and_then (failing failures.open_database ConnectError.open_database)
        (failing failures.migrate ConnectError.migrate))
      path locks

abbrev pub after_directory :
    ConnectFailures
    → String
    → Result ConnectError (Unit {0})
    → List String
    → Result ConnectError (Unit {0}) × List String
after_directory failures path (err e) locks = (err e, locks)
after_directory failures path (ok t) locks =
    owned failures path
      (acquire_database_ownership failures.open_lock failures.lock_database path locks)

unfoldable pub connect :
    ConnectFailures → String → List String → Result ConnectError (Unit {0}) × List String
unfolding acquire_database_ownership
connect failures path locks =
    after_directory failures path (failing failures.create_directory ConnectError.create_directory)
      locks

-- No lock file is locked twice.
abbrev pub NoneTwice : List String → Type 0
NoneTwice [] = Unit
NoneTwice (lock ∷ locks) = (is_locked lock locks ≡ false) × NoneTwice locks

-- Processes connect to databases and let go of them, in any order and with any failures.
pub data Owners : List String → Type 0 where
  nobody : Owners []
  connected :
      (failures : ConnectFailures) (path : String) (locks locks' : List String)
      → locks' ≡ (connect failures path locks).1
      → Owners locks
      → Owners locks'
  released :
      (path : String) (locks locks' : List String)
      → locks' ≡ unlock (database_lock_path path) locks
      → Owners locks
      → Owners locks'
