-- ===== src/Storage/Ownership/Exclusive.antt =====
-- Who owns the databases that processes connect to by storage.rs.
use mc_control_plane.Base.{
  String, Bool, true, false, Option, none, some, List, [], ◌∷◌, Result, ok, err, if◌then◌else◌, ◌≡◌,
  refl, arith, eq_iff, ◌⊎◌, inl, inr,
}
use mc_control_plane.Storage.Ownership.{
  ConnectError, ConnectFailures, database_lock_path, is_locked, unlock, failing,
  acquire_database_ownership, opened, owned, after_directory, connect, NoneTwice, Owners,
}

-- The lock is taken and nobody had it, or the attempt fails and the locks are as they were.
abbrev pub TakesOrKeeps :
    String → List String → Result ConnectError (Unit {0}) × List String → Type 0
TakesOrKeeps path locks r =
    ((r.0 ≡ ok tt)
      × (is_locked (database_lock_path path) locks ≡ false)
      × (r.1 ≡ database_lock_path path ∷ locks))
    ⊎ ((e : ConnectError) × (r.0 ≡ err e) × (r.1 ≡ locks))

pub unlock_self : (lock : String) (locks : List String) → unlock lock (lock ∷ locks) ≡ locks
unlock_self lock locks = ground (arith, eq_iff lock lock)

module _ (failures : ConnectFailures) (path : String) (locks : List String) where
  opened-TakesOrKeeps :
      (r : Result ConnectError (Unit {0}))
      → is_locked (database_lock_path path) locks ≡ false
      → TakesOrKeeps path locks (opened r path (database_lock_path path ∷ locks))
  opened-TakesOrKeeps (ok t) free = inl (refl, free, refl)
  opened-TakesOrKeeps (err e) free = inr (e, refl, unlock_self (database_lock_path path) locks)

  acquired-TakesOrKeeps :
      (open_lock lock_database : Option String)
      → TakesOrKeeps path locks
          (owned failures path (acquire_database_ownership open_lock lock_database path locks))
  unfolding acquire_database_ownership
  acquired-TakesOrKeeps (some e) l = inr (ConnectError.open_lock e, refl, refl)
  acquired-TakesOrKeeps none (some e) = inr (ConnectError.lock_database e, refl, refl)
  acquired-TakesOrKeeps none none = by_lock (is_locked (database_lock_path path) locks) refl
    where
      by_lock :
          (b : Bool)
          → is_locked (database_lock_path path) locks ≡ b
          → TakesOrKeeps path locks (
              owned failures path (
                if b
                then (err ConnectError.already_owned, locks)
                else (ok tt, database_lock_path path ∷ locks)))
      by_lock true taken = inr (ConnectError.already_owned, refl, refl)
      by_lock false free = opened-TakesOrKeeps _ free

  pub connect-TakesOrKeeps : TakesOrKeeps path locks (connect failures path locks)
  unfolding connect
  connect-TakesOrKeeps = by_directory failures.create_directory
    where
      by_directory :
          (o : Option String)
          → TakesOrKeeps path locks
              (after_directory failures path (failing o ConnectError.create_directory) locks)
      by_directory (some e) = inr (ConnectError.create_directory e, refl, refl)
      by_directory none = acquired-TakesOrKeeps failures.open_lock failures.lock_database

is_locked-unlock :
    (lock other : String) (locks : List String)
    → is_locked lock locks ≡ false
    → is_locked lock (unlock other locks) ≡ false
is_locked-unlock lock other [] h = refl
is_locked-unlock lock other (held ∷ locks) h = ground (arith, is_locked-unlock lock other locks)

unlock-NoneTwice :
    (lock : String) (locks : List String) → NoneTwice locks → NoneTwice (unlock lock locks)
unlock-NoneTwice lock [] v = tt
unlock-NoneTwice lock (held ∷ locks) v =
    ground (arith, unlock-NoneTwice lock locks, is_locked-unlock held lock locks)

Owners-NoneTwice : (locks : List String) → Owners locks → NoneTwice locks
Owners-NoneTwice _ Owners.nobody = tt
Owners-NoneTwice _ (Owners.connected failures path locks locks' same o) =
    let v = Owners-NoneTwice locks o in
    elim (connect-TakesOrKeeps failures path locks) [
      | inl (fine, free, taken) ↦ rw (same, taken) (free, v)
      | inr (e, failed, kept) ↦ rw (same, kept) v
    ]
Owners-NoneTwice _ (Owners.released path locks locks' same o) =
    rw same (unlock-NoneTwice (database_lock_path path) locks (Owners-NoneTwice locks o))

-- In whatever order processes connect and let go, and whichever calls fail: no database has two
-- owners, and a further `connect` takes the lock of a database that nobody owns or fails and leaves
-- the locks as they are.
pub Owners_lem :
    (locks : List String)
    → Owners locks
    → (failures : ConnectFailures) (path : String)
    → NoneTwice locks × TakesOrKeeps path locks (connect failures path locks)
Owners_lem locks o failures path =
    (Owners-NoneTwice locks o, connect-TakesOrKeeps failures path locks)
