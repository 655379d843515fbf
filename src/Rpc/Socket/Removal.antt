-- ===== src/Rpc/Socket/Removal.antt =====
-- When `prepare_socket_path` of rpc.rs removes what stands at the socket's path.
use mc_control_plane.Base.{
  true, not, ◌||◌, Option, none, some, Result, ok, err, ◌≡◌, refl, arith, ◌⊎◌, inl, inr, Bool-cases,
  String,
}
use mc_control_plane.Rpc.Socket.{
  identity_eq, Probe, Entry, FileSystem, SocketError, Others, Failures, metadata, remove_file,
  connect, remove_if_same, remove_socket_if_owned, after_probe, after_inspect, prepare_socket_path,
}

module _ (others : Others) where
  -- The states of the path that the calls of `prepare_socket_path` meet.
  abbrev pub inspected : FileSystem → FileSystem
  inspected fs = others.before_inspect fs

  abbrev pub probed : FileSystem → FileSystem
  probed fs = others.before_probe (inspected fs)

  abbrev pub reinspected : FileSystem → FileSystem
  reinspected fs = others.before_reinspect (probed fs)

  -- The path is as others left it.
  pub data IsLeft (fs fs' : FileSystem) : Type 0 where
    untouched : fs' ≡ fs → IsLeft fs fs'
    at_inspection : fs' ≡ inspected fs → IsLeft fs fs'
    at_probe : fs' ≡ probed fs → IsLeft fs fs'
    at_reinspection : fs' ≡ reinspected fs → IsLeft fs fs'
    at_removal : fs' ≡ others.before_remove (reinspected fs) → IsLeft fs fs'

  -- A socket stood at the path, refused a connection, and stood there still when it was inspected
  -- again.
  pub record IsStale (fs : FileSystem) : Type 0 where
    pub found : Entry
    pub current : Entry
    pub first : inspected fs ≡ some found
    pub refused : connect (probed fs) ≡ some Probe.refuses
    pub second : reinspected fs ≡ some current
    pub sockets : (found.is_socket ≡ true) × (current.is_socket ≡ true)
    pub same : identity_eq current.identity found.identity ≡ true

module _ (others : Others) (failures : Failures) where
  -- Either the path is as others left it, or a stale socket was removed.
  abbrev pub Spared : FileSystem → FileSystem → Type 0
  Spared fs fs' = IsLeft others fs fs' ⊎ ((fs' ≡ none) × IsStale others fs)

  remove_file-Spared :
      (fs : FileSystem)
      → IsStale others fs
      → Spared fs (remove_file failures.remove (others.before_remove (reinspected others fs))).1
  remove_file-Spared fs stale =
      by_failure failures.remove (others.before_remove (reinspected others fs)) refl
    where
      by_failure :
          (o : Option String) (before : FileSystem)
          → before ≡ others.before_remove (reinspected others fs)
          → Spared fs (remove_file o before).1
      by_failure (some e) before same = inl (IsLeft.at_removal same)
      by_failure none none same = inl (IsLeft.at_removal same)
      by_failure none (some entry) same = inr (refl, stale)

  remove_if_same-Spared :
      (fs : FileSystem) (found : Entry) (o : Option String)
      → inspected others fs ≡ some found
      → found.is_socket ≡ true
      → connect (probed others fs) ≡ some Probe.refuses
      → Spared fs
          (remove_if_same others failures found.identity
            (metadata o (reinspected others fs))
            (reinspected others fs)).1
  unfolding remove_if_same
  remove_if_same-Spared fs found (some e) first socket refused = inl (IsLeft.at_reinspection refl)
  remove_if_same-Spared fs found none first socket refused = by_entry (reinspected others fs) refl
    where
      by_entry :
          (seen : FileSystem)
          → seen ≡ reinspected others fs
          → Spared fs
              (remove_if_same others failures found.identity (ok seen) (reinspected others fs)).1
      by_entry none same = inl (IsLeft.at_reinspection refl)
      by_entry (some current) same =
          elim (Bool-cases
            (not current.is_socket || not (identity_eq current.identity found.identity))) [
              | inl other ↦ rw other (inl (IsLeft.at_reinspection refl))
              | inr ours ↦ rw ours (
                  remove_file-Spared fs (record {
                    found = found;
                    current = current;
                    first = first;
                    refused = refused;
                    second = ground (arith, same);
                    sockets = (socket, ground (arith, ours));
                    same = ground (arith, ours);
                  }))
            ]

  after_probe-Spared :
      (fs : FileSystem) (found : Entry) (p : Option Probe)
      → p ≡ connect (probed others fs)
      → inspected others fs ≡ some found
      → found.is_socket ≡ true
      → Spared fs (after_probe others failures found.identity p (probed others fs)).1
  unfolding after_probe remove_socket_if_owned
  after_probe-Spared fs found none e first socket = inl (IsLeft.at_probe refl)
  after_probe-Spared fs found (some Probe.accepts) e first socket = inl (IsLeft.at_probe refl)
  after_probe-Spared fs found (some Probe.hangs) e first socket = inl (IsLeft.at_probe refl)
  after_probe-Spared fs found (some Probe.refuses) e first socket =
      remove_if_same-Spared fs found failures.reinspect first socket (cc e)
  after_probe-Spared fs found (some (Probe.fails m)) e first socket = inl (IsLeft.at_probe refl)

  after_inspect-Spared :
      (fs seen : FileSystem)
      → seen ≡ inspected others fs
      → Spared fs (after_inspect others failures (ok seen) (inspected others fs)).1
  unfolding after_inspect
  after_inspect-Spared fs none same = inl (IsLeft.at_inspection refl)
  after_inspect-Spared fs (some found) same = elim (Bool-cases found.is_socket) [
    | inl socket ↦ rw socket (after_probe-Spared fs found _ refl (cc same) socket)
    | inr other ↦ rw other (inl (IsLeft.at_inspection refl))
  ]

  -- Whatever other processes do to the path meanwhile, and whichever calls fail: the path is left as
  -- they left it, or it is empty afterwards and a socket stood there that refused the connection of
  -- the probe and stood there still, with the same device and inode, when it was inspected again.
  pub prepare_socket_path-Spared :
      (fs : FileSystem) → Spared fs (prepare_socket_path others failures fs).1
  unfolding prepare_socket_path
  prepare_socket_path-Spared fs = by_directory failures.create_directory failures.inspect
    where
      by_directory :
          (o i : Option String)
          → Spared fs
              (elim o as (λ _. Result SocketError (Unit {0}) × FileSystem) [
                | some e ↦ (err (SocketError.create_directory e), fs)
                | none ↦
                    after_inspect others failures
                      (metadata i (inspected others fs))
                      (inspected others fs)
              ]).1
      by_directory (some e) i = inl (IsLeft.untouched refl)
      by_directory none none = after_inspect-Spared fs (inspected others fs) refl
      by_directory none (some e) = inl (IsLeft.at_inspection refl)
