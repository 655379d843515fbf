-- ===== src/Rpc/Socket/Guard.antt =====
-- `bind` of rpc.rs, and the end of the server: the listener is closed and `SocketPathGuard` is
-- dropped.
use mc_control_plane.Base.{ℕ, true, not, Option, none, some, Result, ok, err, if◌then◌else◌, String}
use mc_control_plane.Rpc.Socket.{
  SocketIdentity, identity_eq, Probe, Entry, FileSystem, SocketError, Others, Failures, remove_file,
  prepare_socket_path, socket_identity,
}

-- `Drop` of the guard: the file is removed if it is the one that was bound; failures are logged.
unfoldable pub remove_owned :
    Option String
    → (FileSystem → FileSystem)
    → SocketIdentity
    → Option Entry
    → FileSystem
    → FileSystem
remove_owned remove before_remove identity none fs = fs
remove_owned remove before_remove identity (some entry) fs =
    if not entry.is_socket
    then fs
    else if not (identity_eq entry.identity identity)
    then fs
    else (remove_file remove (before_remove fs)).1

unfoldable pub drop_guard :
    Option String
    → Option String
    → (FileSystem → FileSystem)
    → SocketIdentity
    → FileSystem
    → FileSystem
unfolding remove_owned
drop_guard (some e) remove before_remove identity fs = fs
drop_guard none remove before_remove identity fs = remove_owned remove before_remove identity fs fs

-- A socket that is no longer listened on refuses connections.
unfoldable pub close_listener : SocketIdentity → FileSystem → FileSystem
close_listener identity none = none
close_listener identity (some entry) =
    if identity_eq entry.identity identity
    then some (record entry { probe = Probe.refuses })
    else some entry

-- `UnixListener::bind` makes the file, with the identity that the file system gives it.
unfoldable pub bind_listener :
    Option String → SocketIdentity → FileSystem → Result SocketError (Unit {0}) × FileSystem
bind_listener (some e) fresh fs = (err (SocketError.bind_socket e), fs)
bind_listener none fresh (some entry) = (err (SocketError.bind_socket "AddrInUse"), some entry)
bind_listener none fresh none =
    (ok tt, some (record { identity = fresh; is_socket = true; mode = 493; probe = Probe.accepts }))

abbrev pub chmod : ℕ → Option String → FileSystem → Result SocketError (Unit {0}) × FileSystem
chmod mode (some e) fs = (err (SocketError.set_mode e), fs)
chmod mode none none = (err (SocketError.set_mode "NotFound"), none)
chmod mode none (some entry) = (ok tt, some (record entry { mode = mode }))

module _ (others : Others) (failures : Failures) (fresh : SocketIdentity) (socket_mode : ℕ) where
  -- The mode is set last; where that fails the guard and the listener are dropped.
  unfoldable pub set_permissions :
      SocketIdentity
      → Result SocketError (Unit {0}) × FileSystem
      → Result SocketError SocketIdentity × FileSystem
  unfolding drop_guard close_listener
  set_permissions guard (ok t, fs) = (ok guard, fs)
  set_permissions guard (err e, fs) =
      (err e, close_listener fresh (drop_guard failures.guard failures.remove (λ f. f) guard fs))

  unfoldable pub with_guard :
      Result SocketError SocketIdentity
      → FileSystem
      → Result SocketError SocketIdentity × FileSystem
  unfolding set_permissions
  with_guard (err e) fs = (err e, close_listener fresh fs)
  with_guard (ok guard) fs =
      set_permissions guard (chmod socket_mode failures.set_mode (others.before_mode fs))

  unfoldable pub with_listener :
      Result SocketError (Unit {0}) × FileSystem → Result SocketError SocketIdentity × FileSystem
  unfolding with_guard
  with_listener (err e, fs) = (err e, fs)
  with_listener (ok t, fs) =
      let fs' = others.before_guard fs in with_guard (socket_identity failures.guard fs') fs'

  unfoldable pub with_path :
      Result SocketError (Unit {0}) × FileSystem → Result SocketError SocketIdentity × FileSystem
  unfolding with_listener
  with_path (err e, fs) = (err e, fs)
  with_path (ok t, fs) = with_listener (bind_listener failures.bind fresh (others.before_bind fs))

  unfoldable pub bind : FileSystem → Result SocketError SocketIdentity × FileSystem
  unfolding with_path
  bind fs = with_path (prepare_socket_path others failures fs)

-- The end of `BoundRpcSocket::serve`, whether the server ended well or not: the listener is closed,
-- then the guard is dropped.
unfoldable pub unbind :
    Option String
    → Option String
    → (FileSystem → FileSystem)
    → SocketIdentity
    → FileSystem
    → FileSystem
unfolding drop_guard close_listener
unbind inspect remove before_remove guard fs =
    drop_guard inspect remove before_remove guard (close_listener guard fs)
