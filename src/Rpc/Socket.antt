-- ===== src/Rpc/Socket.antt =====
-- The socket file of crates/control-plane/src/rpc.rs: `prepare_socket_path`, `bind` and the guard
-- that removes the file. The state is what stands at the socket's path. Other processes may change
-- it before every call of the file system (`Others`), and a call may fail for a reason of its own
-- (`Failures`); the directory above the path is only created.
pub mod Guard
pub mod Removal
pub mod Bound
use mc_control_plane.Base.{
  ℕ, String, Bool, true, false, not, ◌||◌, ◌&&◌, ◌==◌, Option, none, some, Result, ok, err,
  if◌then◌else◌,
}

-- `SocketIdentity`.
pub record SocketIdentity : Type 0 where
  pub device : ℕ  -- u64
  pub inode : ℕ  -- u64

-- The derived `PartialEq`.
abbrev pub identity_eq : SocketIdentity → SocketIdentity → Bool
identity_eq a b = a.device == b.device && a.inode == b.inode

-- How a connection to a socket ends: `hangs` is the timeout of the probe.
pub data Probe : Type 0 where
  accepts refuses hangs : Probe
  fails : String → Probe

-- What stands at the path: its identity, whether it is a socket, its mode, and how a connection ends.
pub record Entry : Type 0 where
  pub identity : SocketIdentity
  pub is_socket : Bool
  pub mode : ℕ
  pub probe : Probe

abbrev pub FileSystem : Type 0
FileSystem = Option Entry

-- `anyhow::Error`s of this part, by the place that makes them.
pub data SocketError : Type 0 where
  create_directory inspect reinspect remove bind_socket set_mode : String → SocketError
  not_socket already_served timed_out changed : SocketError
  probe_failed : String → SocketError

-- What other processes do to the path before each call.
pub record Others : Type 0 where
  pub before_inspect : FileSystem → FileSystem
  pub before_probe : FileSystem → FileSystem
  pub before_reinspect : FileSystem → FileSystem
  pub before_remove : FileSystem → FileSystem
  pub before_bind : FileSystem → FileSystem
  pub before_guard : FileSystem → FileSystem
  pub before_mode : FileSystem → FileSystem

-- The calls that fail for another reason than what stands at the path.
pub record Failures : Type 0 where
  pub create_directory : Option String
  pub inspect : Option String
  pub reinspect : Option String
  pub remove : Option String
  pub bind : Option String
  pub guard : Option String
  pub set_mode : Option String

-- `symlink_metadata`: `none` is `ErrorKind::NotFound`.
abbrev pub metadata : Option String → FileSystem → Result String (Option Entry)
metadata (some e) fs = err e
metadata none fs = ok fs

-- `remove_file`.
abbrev pub remove_file : Option String → FileSystem → Result SocketError (Unit {0}) × FileSystem
remove_file (some e) fs = (err (SocketError.remove e), fs)
remove_file none none = (err (SocketError.remove "NotFound"), none)
remove_file none (some entry) = (ok tt, none)

-- The probe of `prepare_socket_path`: a connection that is refused marks a stale socket.
abbrev pub connect : FileSystem → Option Probe
connect none = none
connect (some entry) = some entry.probe

-- `socket_identity`.
abbrev pub identity_of : Result String (Option Entry) → Result SocketError SocketIdentity
identity_of (err e) = err (SocketError.inspect e)
identity_of (ok none) = err (SocketError.inspect "NotFound")
identity_of (ok (some entry)) =
    if not entry.is_socket then err SocketError.not_socket else ok entry.identity

unfoldable pub socket_identity : Option String → FileSystem → Result SocketError SocketIdentity
socket_identity failure fs = identity_of (metadata failure fs)

module _ (others : Others) (failures : Failures) where
  -- The last part of `remove_socket_if_owned`, on the entry that was inspected again.
  unfoldable pub remove_if_same :
      SocketIdentity
      → Result String (Option Entry)
      → FileSystem
      → Result SocketError (Unit {0}) × FileSystem
  remove_if_same expected (err e) fs = (err (SocketError.reinspect e), fs)
  remove_if_same expected (ok none) fs = (ok tt, fs)
  remove_if_same expected (ok (some current)) fs =
      if not current.is_socket || not (identity_eq current.identity expected)
      then (err SocketError.changed, fs)
      else remove_file failures.remove (others.before_remove fs)

  unfoldable pub remove_socket_if_owned :
      SocketIdentity → FileSystem → Result SocketError (Unit {0}) × FileSystem
  unfolding remove_if_same
  remove_socket_if_owned expected fs =
      let fs' = others.before_reinspect fs in
      remove_if_same expected (metadata failures.reinspect fs') fs'

  unfoldable pub after_probe :
      SocketIdentity → Option Probe → FileSystem → Result SocketError (Unit {0}) × FileSystem
  unfolding remove_socket_if_owned
  after_probe existing none fs = (ok tt, fs)
  after_probe existing (some Probe.accepts) fs = (err SocketError.already_served, fs)
  after_probe existing (some Probe.hangs) fs = (err SocketError.timed_out, fs)
  after_probe existing (some Probe.refuses) fs = remove_socket_if_owned existing fs
  after_probe existing (some (Probe.fails e)) fs = (err (SocketError.probe_failed e), fs)

  unfoldable pub after_inspect :
      Result String (Option Entry) → FileSystem → Result SocketError (Unit {0}) × FileSystem
  unfolding after_probe
  after_inspect (err e) fs = (err (SocketError.inspect e), fs)
  after_inspect (ok none) fs = (ok tt, fs)
  after_inspect (ok (some found)) fs =
      if not found.is_socket
      then (err SocketError.not_socket, fs)
      else let fs' = others.before_probe fs in after_probe found.identity (connect fs') fs'

  unfoldable pub prepare_socket_path : FileSystem → Result SocketError (Unit {0}) × FileSystem
  unfolding after_inspect
  prepare_socket_path fs = elim failures.create_directory [
    | some e ↦ (err (SocketError.create_directory e), fs)
    | none ↦ let fs' = others.before_inspect fs in after_inspect (metadata failures.inspect fs') fs'
  ]
