-- ===== src/Tests/Socket.antt =====
-- The socket's path at concrete files.
use mc_control_plane.Base.{true, false, none, some, ok, ◌≡◌, refl}
use mc_control_plane.Rpc.Socket.{
  SocketIdentity, identity_eq, Probe, Entry, FileSystem, Others, Failures, prepare_socket_path,
}
use mc_control_plane.Rpc.Socket.Guard.{bind, unbind}
use mc_control_plane.Rpc.Socket.Removal.{Spared, prepare_socket_path-Spared}
use mc_control_plane.Rpc.Socket.Bound.{bound_entry, bind_lem}

abbrev pub quiet : Others
quiet = record {
  before_inspect = λ fs. fs;
  before_probe = λ fs. fs;
  before_reinspect = λ fs. fs;
  before_remove = λ fs. fs;
  before_bind = λ fs. fs;
  before_guard = λ fs. fs;
  before_mode = λ fs. fs;
}

abbrev pub no_failures : Failures
no_failures = record {
  create_directory = none;
  inspect = none;
  reinspect = none;
  remove = none;
  bind = none;
  guard = none;
  set_mode = none;
}

abbrev pub fresh : SocketIdentity
fresh = record { device = 1; inode = 20 }

-- What a daemon left that was killed.
abbrev stale : Entry
stale = record {
  identity = record { device = 1; inode = 10 };
  is_socket = true;
  mode = 432;
  probe = Probe.refuses;
}

abbrev file : Entry
file = record {
  identity = record { device = 1; inode = 30 };
  is_socket = false;
  mode = 420;
  probe = Probe.refuses;
}

prepare_socket_path-Spared_example :
    Spared quiet no_failures (some stale) (prepare_socket_path quiet no_failures (some stale)).1
prepare_socket_path-Spared_example = prepare_socket_path-Spared quiet no_failures (some stale)

bound : bind quiet no_failures fresh 432 (some stale) ≡ (ok fresh, some (bound_entry fresh 432))
unfolding bind prepare_socket_path mc_control_plane.Rpc.Socket.Guard.bind_listener
    mc_control_plane.Rpc.Socket.socket_identity
bound = refl

bind_lem_example :
    (some (bound_entry fresh 432) ≡ some (bound_entry fresh 432))
    × (unbind none none (λ f. f) fresh (some (bound_entry fresh 432)) ≡ none)
    × (unbind none none (λ f. f) fresh (some file) ≡ some file)
bind_lem_example =
    bind_lem quiet no_failures fresh 432 (some stale) (some (bound_entry fresh 432)) fresh file
      ((λ fs. refl), (λ fs. refl)) bound refl
