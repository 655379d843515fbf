-- ===== src/Rpc/Socket/Bound.antt =====
-- What a successful `bind` of rpc.rs leaves at the path, and what the end of the server removes.
use mc_control_plane.Base.{
  ℕ, true, false, Option, none, some, Result, ok, err, String, ◌≡◌, refl, arith, Option-cases, inl,
  inr, ◌⊎◌,
}
use mc_control_plane.Rpc.Socket.{
  SocketIdentity, identity_eq, Probe, Entry, FileSystem, SocketError, Others, Failures,
  prepare_socket_path, socket_identity,
}
use mc_control_plane.Rpc.Socket.Guard.{
  remove_owned, drop_guard, close_listener, bind_listener, with_guard, with_listener, with_path,
  bind, unbind,
}

abbrev pub bound_entry : SocketIdentity → ℕ → Entry
bound_entry fresh mode = record {
  identity = fresh;
  is_socket = true;
  mode = mode;
  probe = Probe.accepts;
}

-- Nobody changes the path between the calls that follow the bind.
abbrev pub IsUndisturbed : Others → Type 0
IsUndisturbed others =
    ((fs : FileSystem) → others.before_guard fs ≡ fs)
    × ((fs : FileSystem) → others.before_mode fs ≡ fs)

identity_eq_refl : (i : SocketIdentity) → identity_eq i i ≡ true
identity_eq_refl i = ground arith

unbind-own :
    (identity : SocketIdentity) (mode : ℕ)
    → unbind none none (λ fs. fs) identity (some (bound_entry identity mode)) ≡ none
unfolding unbind
unbind-own identity mode =
    rw
      (
        close_listener,
        identity_eq_refl identity,
        drop_guard,
        remove_owned,
        identity_eq_refl identity,
      )
      refl

unbind-other :
    (inspect remove : Option String) (identity : SocketIdentity) (other : Entry)
    → identity_eq other.identity identity ≡ false
    → unbind inspect remove (λ fs. fs) identity (some other) ≡ some other
unfolding unbind
unbind-other none remove identity other h = ground (arith, h)
unbind-other (some e) remove identity other h = ground (arith, h)

module _ (others : Others) (failures : Failures) (fresh : SocketIdentity) (socket_mode : ℕ) where
  with_guard-bound :
      (fs' : FileSystem) (guard : SocketIdentity)
      → others.before_mode (some (bound_entry fresh 493)) ≡ some (bound_entry fresh 493)
      → with_guard others failures fresh socket_mode (ok fresh) (some (bound_entry fresh 493))
        ≡ (ok guard, fs')
      → (guard ≡ fresh) × (fs' ≡ some (bound_entry fresh socket_mode))
  unfolding with_guard
  with_guard-bound fs' guard quiet e = elim (Option-cases failures.set_mode) [
    | inl none_set ↦ ground (arith, quiet, e, none_set)
    | inr (m, failed) ↦ absurd (ground (arith, quiet, e, failed))
  ]

  with_listener-bound :
      (fs' : FileSystem) (guard : SocketIdentity)
      → IsUndisturbed others
      → with_listener others failures fresh socket_mode (ok tt, some (bound_entry fresh 493))
        ≡ (ok guard, fs')
      → (guard ≡ fresh) × (fs' ≡ some (bound_entry fresh socket_mode))
  unfolding with_listener socket_identity
  with_listener-bound fs' guard (quiet, quiet') e = elim (Option-cases failures.guard) [
    | inl none_set ↦
        with_guard-bound fs' guard (quiet' _)
          (ground (arith, quiet (some (bound_entry fresh 493)), e, none_set))
    | inr (m, failed) ↦
        absurd (ground (arith, quiet (some (bound_entry fresh 493)), e, failed, with_guard))
  ]

  with_path-bound :
      (r : Result SocketError (Unit {0}) × FileSystem) (fs' : FileSystem) (guard : SocketIdentity)
      → IsUndisturbed others
      → with_path others failures fresh socket_mode r ≡ (ok guard, fs')
      → (guard ≡ fresh) × (fs' ≡ some (bound_entry fresh socket_mode))
  unfolding with_path bind_listener with_listener
  with_path-bound (err x, fs) fs' guard u e = absurd (ground (arith, e))
  with_path-bound (ok t, fs) fs' guard u e =
      by_cases (Option-cases failures.bind) (Option-cases (others.before_bind fs))
    where
      by_cases :
          (failures.bind ≡ none) ⊎ ((m : String) × (failures.bind ≡ some m))
          → (others.before_bind fs ≡ none) ⊎ ((x : Entry) × (others.before_bind fs ≡ some x))
          → (guard ≡ fresh) × (fs' ≡ some (bound_entry fresh socket_mode))
      by_cases (inr (m, failed)) free = absurd (ground (arith, e, failed))
      by_cases (inl fine) (inr (x, taken)) = absurd (ground (arith, e, fine, taken))
      by_cases (inl fine) (inl free) =
          with_listener-bound fs' guard u (ground (arith, e, fine, free))

  -- If `bind` succeeds and nobody changes the path after the file is made, the path holds the bound
  -- socket with the mode that was asked for, the end of the server leaves the path empty, and an
  -- entry of another device or inode that replaced the socket meanwhile stays as it is.
  pub bind_lem :
      (fs fs' : FileSystem) (guard : SocketIdentity) (other : Entry)
      → IsUndisturbed others
      → bind others failures fresh socket_mode fs ≡ (ok guard, fs')
      → identity_eq other.identity guard ≡ false
      → (fs' ≡ some (bound_entry guard socket_mode))
        × (unbind none none (λ f. f) guard fs' ≡ none)
        × (unbind none none (λ f. f) guard (some other) ≡ some other)
  unfolding bind
  bind_lem fs fs' guard other u e differs =
      let (own, bound) = with_path-bound (prepare_socket_path others failures fs) fs' guard u e in
      (
        rw own bound,
        rw (bound, own) (unbind-own fresh socket_mode),
        unbind-other none none guard other differs,
      )
