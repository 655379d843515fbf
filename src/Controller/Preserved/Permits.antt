-- ===== src/Controller/Preserved/Permits.antt =====
-- A permit of `Notify` that is stored during a round of `run` in controller.rs is there when the
-- round ends, so that the next round follows at once.
use mc_control_plane.Base.{
  ℕ, zero, suc, ℤ, Bool, true, false, List, ◌∷◌, ◌≡◌, refl, Result, ok, err,
}
use mc_control_plane.Protocol.{HostClaimId}
use mc_control_plane.AppErrors.{AppError}
use mc_control_plane.Codec.{Codec}
use mc_control_plane.Storage.Invariant.Consistent.{
  IsConsistent-IsInvariant, IsConsistent-IsKeptByDeletion,
}
use mc_control_plane.Provider.{HostProvider}
use mc_control_plane.Rpc.Preserved.{Always}
use mc_control_plane.Rpc.{RpcContext, Request, Shared, handle_all, wake}
use mc_control_plane.Controller.World.{
  ReconcileResult, Readings, World, wake_controller, serve_batch,
}
use mc_control_plane.Controller.Loop.{steps, wake_up, start_round, after_step, end_round}
use mc_control_plane.Controller.Preserved.Scan.{reconcile_once-Maintains, reconcile_once-served}
use mc_control_plane.Storage.Invariant.Guarded.{unguarded}

module _ (c : Codec) (context : RpcContext) {P : Type 0} (provider : HostProvider P) where
  end_round-permit :
      (b : Bool) (w : World c P)
      → w.shared.notified ≡ true
      → (end_round c context provider (b, w)).shared.notified ≡ true
  unfolding wake_controller wake
  end_round-permit true w v = refl
  end_round-permit false w v = v

  after_step-permit :
      (next : World c P → Bool × World c P)
      → ((w : World c P) → w.shared.notified ≡ true → (next w).1.shared.notified ≡ true)
      → (r : Result AppError ReconcileResult × World c P) → r.1.shared.notified ≡ true
      → (after_step c context provider next r).1.shared.notified ≡ true
  after_step-permit next h (ok ReconcileResult.progress, w) v = h w v
  after_step-permit next h (ok ReconcileResult.idle, w) v = v
  after_step-permit next h (err e, w) v = v

  steps-permit :
      (n : ℕ) (clock : ℕ → ℤ × (HostClaimId → Readings)) (w : World c P)
      → w.shared.notified ≡ true
      → (steps c context provider n clock w).1.shared.notified ≡ true
  unfolding steps
  steps-permit zero clock w v = v
  steps-permit (suc n) clock w v =
      after_step-permit (steps c context provider n clock) (steps-permit n clock) _ (
        (reconcile_once-Maintains c context provider (IsConsistent-IsInvariant {Allowed = Always})
            (unguarded IsConsistent-IsKeptByDeletion) (clock n).0 (clock n).1).permit
          w v)

  steps-served :
      (n : ℕ) (clock : ℕ → ℤ × (HostClaimId → Readings)) (w : World c P)
      → (serve_batch context w.requests w).shared.notified ≡ true
      → (steps c context provider (suc n) clock w).1.shared.notified ≡ true
  unfolding steps
  steps-served n clock w h =
      after_step-permit (steps c context provider n clock) (steps-permit n clock) _ (
        reconcile_once-served c context provider (IsConsistent-IsInvariant {Allowed = Always})
          (unguarded IsConsistent-IsKeptByDeletion) (clock n).0 (clock n).1 w h)

  -- If a permit is stored once the requests before the first call of a round have been handled, it
  -- is stored when the round ends, whatever else the round does; so a round that a request meets
  -- there is followed by another.
  pub wake_up-notified :
      (notified : Bool) (clock : ℕ → ℤ × (HostClaimId → Readings)) (s : Shared c) (p : P)
      (batch : List Request) (rest : List (List Request))
      → (handle_all c context batch
          (start_round c context provider notified
            (record { shared = s; provider = p; requests = batch ∷ rest })).shared).notified
        ≡ true
      → (wake_up c context provider notified clock
          (record { shared = s; provider = p; requests = batch ∷ rest })).shared.notified
        ≡ true
  unfolding wake_up serve_batch
  wake_up-notified true clock s p batch rest h = end_round-permit _ _ (steps-served 63 clock _ h)
  wake_up-notified false clock s p batch rest h = end_round-permit _ _ (steps-served 63 clock _ h)
