-- ===== src/Controller/Loop.antt =====
-- `reconcile_once` of controller.rs and the loop of `run`. `readings` gives the readings for the
-- work on each claim; a scan works on a claim at most once.
use mc_control_plane.Base.{
  ℕ, zero, suc, ℤ, Option, none, some, is_some, is_none, Bool, true, false, not, ◌&&◌, ◌||◌, List,
  [], ◌∷◌, Result, ok, err, if◌then◌else◌,
}
use mc_control_plane.Protocol.{HostId, HostClaimId, HostPhase, phase_eq}
use mc_control_plane.AppErrors.{AppError}
use mc_control_plane.Codec.{Codec}
use mc_control_plane.Domain.{HostClaimRecord, HostRecord, is_due}
use mc_control_plane.Storage.Claims.{list_claims}
use mc_control_plane.Storage.Hosts.{get_host}
use mc_control_plane.Provider.{HostProvider}
use mc_control_plane.Rpc.{RpcContext}
use mc_control_plane.Controller.World.{
  ReconcileResult, Readings, World, Action, pure, ◌>>=◌, wake_controller, call_storage,
}
use mc_control_plane.Controller.Reconcile.{reconcile_unbound_claim, reconcile_host}
use mc_control_plane.Controller.Deletion.{reconcile_deleting_claim}

-- `MAX_STEPS_PER_WAKE`.
abbrev pub max_steps_per_wake : ℕ
max_steps_per_wake = 64

module _ (c : Codec) (context : RpcContext) {P : Type 0} (provider : HostProvider P) where
  -- `Progress` ends the scan; `Idle` goes on to the next claim.
  abbrev pub or_continue : Action c P ReconcileResult → ReconcileResult → Action c P ReconcileResult
  or_continue rest ReconcileResult.progress = pure ReconcileResult.progress
  or_continue rest ReconcileResult.idle = rest

  unfoldable pub scan_deleting :
      ℤ → (HostClaimId → Readings) → List HostClaimRecord → Action c P ReconcileResult
  scan_deleting now_ms readings [] = pure ReconcileResult.idle
  scan_deleting now_ms readings (claim ∷ claims) =
      let rest = scan_deleting now_ms readings claims in
      if is_some claim.resource.deletion_timestamp && is_due claim.retry now_ms
      then reconcile_deleting_claim c context provider claim now_ms (readings claim.resource.id)
        >>= or_continue rest
      else rest

  -- The work on one claim that is not being deleted.
  unfoldable pub reconcile_bound_claim :
      HostClaimRecord → ℤ → Readings → HostRecord → Action c P ReconcileResult
  reconcile_bound_claim claim now_ms r host =
      if not (is_due host.retry now_ms) || phase_eq host.resource.status.phase HostPhase.failed
      then pure ReconcileResult.idle
      else reconcile_host c context provider claim host now_ms r

  unfoldable pub reconcile_live_claim :
      HostClaimRecord → ℤ → Readings → Option HostId → Action c P ReconcileResult
  unfolding reconcile_bound_claim
  reconcile_live_claim claim now_ms r (some host_id) =
      call_storage context (get_host c host_id) >>= reconcile_bound_claim claim now_ms r
  reconcile_live_claim claim now_ms r none =
      if is_due claim.retry now_ms
      then reconcile_unbound_claim c context provider claim now_ms r
      else pure ReconcileResult.idle

  unfoldable pub scan_live :
      ℤ → (HostClaimId → Readings) → List HostClaimRecord → Action c P ReconcileResult
  scan_live now_ms readings [] = pure ReconcileResult.idle
  scan_live now_ms readings (claim ∷ claims) =
      let rest = scan_live now_ms readings claims in
      if is_none claim.resource.deletion_timestamp
      then reconcile_live_claim claim now_ms (readings claim.resource.id)
          claim.resource.status.host_id
        >>= or_continue rest
      else rest

  unfoldable pub reconcile_once : ℤ → (HostClaimId → Readings) → Action c P ReconcileResult
  reconcile_once now_ms readings = do
    claims ← call_storage context (list_claims c)
    deletions ← scan_deleting now_ms readings claims
    or_continue (scan_live now_ms readings claims) deletions

  -- Only progress goes on to the next step; an error ends the round, as `Idle` does.
  abbrev pub after_step :
      (World c P → Bool × World c P)
      → Result AppError ReconcileResult × World c P
      → Bool × World c P
  after_step next (ok ReconcileResult.progress, w) = next w
  after_step next (ok ReconcileResult.idle, w) = (false, w)
  after_step next (err error, w) = (false, w)

  -- The steps of one wake-up, with the readings of each; whether all made progress.
  unfoldable pub steps : ℕ → (ℕ → ℤ × (HostClaimId → Readings)) → World c P → Bool × World c P
  steps zero clock w = (true, w)
  steps (suc n) clock w = after_step (steps n clock) (reconcile_once (clock n).0 (clock n).1 w)

  -- A notification takes its permit.
  abbrev pub start_round : Bool → World c P → World c P
  start_round true w = record w { shared = record (w.shared) { notified = false } }
  start_round false w = w

  -- A round that reached the step limit stores a permit.
  abbrev pub end_round : Bool × World c P → World c P
  end_round (true, w) = (wake_controller w).1
  end_round (false, w) = w

  -- One round of the loop of `run`, entered by a notification or a tick.
  unfoldable pub wake_up : Bool → (ℕ → ℤ × (HostClaimId → Readings)) → World c P → World c P
  wake_up notified clock w = end_round (steps max_steps_per_wake clock (start_round notified w))
