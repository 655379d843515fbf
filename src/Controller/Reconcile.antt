-- ===== src/Controller/Reconcile.antt =====
-- The reconciliation of controller.rs. `now_ms` is the reading of `now_unix_ms()`.
use mc_control_plane.Base.{
  ℤ, String, Option, none, some, is_some, Bool, true, false, not, ◌||◌, Result, ok, err,
  if◌then◌else◌,
}
use mc_control_plane.Protocol.{HostPhase, phase_eq}
use mc_control_plane.AppErrors.{AppError}
use mc_control_plane.Codec.{Codec}
use mc_control_plane.Domain.{HostClaimRecord, HostRecord, default_retry}
use mc_control_plane.Storage.Claims.{save_claim_status}
use mc_control_plane.Storage.Hosts.{save_host}
use mc_control_plane.Storage.Hosts.Ensure.{ensure_host}
use mc_control_plane.Provider.{
  Plan, ProviderResource, ProviderObservation, ProviderError, HostProvider,
}
use mc_control_plane.Rpc.{RpcContext}
use mc_control_plane.Controller.World.{
  ReconcileResult, Readings, Action, pure, raise, ◌>>=◌, ◌>>◌, wake_controller, call_provider,
  try_call_storage, call_storage,
}
use mc_control_plane.Controller.Marks.{
  mark_provider_absent, mark_host_failed, schedule_claim_provider_error,
  schedule_host_provider_error,
}
use mc_control_plane.Controller.Marks.Observation.{
  provider_observation_is_stable, apply_provider_observation,
}
use mc_control_plane.Controller.Outcomes.{
  unsatisfiable_claim, ownership_conflict, conflict_message, after_create,
}

module _ (c : Codec) (context : RpcContext) {P : Type 0} (provider : HostProvider P) where
  open provider use {select_plan, observe, create, delete}

  unfoldable pub woken_unless : Bool → Action c P (Unit {0})
  woken_unless true = pure tt
  woken_unless false = wake_controller

  unfoldable pub persist_claim_status : HostClaimRecord → Action c P (Unit {0})
  unfolding woken_unless
  persist_claim_status claim = do
    stored ← call_storage context (save_claim_status c claim)
    woken_unless stored

  -- `save_host`, then `persist_claim_status`.
  unfoldable pub save_both :
      HostClaimRecord × HostRecord → ReconcileResult → Action c P ReconcileResult
  unfolding persist_claim_status
  save_both (claim, host) result = do
    call_storage context (save_host c host)
    persist_claim_status claim
    pure result

  unfoldable pub assigned : Result AppError HostRecord → Action c P ReconcileResult
  assigned (ok host) = pure ReconcileResult.progress
  assigned (err (AppError.conflict _ _ _)) = wake_controller >> pure ReconcileResult.idle
  assigned (err (AppError.not_found _ _)) = wake_controller >> pure ReconcileResult.idle
  assigned (err error) = raise error

  unfoldable pub after_select :
      HostClaimRecord
      → ℤ
      → Readings
      → Result ProviderError (Option Plan)
      → Action c P ReconcileResult
  unfolding assigned persist_claim_status
  after_select claim now_ms r (ok (some plan)) =
      try_call_storage context
        (ensure_host c claim.resource.id plan.id plan.resources r.fresh r.now)
      >>= assigned
  after_select claim now_ms r (ok none) =
      let (changed, claim') = unsatisfiable_claim r.now claim in
      if changed
      then persist_claim_status claim' >> pure ReconcileResult.progress
      else pure ReconcileResult.idle
  after_select claim now_ms r (err error) =
      persist_claim_status (schedule_claim_provider_error error now_ms r.now claim)
      >> pure ReconcileResult.progress

  unfoldable pub reconcile_unbound_claim :
      HostClaimRecord → ℤ → Readings → Action c P ReconcileResult
  unfolding after_select
  reconcile_unbound_claim claim now_ms r = do
    selected ← call_provider context (select_plan claim.resource.spec.resources)
    after_select claim now_ms r selected

  unfoldable pub observed_present :
      HostClaimRecord
      → HostRecord
      → Readings
      → ProviderResource
      → Option String
      → Action c P ReconcileResult
  unfolding save_both
  observed_present claim host r resource (some expected) =
      save_both
        (mark_host_failed "ProviderOwnershipConflict" (conflict_message expected resource) r.now
          (claim, host))
        ReconcileResult.progress
  observed_present claim host r resource none =
      save_both (apply_provider_observation c resource r.now (claim, host)) (
        if provider_observation_is_stable host resource
        then ReconcileResult.idle
        else ReconcileResult.progress)

  -- The Host is marked as provisioning and stored before the provider is asked to create it.
  unfoldable pub create_host :
      HostClaimRecord → HostRecord → ℤ → Readings → Action c P ReconcileResult
  unfolding save_both
  create_host claim host now_ms r = do
    let provisioning = record host {
      resource = record (host.resource) {
        status = record (host.resource.status) { phase = HostPhase.provisioning };
      };
      retry = default_retry;
    }
    call_storage context (save_host c provisioning)
    outcome ← call_provider context (create host.resource.id host.provider_plan_id)
    save_both (after_create c outcome now_ms r.now (claim, provisioning)) ReconcileResult.progress

  unfoldable pub observed_absent :
      HostClaimRecord → HostRecord → ℤ → Readings → Action c P ReconcileResult
  unfolding save_both create_host
  observed_absent claim host now_ms r =
      if is_some host.resource.status.provider_resource_id
        || not (phase_eq host.resource.status.phase HostPhase.pending)
      then save_both (mark_provider_absent r.now (claim, host)) ReconcileResult.progress
      else create_host claim host now_ms r

  unfoldable pub after_observe :
      HostClaimRecord
      → HostRecord
      → ℤ
      → Readings
      → Result ProviderError ProviderObservation
      → Action c P ReconcileResult
  unfolding observed_present observed_absent save_both
  after_observe claim host now_ms r (ok (ProviderObservation.present resource)) =
      observed_present claim host r resource (ownership_conflict host resource)
  after_observe claim host now_ms r (ok ProviderObservation.absent) =
      observed_absent claim host now_ms r
  after_observe claim host now_ms r (err error) =
      save_both (schedule_host_provider_error error now_ms r.now (claim, host))
        ReconcileResult.progress

  unfoldable pub reconcile_host :
      HostClaimRecord → HostRecord → ℤ → Readings → Action c P ReconcileResult
  unfolding after_observe
  reconcile_host claim host now_ms r = do
    observation ← call_provider context (observe host.resource.id)
    after_observe claim host now_ms r observation
