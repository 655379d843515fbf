-- ===== src/Controller/Deletion.antt =====
-- `reconcile_deleting_claim` of controller.rs.
pub mod Release
pub mod Finalized
use mc_control_plane.Base.{ℤ, String, Option, none, some, Result, ok, err, if◌then◌else◌}
use mc_control_plane.Protocol.{HostId}
use mc_control_plane.Codec.{Codec}
use mc_control_plane.Domain.{HostClaimRecord, HostRecord, i64_max, is_due}
use mc_control_plane.Storage.Claims.{finalize_claim}
use mc_control_plane.Storage.Hosts.{get_host, save_host}
use mc_control_plane.Provider.{ProviderResource, ProviderObservation, ProviderError, HostProvider}
use mc_control_plane.Rpc.{RpcContext}
use mc_control_plane.Controller.World.{
  ReconcileResult, Readings, Action, pure, ◌>>=◌, ◌>>◌, call_provider, call_storage,
}
use mc_control_plane.Controller.Marks.{mark_host_failed, schedule_host_retry_only}
use mc_control_plane.Controller.Outcomes.{
  ownership_conflict, conflict_message, deleting_host, after_delete,
}
use mc_control_plane.Controller.Reconcile.{save_both}

module _ (c : Codec) (context : RpcContext) {P : Type 0} (provider : HostProvider P) where
  open provider use {observe, delete}

  -- The Host is marked as deleting and stored before the provider is asked to delete it. A successful
  -- deletion is no proof: the claim is finalized once an observation finds nothing.
  unfoldable pub delete_host :
      HostRecord → ProviderResource → ℤ → Readings → Action c P ReconcileResult
  delete_host host resource now_ms r = do
    let marked = deleting_host resource r.now host
    call_storage context (save_host c marked)
    outcome ← call_provider context (delete host.resource.id)
    call_storage context (save_host c (after_delete outcome now_ms marked))
    pure ReconcileResult.progress

  -- The conflict is recorded with a deadline that never comes.
  unfoldable pub park_conflict : HostClaimRecord × HostRecord → Action c P ReconcileResult
  park_conflict (claim, host) =
      save_both c context provider
        (
          claim,
          record host { retry = record (host.retry) { next_reconcile_at_unix_ms = some i64_max } },
        )
        ReconcileResult.progress

  unfoldable pub deleting_present :
      HostClaimRecord
      → HostRecord
      → ℤ
      → Readings
      → ProviderResource
      → Option String
      → Action c P ReconcileResult
  unfolding park_conflict delete_host
  deleting_present claim host now_ms r resource (some expected) = park_conflict (
      mark_host_failed "ProviderOwnershipConflict" (conflict_message expected resource) r.now
        (claim, host))
  deleting_present claim host now_ms r resource none = delete_host host resource now_ms r

  unfoldable pub finalize : HostClaimRecord → Action c P ReconcileResult
  finalize claim = do
    call_storage context (finalize_claim c claim.resource.id)
    pure ReconcileResult.progress

  unfoldable pub after_deleting_observe :
      HostClaimRecord
      → HostRecord
      → ℤ
      → Readings
      → Result ProviderError ProviderObservation
      → Action c P ReconcileResult
  unfolding deleting_present finalize
  after_deleting_observe claim host now_ms r (ok ProviderObservation.absent) = finalize claim
  after_deleting_observe claim host now_ms r (ok (ProviderObservation.present resource)) =
      deleting_present claim host now_ms r resource (ownership_conflict host resource)
  after_deleting_observe claim host now_ms r (err error) = do
    call_storage context (save_host c (schedule_host_retry_only error now_ms host))
    pure ReconcileResult.progress

  unfoldable pub release_host :
      HostClaimRecord → ℤ → Readings → HostRecord → Action c P ReconcileResult
  unfolding after_deleting_observe
  release_host claim now_ms r host =
      if is_due host.retry now_ms
      then call_provider context (observe host.resource.id)
        >>= after_deleting_observe claim host now_ms r
      else pure ReconcileResult.idle

  unfoldable pub release_claim :
      HostClaimRecord → ℤ → Readings → Option HostId → Action c P ReconcileResult
  unfolding finalize release_host
  release_claim claim now_ms r none = finalize claim
  release_claim claim now_ms r (some host_id) =
      call_storage context (get_host c host_id) >>= release_host claim now_ms r

  unfoldable pub reconcile_deleting_claim :
      HostClaimRecord → ℤ → Readings → Action c P ReconcileResult
  unfolding release_claim
  reconcile_deleting_claim claim now_ms r =
      release_claim claim now_ms r claim.resource.status.host_id
