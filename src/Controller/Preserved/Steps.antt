-- ===== src/Controller/Preserved/Steps.antt =====
-- The steps of the controller, but for the finalization of a claim, keep a property of the database that the statements keep.
use mc_control_plane.Base.{
  ◌≢◌, refl, ℤ, String, Option, none, some, Bool, true, false, Result, ok, err,
}
use mc_control_plane.AppErrors.{AppError}
use mc_control_plane.Protocol.{HostClaimId}
use mc_control_plane.Codec.{Codec}
use mc_control_plane.Domain.{HostClaimRecord, HostRecord}
use mc_control_plane.Storage.Tables.{Db}
use mc_control_plane.Storage.Invariant.Interface.{IsInvariant}
use mc_control_plane.Storage.Invariant.Operations.{save_claim_status-Keeps}
use mc_control_plane.Storage.Invariant.HostOperations.{ensure_host-Keeps, save_host-Keeps}
use mc_control_plane.Provider.{
  Plan, ProviderResource, ProviderObservation, ProviderError, HostProvider,
}
use mc_control_plane.Rpc.{RpcContext}
use mc_control_plane.Controller.World.{ReconcileResult, Readings}
use mc_control_plane.Controller.Reconcile.{
  woken_unless, persist_claim_status, save_both, assigned, after_select, reconcile_unbound_claim,
  observed_present, create_host, observed_absent, after_observe, reconcile_host,
}
use mc_control_plane.Controller.Deletion.{
  delete_host, park_conflict, deleting_present, after_deleting_observe,
}
use mc_control_plane.Controller.Preserved.{
  Maintains, bind-Maintains, if-Maintains, pure-Maintains, raise-Maintains,
  wake_controller-Maintains, call_provider-Maintains, try_call_storage-Maintains,
  call_storage-Maintains,
}

module _ (c : Codec) (context : RpcContext) {P : Type 0} (provider : HostProvider P)
    {Allowed : HostClaimId → Type 0} {Inv : Db c → Type 0} (k : IsInvariant Allowed Inv) where
  woken_unless-Maintains :
      (stored : Bool) → Maintains {P = P} Allowed Inv (woken_unless c context provider stored)
  unfolding woken_unless
  woken_unless-Maintains true = pure-Maintains tt
  woken_unless-Maintains false = wake_controller-Maintains

  persist_claim_status-Maintains :
      (claim : HostClaimRecord)
      → Maintains {P = P} Allowed Inv (persist_claim_status c context provider claim)
  unfolding persist_claim_status
  persist_claim_status-Maintains claim =
      bind-Maintains _ _ (call_storage-Maintains context k _ (save_claim_status-Keeps c k claim))
        woken_unless-Maintains

  save_both-Maintains :
      (records : HostClaimRecord × HostRecord) (result : ReconcileResult)
      → Maintains {P = P} Allowed Inv (save_both c context provider records result)
  unfolding save_both
  save_both-Maintains (claim, host) result =
      bind-Maintains _ _ (call_storage-Maintains context k _ (save_host-Keeps c k host))
        λ _. bind-Maintains _ _ (persist_claim_status-Maintains claim) λ _. pure-Maintains result

  assigned-Maintains :
      (r : Result AppError HostRecord)
      → Maintains {P = P} Allowed Inv (assigned c context provider r)
  unfolding assigned
  assigned-Maintains (ok host) = pure-Maintains _
  assigned-Maintains (err (AppError.conflict _ _ _)) =
      bind-Maintains _ _ wake_controller-Maintains λ _. pure-Maintains _
  assigned-Maintains (err (AppError.not_found _ _)) =
      bind-Maintains _ _ wake_controller-Maintains λ _. pure-Maintains _
  assigned-Maintains (err (AppError.invalid_argument m)) = raise-Maintains _
  assigned-Maintains (err (AppError.internal e)) = raise-Maintains _

  after_select-Maintains :
      (claim : HostClaimRecord) (now_ms : ℤ) (r : Readings)
      (selected : Result ProviderError (Option Plan))
      → Maintains {P = P} Allowed Inv (after_select c context provider claim now_ms r selected)
  unfolding after_select
  after_select-Maintains claim now_ms r (ok (some plan)) =
      bind-Maintains _ _ (try_call_storage-Maintains context k _ (ensure_host-Keeps c k _ _ _ _ _))
        assigned-Maintains
  after_select-Maintains claim now_ms r (ok none) =
      if-Maintains _ _ _
        (bind-Maintains _ _ (persist_claim_status-Maintains _) λ _. pure-Maintains _)
        (pure-Maintains _)
  after_select-Maintains claim now_ms r (err error) =
      bind-Maintains _ _ (persist_claim_status-Maintains _) λ _. pure-Maintains _

  pub reconcile_unbound_claim-Maintains :
      (claim : HostClaimRecord) (now_ms : ℤ) (r : Readings)
      → Maintains {P = P} Allowed Inv (reconcile_unbound_claim c context provider claim now_ms r)
  unfolding reconcile_unbound_claim
  reconcile_unbound_claim-Maintains claim now_ms r =
      bind-Maintains _ _ (call_provider-Maintains context k _)
        (after_select-Maintains claim now_ms r)

  observed_present-Maintains :
      (claim : HostClaimRecord) (host : HostRecord) (r : Readings) (resource : ProviderResource)
      (conflict : Option String)
      → Maintains {P = P} Allowed Inv
          (observed_present c context provider claim host r resource conflict)
  unfolding observed_present
  observed_present-Maintains claim host r resource (some expected) = save_both-Maintains _ _
  observed_present-Maintains claim host r resource none = save_both-Maintains _ _

  create_host-Maintains :
      (claim : HostClaimRecord) (host : HostRecord) (now_ms : ℤ) (r : Readings)
      → Maintains {P = P} Allowed Inv (create_host c context provider claim host now_ms r)
  unfolding create_host
  create_host-Maintains claim host now_ms r =
      bind-Maintains _ _ (call_storage-Maintains context k _ (save_host-Keeps c k _)) λ _.
        bind-Maintains _ _ (call_provider-Maintains context k _) λ outcome. save_both-Maintains _ _

  observed_absent-Maintains :
      (claim : HostClaimRecord) (host : HostRecord) (now_ms : ℤ) (r : Readings)
      → Maintains {P = P} Allowed Inv (observed_absent c context provider claim host now_ms r)
  unfolding observed_absent
  observed_absent-Maintains claim host now_ms r =
      if-Maintains _ _ _ (save_both-Maintains _ _) (create_host-Maintains claim host now_ms r)

  after_observe-Maintains :
      (claim : HostClaimRecord) (host : HostRecord) (now_ms : ℤ) (r : Readings)
      (observation : Result ProviderError ProviderObservation)
      → Maintains {P = P} Allowed Inv
          (after_observe c context provider claim host now_ms r observation)
  unfolding after_observe
  after_observe-Maintains claim host now_ms r (ok (ProviderObservation.present resource)) =
      observed_present-Maintains claim host r resource _
  after_observe-Maintains claim host now_ms r (ok ProviderObservation.absent) =
      observed_absent-Maintains claim host now_ms r
  after_observe-Maintains claim host now_ms r (err error) = save_both-Maintains _ _

  pub reconcile_host-Maintains :
      (claim : HostClaimRecord) (host : HostRecord) (now_ms : ℤ) (r : Readings)
      → Maintains {P = P} Allowed Inv (reconcile_host c context provider claim host now_ms r)
  unfolding reconcile_host
  reconcile_host-Maintains claim host now_ms r =
      bind-Maintains _ _ (call_provider-Maintains context k _)
        (after_observe-Maintains claim host now_ms r)

  delete_host-Maintains :
      (host : HostRecord) (resource : ProviderResource) (now_ms : ℤ) (r : Readings)
      → Maintains {P = P} Allowed Inv (delete_host c context provider host resource now_ms r)
  unfolding delete_host
  delete_host-Maintains host resource now_ms r =
      bind-Maintains _ _ (call_storage-Maintains context k _ (save_host-Keeps c k _)) λ _.
        bind-Maintains _ _ (call_provider-Maintains context k _) λ outcome.
          bind-Maintains _ _ (call_storage-Maintains context k _ (save_host-Keeps c k _))
            λ _. pure-Maintains _

  deleting_present-Maintains :
      (claim : HostClaimRecord) (host : HostRecord) (now_ms : ℤ) (r : Readings)
      (resource : ProviderResource) (conflict : Option String)
      → Maintains {P = P} Allowed Inv
          (deleting_present c context provider claim host now_ms r resource conflict)
  unfolding deleting_present park_conflict
  deleting_present-Maintains claim host now_ms r resource (some expected) = save_both-Maintains _ _
  deleting_present-Maintains claim host now_ms r resource none =
      delete_host-Maintains host resource now_ms r

  -- The claim is not finalized unless the provider shows no resource.
  pub after_deleting_observe-present :
      (claim : HostClaimRecord) (host : HostRecord) (now_ms : ℤ) (r : Readings)
      (observation : Result ProviderError ProviderObservation)
      → observation ≢ ok ProviderObservation.absent
      → Maintains {P = P} Allowed Inv
          (after_deleting_observe c context provider claim host now_ms r observation)
  unfolding after_deleting_observe
  after_deleting_observe-present claim host now_ms r (ok ProviderObservation.absent) n =
      absurd (n refl)
  after_deleting_observe-present claim host now_ms r (ok (ProviderObservation.present resource)) n =
      deleting_present-Maintains claim host now_ms r resource _
  after_deleting_observe-present claim host now_ms r (err error) n =
      bind-Maintains _ _ (call_storage-Maintains context k _ (save_host-Keeps c k _))
        λ _. pure-Maintains _
