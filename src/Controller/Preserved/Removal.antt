-- ===== src/Controller/Preserved/Removal.antt =====
-- The scan of `reconcile_once` of controller.rs over the claims whose deletion is requested: a claim is
-- removed only while its guard holds.
use mc_control_plane.Base.{
  String, Bool, true, false, ◌&&◌, is_some, ◌≡◌, refl, ℤ, Option, none, some, List, [], ◌∷◌, Result,
  ok, err, if◌then◌else◌,
}
use mc_control_plane.AppErrors.{AppError}
use mc_control_plane.Protocol.{HostId, HostClaimId}
use mc_control_plane.Codec.{Codec}
use mc_control_plane.Domain.{HostClaimRecord, HostRecord, is_due}
use mc_control_plane.Storage.Tables.{Db}
use mc_control_plane.Storage.Invariant.Interface.{IsInvariant}
use mc_control_plane.Storage.Invariant.Guarded.{
  both-IsInvariant, Guarded, Guarded-IsInvariant, IsDeletionGuard,
}
use mc_control_plane.Storage.Invariant.Operations.{finalize_claim_kept}
use mc_control_plane.Storage.Invariant.HostOperations.{get_host-Keeps}
use mc_control_plane.Provider.{ProviderObservation, ProviderError, HostProvider}
use mc_control_plane.Rpc.{RpcContext}
use mc_control_plane.Controller.World.{
  ReconcileResult, Readings, Action, pure, ◌>>=◌, call_provider,
}
use mc_control_plane.Controller.Deletion.{
  finalize, after_deleting_observe, release_host, release_claim, reconcile_deleting_claim,
}
use mc_control_plane.Controller.Loop.{or_continue, scan_deleting}
use mc_control_plane.Controller.Preserved.{call_provider-Maintains, call_storage-Maintains}
use mc_control_plane.Controller.Preserved.Steps.{after_deleting_observe-present}
use mc_control_plane.Controller.Preserved.Leads.{
  Leads, kept-Leads, from-Leads, pure-Leads, bind-Leads, call_storage-Leads,
}

module _ (c : Codec) (context : RpcContext) {P : Type 0} (provider : HostProvider P)
    {Allowed : HostClaimId → Type 0} {Inv : Db c → Type 0} (k : IsInvariant Allowed Inv)
    {Guard : String → Db c → Type 0} (d : IsDeletionGuard Guard Allowed Inv) where
  open c use {uuid_to_string}

  -- With the guards of the claims that the scan comes to.
  abbrev pub With : List HostClaimRecord → Db c → Type 0
  With claims db = Inv db × Guarded Guard claims db

  With-IsInvariant : (claims : List HostClaimRecord) → IsInvariant Allowed (With claims)
  With-IsInvariant claims = both-IsInvariant k (Guarded-IsInvariant Guard d.kept claims)

  -- The scan goes on, with its guards, unless a step makes progress or fails.
  abbrev Left : List HostClaimRecord → Result AppError ReconcileResult → Db c → Type 0
  Left claims (ok ReconcileResult.idle) db = With claims db
  Left claims (ok ReconcileResult.progress) db = Inv db
  Left claims (err e) db = Inv db

  abbrev Removable : HostClaimRecord → List HostClaimRecord → Db c → Type 0
  Removable claim claims db = With claims db × Guard (uuid_to_string claim.resource.id) db

  Removable-IsInvariant :
      (claim : HostClaimRecord) (claims : List HostClaimRecord)
      → IsInvariant Allowed (Removable claim claims)
  Removable-IsInvariant claim claims =
      both-IsInvariant (With-IsInvariant claims) (d.kept (uuid_to_string claim.resource.id))

  Removable-Left :
      (claim : HostClaimRecord) (claims : List HostClaimRecord)
      (r : Result AppError ReconcileResult) (db : Db c)
      → Removable claim claims db
      → Left claims r db
  Removable-Left claim claims (ok ReconcileResult.idle) db v = v.0
  Removable-Left claim claims (ok ReconcileResult.progress) db v = v.0.0
  Removable-Left claim claims (err e) db v = v.0.0

  finalize-Leads :
      (claim : HostClaimRecord) (claims : List HostClaimRecord)
      → Leads {P = P} Allowed
          (Removable claim claims)
          (Left claims)
          (finalize c context provider claim)
  unfolding finalize
  finalize-Leads claim claims =
      bind-Leads (λ r. Inv) (Left claims) _ _
        (call_storage-Leads context (λ r. Inv) (Removable-IsInvariant claim claims) _
          λ db v.
            finalize_claim_kept c Inv claim.resource.id db
              (d.delete_claim (uuid_to_string claim.resource.id) db v.1 v.0.0) v.0.0)
        (λ _. pure-Leads ReconcileResult.progress λ db v. v) (λ e db v. v)

  after_deleting_observe-Leads :
      (claim : HostClaimRecord) (claims : List HostClaimRecord) (host : HostRecord) (now_ms : ℤ)
      (r : Readings) (observation : Result ProviderError ProviderObservation)
      → Leads {P = P} Allowed
          (Removable claim claims)
          (Left claims)
          (after_deleting_observe c context provider claim host now_ms r observation)
  unfolding after_deleting_observe
  after_deleting_observe-Leads claim claims host now_ms r (ok ProviderObservation.absent) =
      finalize-Leads claim claims
  after_deleting_observe-Leads claim claims host now_ms r
        (ok (ProviderObservation.present resource)) =
      kept-Leads
        (after_deleting_observe-present c context provider (Removable-IsInvariant claim claims)
          claim host now_ms r (ok (ProviderObservation.present resource)) (λ e. cc e))
        (Removable-Left claim claims)
  after_deleting_observe-Leads claim claims host now_ms r (err error) =
      kept-Leads
        (after_deleting_observe-present c context provider (Removable-IsInvariant claim claims)
          claim host now_ms r (err error) (λ e. cc e))
        (Removable-Left claim claims)

  release_host-Leads :
      (claim : HostClaimRecord) (claims : List HostClaimRecord) (now_ms : ℤ) (r : Readings)
      (host : HostRecord)
      → Leads {P = P} Allowed
          (Removable claim claims)
          (Left claims)
          (release_host c context provider claim now_ms r host)
  unfolding release_host
  release_host-Leads claim claims now_ms r host = by_deadline (is_due host.retry now_ms)
    where
      by_deadline :
          (b : Bool)
          → Leads {P = P} Allowed (Removable claim claims) (Left claims) (
              if b
              then call_provider context (provider.observe host.resource.id)
                >>= after_deleting_observe c context provider claim host now_ms r
              else pure ReconcileResult.idle)
      by_deadline true =
          bind-Leads (λ _. Removable claim claims) (Left claims) _ _
            (kept-Leads (call_provider-Maintains context (Removable-IsInvariant claim claims) _)
              (λ _ db v. v))
            (after_deleting_observe-Leads claim claims host now_ms r)
            (λ e. Removable-Left claim claims (err e))
      by_deadline false = pure-Leads ReconcileResult.idle λ db v. v.0

  release_claim-Leads :
      (claim : HostClaimRecord) (claims : List HostClaimRecord) (now_ms : ℤ) (r : Readings)
      (host_id : Option HostId)
      → Leads {P = P} Allowed
          (Removable claim claims)
          (Left claims)
          (release_claim c context provider claim now_ms r host_id)
  unfolding release_claim
  release_claim-Leads claim claims now_ms r none = finalize-Leads claim claims
  release_claim-Leads claim claims now_ms r (some host_id) =
      bind-Leads (λ _. Removable claim claims) (Left claims) _ _
        (kept-Leads
          (call_storage-Maintains context (Removable-IsInvariant claim claims) _
            (get_host-Keeps c (Removable-IsInvariant claim claims) host_id))
          (λ _ db v. v))
        (release_host-Leads claim claims now_ms r) (λ e. Removable-Left claim claims (err e))

  or_continue-Leads :
      (claims : List HostClaimRecord) (rest : Action c P ReconcileResult)
      → Leads Allowed (With claims) (λ r. Inv) rest
      → (result : ReconcileResult)
      → Leads {P = P} Allowed
          (Left claims (ok result))
          (λ r. Inv)
          (or_continue c context provider rest result)
  or_continue-Leads claims rest v ReconcileResult.progress =
      pure-Leads ReconcileResult.progress λ db w. w
  or_continue-Leads claims rest v ReconcileResult.idle = v

  scanned_claim-Leads :
      (now_ms : ℤ) (r : Readings) (claim : HostClaimRecord) (claims : List HostClaimRecord)
      (rest : Action c P ReconcileResult)
      → Leads Allowed (With claims) (λ r. Inv) rest
      → (marked due : Bool) → is_some claim.resource.deletion_timestamp ≡ marked
      → Leads {P = P} Allowed
          (With (claim ∷ claims))
          (λ r. Inv)
          (if marked && due
            then reconcile_deleting_claim c context provider claim now_ms r
              >>= or_continue c context provider rest
            else rest)
  unfolding reconcile_deleting_claim
  scanned_claim-Leads now_ms r claim claims rest v false due e = from-Leads (λ db w. (w.0, w.1.1)) v
  scanned_claim-Leads now_ms r claim claims rest v true false e =
      from-Leads (λ db w. (w.0, w.1.1)) v
  scanned_claim-Leads now_ms r claim claims rest v true true e =
      from-Leads (λ db w. ((w.0, w.1.1), w.1.0 e))
        (bind-Leads (Left claims) (λ r. Inv) _ _
          (release_claim-Leads claim claims now_ms r claim.resource.status.host_id)
          (or_continue-Leads claims rest v) (λ e' db w. w))

  pub scan_deleting-Leads :
      (now_ms : ℤ) (readings : HostClaimId → Readings) (claims : List HostClaimRecord)
      → Leads {P = P} Allowed
          (With claims)
          (λ r. Inv)
          (scan_deleting c context provider now_ms readings claims)
  unfolding scan_deleting
  scan_deleting-Leads now_ms readings [] = pure-Leads ReconcileResult.idle λ db v. v.0
  scan_deleting-Leads now_ms readings (claim ∷ claims) =
      scanned_claim-Leads now_ms (readings claim.resource.id) claim claims _
        (scan_deleting-Leads now_ms readings claims) _ (is_due claim.retry now_ms) refl
