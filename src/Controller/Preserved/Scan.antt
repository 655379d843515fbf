-- ===== src/Controller/Preserved/Scan.antt =====
-- The scan over the claims, with the finalization of claims, keeps a property of the database that the
-- statements keep.
use mc_control_plane.Base.{String, true, ◌≡◌, ℤ, Option, none, some, List, [], ◌∷◌, Result, ok, err}
use mc_control_plane.AppErrors.{AppError}
use mc_control_plane.Protocol.{HostId, HostClaimId}
use mc_control_plane.Codec.{Codec}
use mc_control_plane.Domain.{HostClaimRecord, HostRecord}
use mc_control_plane.Storage.Tables.{Db}
use mc_control_plane.Storage.Invariant.Interface.{IsInvariant}
use mc_control_plane.Storage.Invariant.Guarded.{GuardedResult, IsDeletionGuard}
use mc_control_plane.Storage.Invariant.Operations.{list_claims-Keeps}
use mc_control_plane.Storage.Invariant.HostOperations.{get_host-Keeps}
use mc_control_plane.Storage.Claims.{list_claims}
use mc_control_plane.Provider.{HostProvider}
use mc_control_plane.Rpc.{RpcContext}
use mc_control_plane.Controller.World.{ReconcileResult, Readings, World, Action, ◌>>=◌, serve_batch}
use mc_control_plane.Controller.Loop.{
  or_continue, scan_deleting, reconcile_bound_claim, reconcile_live_claim, scan_live,
  reconcile_once,
}
use mc_control_plane.Controller.Preserved.{
  Maintains, bind-Maintains, if-Maintains, pure-Maintains, call_storage-Maintains,
  call_storage-served,
}
use mc_control_plane.Controller.Preserved.Steps.{
  reconcile_unbound_claim-Maintains, reconcile_host-Maintains,
}
use mc_control_plane.Controller.Preserved.Leads.{
  Leads, kept-Leads, Leads-Maintains, bind-Leads, and_then-permitted, call_storage-Leads,
}
use mc_control_plane.Controller.Preserved.Removal.{With, scan_deleting-Leads}

module _ (c : Codec) (context : RpcContext) {P : Type 0} (provider : HostProvider P)
    {Allowed : HostClaimId → Type 0} {Inv : Db c → Type 0} (k : IsInvariant Allowed Inv)
    {Guard : String → Db c → Type 0} (d : IsDeletionGuard Guard Allowed Inv) where
  or_continue-Maintains :
      (rest : Action c P ReconcileResult)
      → Maintains Allowed Inv rest
      → (result : ReconcileResult)
      → Maintains {P = P} Allowed Inv (or_continue c context provider rest result)
  or_continue-Maintains rest v ReconcileResult.progress = pure-Maintains _
  or_continue-Maintains rest v ReconcileResult.idle = v

  reconcile_bound_claim-Maintains :
      (claim : HostClaimRecord) (now_ms : ℤ) (r : Readings) (host : HostRecord)
      → Maintains {P = P} Allowed Inv (reconcile_bound_claim c context provider claim now_ms r host)
  unfolding reconcile_bound_claim
  reconcile_bound_claim-Maintains claim now_ms r host =
      if-Maintains _ _ _ (pure-Maintains _)
        (reconcile_host-Maintains c context provider k claim host now_ms r)

  reconcile_live_claim-Maintains :
      (claim : HostClaimRecord) (now_ms : ℤ) (r : Readings) (host_id : Option HostId)
      → Maintains {P = P} Allowed Inv
          (reconcile_live_claim c context provider claim now_ms r host_id)
  unfolding reconcile_live_claim
  reconcile_live_claim-Maintains claim now_ms r (some host_id) =
      bind-Maintains _ _ (call_storage-Maintains context k _ (get_host-Keeps c k host_id))
        (reconcile_bound_claim-Maintains claim now_ms r)
  reconcile_live_claim-Maintains claim now_ms r none =
      if-Maintains _ _ _ (reconcile_unbound_claim-Maintains c context provider k claim now_ms r)
        (pure-Maintains _)

  scan_live-Maintains :
      (now_ms : ℤ) (readings : HostClaimId → Readings) (claims : List HostClaimRecord)
      → Maintains {P = P} Allowed Inv (scan_live c context provider now_ms readings claims)
  unfolding scan_live
  scan_live-Maintains now_ms readings [] = pure-Maintains _
  scan_live-Maintains now_ms readings (claim ∷ claims) =
      let rest = scan_live-Maintains now_ms readings claims in
      if-Maintains _ _ _
        (bind-Maintains _ _ (reconcile_live_claim-Maintains claim now_ms _ _)
          (or_continue-Maintains _ rest))
        rest

  abbrev Read : Result AppError (List HostClaimRecord) → Db c → Type 0
  Read (ok claims) db = With c context provider k d claims db
  Read (err e) db = Inv db

  list_claims-Read : (db : Db c) → Inv db → Read (list_claims c db).0 (list_claims c db).1
  list_claims-Read db v =
      by_answer (list_claims c db).0 (list_claims c db).1 ((list_claims-Keeps c k).at db v)
        (d.listed db v)
    where
      by_answer :
          (r : Result AppError (List HostClaimRecord)) (db' : Db c)
          → Inv db'
          → GuardedResult Guard r db'
          → Read r db'
      by_answer (ok claims) db' v g = (v, g)
      by_answer (err e) db' v g = v

  scanned :
      (now_ms : ℤ) (readings : HostClaimId → Readings) (claims : List HostClaimRecord)
      → Leads {P = P} Allowed
          (With c context provider k d claims)
          (λ r. Inv)
          (scan_deleting c context provider now_ms readings claims
            >>= or_continue c context provider
                (scan_live c context provider now_ms readings claims))
  scanned now_ms readings claims =
      bind-Leads (λ r. Inv) (λ r. Inv) _ _
        (scan_deleting-Leads c context provider k d now_ms readings claims)
        (λ deletions.
          kept-Leads
            (or_continue-Maintains _ (scan_live-Maintains now_ms readings claims) deletions)
            (λ r db v. v))
        (λ e db v. v)

  pub reconcile_once-Maintains :
      (now_ms : ℤ) (readings : HostClaimId → Readings)
      → Maintains {P = P} Allowed Inv (reconcile_once c context provider now_ms readings)
  unfolding reconcile_once
  reconcile_once-Maintains now_ms readings = Leads-Maintains (
      bind-Leads Read (λ r. Inv) _ _
        (call_storage-Leads context Read k (list_claims c) list_claims-Read)
        (scanned now_ms readings) (λ e db v. v))

  -- A permit that is stored when a step has read the claims is there after the step.
  pub reconcile_once-served :
      (now_ms : ℤ) (readings : HostClaimId → Readings) (w : World c P)
      → (serve_batch context w.requests w).shared.notified ≡ true
      → (reconcile_once c context provider now_ms readings w).1.shared.notified ≡ true
  unfolding reconcile_once ◌>>=◌
  reconcile_once-served now_ms readings w h =
      and_then-permitted Read (λ r. Inv) _ _ (scanned now_ms readings)
        (call_storage-served context (list_claims c) (list_claims-Keeps c k) w h)
