-- ===== src/Controller/Deletion/Finalized.antt =====
-- A claim that is being deleted is finalized once the provider shows no resource of its Host.
use mc_control_plane.Base.{
  ℤ, none, is_some, true, ◌≡◌, refl, sym, subst, Option-cases, inl, inr, Result, ok, find_row, ap,
}
use mc_control_plane.AppErrors.{AppError}
use mc_control_plane.Codec.{Codec}
use mc_control_plane.Domain.{is_due, HostClaimRecord, HostRecord}
use mc_control_plane.Storage.Tables.{claim_has_id, host_has_claim}
use mc_control_plane.Storage.Claims.Status.{finalize_claim-found}
use mc_control_plane.Provider.{ProviderObservation, HostProvider}
use mc_control_plane.Rpc.{RpcContext}
use mc_control_plane.Controller.World.{
  ReconcileResult, Readings, World, ◌>>=◌, interleave, ask, try_storage, serve_batch,
}
use mc_control_plane.Controller.Deletion.{finalize, after_deleting_observe, release_host}
use mc_control_plane.Controller.Deletion.Release.{IsPresent-IsInvariant}
use mc_control_plane.Controller.Calls.{served_provider}
use mc_control_plane.Controller.Preserved.{serve_batch-Inv}

module _ (c : Codec) (context : RpcContext) {P : Type 0} (provider : HostProvider P) where
  open c use {uuid_to_string}
  open provider use {observe}

  -- The step made progress, and the claim is gone with its Hosts.
  abbrev pub IsFinalized : HostClaimRecord → Result AppError ReconcileResult × World c P → Type 0
  IsFinalized claim r =
      (r.0 ≡ ok ReconcileResult.progress)
      × (find_row (claim_has_id (uuid_to_string claim.resource.id)) r.1.shared.db.host_claims
          ≡ none)
      × (find_row (host_has_claim (uuid_to_string claim.resource.id)) r.1.shared.db.hosts ≡ none)

  finalize-IsFinalized :
      (claim : HostClaimRecord) (w : World c P)
      → is_some (find_row (claim_has_id (uuid_to_string claim.resource.id)) w.shared.db.host_claims)
        ≡ true
      → IsFinalized claim (finalize c context provider claim w)
  unfolding finalize ◌>>=◌ interleave try_storage
  finalize-IsFinalized claim w present =
      let served = serve_batch context w.requests w in
      let there =
        (serve_batch-Inv context (IsPresent-IsInvariant (uuid_to_string claim.resource.id))
          w.requests w (record { found = present })).found in
      elim (Option-cases
        (find_row (claim_has_id (uuid_to_string claim.resource.id)) served.shared.db.host_claims)) [
          | inl missing ↦ absurd (cc (ap is_some missing, there))
          | inr (r, found) ↦
              let (fine, gone, unhosted) =
                finalize_claim-found c claim.resource.id served.shared.db r found in
              rw fine (refl, gone, unhosted)
        ]

  -- When the Host of a claim that is there is due and the provider shows no resource of it, the step
  -- succeeds and removes the claim with its Hosts, whatever requests are handled meanwhile.
  pub release_host-IsFinalized :
      (claim : HostClaimRecord) (host : HostRecord) (now_ms : ℤ) (r : Readings) (w : World c P)
      → is_due host.retry now_ms ≡ true
      → (observe host.resource.id w.provider).0 ≡ ok ProviderObservation.absent
      → is_some (find_row (claim_has_id (uuid_to_string claim.resource.id)) w.shared.db.host_claims)
        ≡ true
      → IsFinalized claim (release_host c context provider claim now_ms r host w)
  unfolding release_host after_deleting_observe ◌>>=◌ interleave ask
  release_host-IsFinalized claim host now_ms r w due unseen present =
      let served = serve_batch context w.requests w in
      let unseen' =
        subst (λ p. (observe host.resource.id p).0 ≡ ok ProviderObservation.absent)
          (sym (served_provider context w.requests w)) unseen in
      rw (due, unseen')
        (finalize-IsFinalized claim
          (record served { provider = (observe host.resource.id served.provider).1 })
          (serve_batch-Inv context (IsPresent-IsInvariant (uuid_to_string claim.resource.id))
            w.requests w (record { found = present })).found)
