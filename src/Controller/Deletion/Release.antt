-- ===== src/Controller/Deletion/Release.antt =====
-- A claim whose Host has been assigned is not finalized before the provider shows no resource of it.
use mc_control_plane.Base.{
  Bool-cases, ℕ, ℤ, String, str_eq, is_some, true, ◌≡◌, ◌≢◌, sym, ap, ◌∙◌, subst, ok, inl, inr,
  find_row,
}
use mc_control_plane.Base.Table.Keys.{find_row-update_rows}
use mc_control_plane.Protocol.{HostClaimId}
use mc_control_plane.Rpc.Preserved.{Always, AllowsBatches-Always}
use mc_control_plane.Codec.{Codec}
use mc_control_plane.Domain.{is_due, HostClaimRecord, HostRecord}
use mc_control_plane.Storage.Tables.{Db, claim_has_id, update_claim_rows}
use mc_control_plane.Storage.Invariant.Interface.{IsInvariant}
use mc_control_plane.Storage.Invariant.Consistent.{
  insert_claim_row_ok, insert_host_row_ok, update_host_row_ok, is_some-append,
}
use mc_control_plane.Provider.{ProviderObservation, HostProvider}
use mc_control_plane.Rpc.{RpcContext}
use mc_control_plane.Controller.World.{Readings, World, ◌>>=◌, ask, interleave, serve_batch}
use mc_control_plane.Controller.Deletion.{release_host}
use mc_control_plane.Controller.Calls.{served_provider}
use mc_control_plane.Controller.Preserved.{serve_batch-Inv}
use mc_control_plane.Controller.Preserved.Steps.{after_deleting_observe-present}

module _ {c : Codec} (id : String) where
  -- The claim is in the database.
  pub record IsPresent (db : Db c) : Type 0 where
    pub found : is_some (find_row (claim_has_id id) db.host_claims) ≡ true

  pub IsPresent-IsInvariant : {Allowed : HostClaimId → Type 0} → IsInvariant Allowed IsPresent
  unfolding update_claim_rows
  IsPresent-IsInvariant = record {
    insert_claim = λ row db db' _ e v.
        let (_, same) = insert_claim_row_ok row db db' e in
        subst IsPresent (sym same)
          (record { found = is_some-append (claim_has_id id) db.host_claims row v.found });
    insert_host = λ row db r _ _ e v. elim (insert_host_row_ok row db r e) [
      | inl same ↦ subst (λ (s : ℕ × Db c). IsPresent s.1) (sym same) v
      | inr (_, _, _, same) ↦
          subst (λ (s : ℕ × Db c). IsPresent s.1) (sym same) (record { found = v.found })
    ];
    update_claims = λ p f db u _ v. record {
      found =
          find_row-update_rows (claim_has_id id) p f db.host_claims
            (λ r. ap (λ s. str_eq s id) (u.same_id r))
          ∙ v.found;
    };
    update_host = λ host_id written f db r u e v.
        subst IsPresent (sym (update_host_row_ok host_id written f db r e).0)
          (record { found = v.found });
  }

module _ (c : Codec) (context : RpcContext) {P : Type 0} (provider : HostProvider P) where
  open provider use {observe}

  -- If the provider does not answer that the Host of a claim that is being deleted is absent, no claim
  -- is finalized: every claim that was there is there after the step, whatever requests are handled
  -- meanwhile.
  pub release_host-IsPresent :
      (claim : HostClaimRecord) (host : HostRecord) (now_ms : ℤ) (r : Readings) (w : World c P)
      (id : String)
      → (observe host.resource.id w.provider).0 ≢ ok ProviderObservation.absent
      → is_some (find_row (claim_has_id id) w.shared.db.host_claims) ≡ true
      → is_some (
          find_row
            (claim_has_id id)
            (release_host c context provider claim now_ms r host w).1.shared.db.host_claims)
        ≡ true
  unfolding release_host ◌>>=◌ interleave ask
  release_host-IsPresent claim host now_ms r w id unseen present =
      elim (Bool-cases (is_due host.retry now_ms)) [
        | inr later ↦ rw later present
        | inl due ↦
            rw due
              ((after_deleting_observe-present c context provider
                  (IsPresent-IsInvariant id {Allowed = Always}) claim host now_ms r
                  (observe host.resource.id (serve_batch context w.requests w).provider).0
                  (subst (λ p. (observe host.resource.id p).0 ≢ ok ProviderObservation.absent)
                    (sym (served_provider context w.requests w)) unseen)).at
                _
                (
                  serve_batch-Inv context (IsPresent-IsInvariant id) w.requests w
                      (record { found = present }),
                  AllowsBatches-Always _,
                )).0.found
      ]
