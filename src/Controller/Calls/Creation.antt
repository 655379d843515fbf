-- ===== src/Controller/Calls/Creation.antt =====
-- When `reconcile_host` of controller.rs asks the provider to create a resource.
use mc_control_plane.Base.{
  String, true, false, not, ◌||◌, Option, none, some, is_some, ◌≡◌, refl, sym, ap, ◌∙◌, ◌⊎◌, inl,
  inr, Result, ok, err, Bool-cases, arith, ℤ,
}
use mc_control_plane.Protocol.{HostPhase, phase_eq}
use mc_control_plane.Codec.{Codec}
use mc_control_plane.Domain.{HostClaimRecord, HostRecord}
use mc_control_plane.Provider.{ProviderResource, ProviderObservation, ProviderError, HostProvider}
use mc_control_plane.Rpc.{RpcContext}
use mc_control_plane.Controller.World.{Readings, World}
use mc_control_plane.Controller.Outcomes.{ownership_conflict}
use mc_control_plane.Controller.Reconcile.{
  observed_present, create_host, observed_absent, after_observe, reconcile_host,
}
use mc_control_plane.Controller.Calls.{
  Spares, spared-then, call_storage-Spares, asked-then, save_both-Spares,
}

module _ (c : Codec) (context : RpcContext) {P : Type 0} (provider : HostProvider P) where
  open provider use {observe, create}

  -- The provider is as the observation of the Host's resource leaves it; or there was none, nothing
  -- has been created for the Host, and one creation with its plan followed.
  pub data Asked (host : HostRecord) (p p' : P) : Type 0 where
    observed : p' ≡ (observe host.resource.id p).1 → Asked host p p'
    created :
        (observe host.resource.id p).0 ≡ ok ProviderObservation.absent
        → phase_eq host.resource.status.phase HostPhase.pending ≡ true
        → host.resource.status.provider_resource_id ≡ none
        → p' ≡ (create host.resource.id host.provider_plan_id (observe host.resource.id p).1).1
        → Asked host p p'

  -- Either no call or one creation.
  abbrev CreatesOnce : HostRecord → P → P → Type 0
  CreatesOnce host p p' = (p' ≡ p) ⊎ (p' ≡ (create host.resource.id host.provider_plan_id p).1)

  create_host-CreatesOnce :
      (claim : HostClaimRecord) (host : HostRecord) (now_ms : ℤ) (r : Readings) (w : World c P)
      → CreatesOnce host w.provider
          (create_host c context provider claim host now_ms r w).1.provider
  unfolding create_host
  create_host-CreatesOnce claim host now_ms r =
      spared-then (CreatesOnce host) _ _ (call_storage-Spares context _) (λ p. inl refl)
        λ _ w. inr (
          asked-then context (λ p. p ≡ (create host.resource.id host.provider_plan_id w.provider).1)
            _ _ w λ w' e. (save_both-Spares c context provider _ _).at w' ∙ e)

  observed_present-Spares :
      (claim : HostClaimRecord) (host : HostRecord) (r : Readings) (resource : ProviderResource)
      (conflict : Option String)
      → Spares (observed_present c context provider claim host r resource conflict)
  unfolding observed_present
  observed_present-Spares claim host r resource (some expected) =
      save_both-Spares c context provider _ _
  observed_present-Spares claim host r resource none = save_both-Spares c context provider _ _

  is_none-none : (o : Option String) → is_some o ≡ false → o ≡ none
  is_none-none none e = refl
  is_none-none (some s) e = absurd (cc e)

  observed_absent-Asked :
      (claim : HostClaimRecord) (host : HostRecord) (now_ms : ℤ) (r : Readings) (p : P)
      (w : World c P)
      → ok ProviderObservation.absent ≡ (observe host.resource.id p).0
      → w.provider ≡ (observe host.resource.id p).1
      → Asked host p (observed_absent c context provider claim host now_ms r w).1.provider
  unfolding observed_absent
  observed_absent-Asked claim host now_ms r p w unseen e =
      elim (Bool-cases (
        is_some host.resource.status.provider_resource_id
        || not (phase_eq host.resource.status.phase HostPhase.pending))) [
          | inl known ↦
              rw known (Asked.observed ((save_both-Spares c context provider _ _).at w ∙ e))
          | inr fresh ↦ rw fresh (by_creation (create_host-CreatesOnce claim host now_ms r w) fresh)
        ]
    where
      by_creation :
          {p' : P}
          → CreatesOnce host w.provider p'
          → (is_some host.resource.status.provider_resource_id
              || not (phase_eq host.resource.status.phase HostPhase.pending))
            ≡ false
          → Asked host p p'
      by_creation (inl same) fresh = Asked.observed (same ∙ e)
      by_creation (inr made) fresh =
          Asked.created (sym unseen) (ground (arith, fresh))
            (is_none-none host.resource.status.provider_resource_id (ground (arith, fresh)))
            (made ∙ ap (λ q. (create host.resource.id host.provider_plan_id q).1) e)

  -- Whatever requests are handled meanwhile and whatever fails: the work on a bound claim asks the
  -- provider for one observation, and asks it for one creation after that, with the plan of the Host,
  -- only if the observation found nothing, the Host is pending and no resource is recorded for it.
  pub reconcile_host-Asked :
      (claim : HostClaimRecord) (host : HostRecord) (now_ms : ℤ) (r : Readings) (w : World c P)
      → Asked host w.provider (reconcile_host c context provider claim host now_ms r w).1.provider
  unfolding reconcile_host after_observe
  reconcile_host-Asked claim host now_ms r w =
      asked-then context (Asked host w.provider) (observe host.resource.id) _ w
        (by_observation (observe host.resource.id w.provider).0 refl)
    where
      by_observation :
          (o : Result ProviderError ProviderObservation)
          → o ≡ (observe host.resource.id w.provider).0
          → (w' : World c P) → w'.provider ≡ (observe host.resource.id w.provider).1
          → Asked host w.provider
              (after_observe c context provider claim host now_ms r o w').1.provider
      by_observation (ok (ProviderObservation.present resource)) s w' e = Asked.observed (
          (observed_present-Spares claim host r resource (ownership_conflict host resource)).at w'
          ∙ e)
      by_observation (ok ProviderObservation.absent) s w' e =
          observed_absent-Asked claim host now_ms r w.provider w' s e
      by_observation (err error) s w' e =
          Asked.observed ((save_both-Spares c context provider _ _).at w' ∙ e)
