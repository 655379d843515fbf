-- ===== src/Controller/Calls/Removal.antt =====
-- When `release_host` of controller.rs asks the provider to delete a resource.
use mc_control_plane.Base.{true, false, none, ◌≡◌, ◌⊎◌, ok, ℤ}
use mc_control_plane.Codec.{Codec}
use mc_control_plane.Domain.{HostRecord, is_due}
use mc_control_plane.Provider.{ProviderResource, ProviderObservation, HostProvider}
use mc_control_plane.Rpc.{RpcContext}
use mc_control_plane.Controller.World.{World}
use mc_control_plane.Controller.Outcomes.{ownership_conflict}

module _ (c : Codec) (context : RpcContext) {P : Type 0} (provider : HostProvider P) where
  open provider use {observe, delete}

  -- The Host is not due and the provider is as it was; or it is due, and the provider is as the
  -- observation leaves it, or a resource was observed that may be the Host's and one deletion followed.
  pub data Removed (host : HostRecord) (now_ms : ℤ) (p p' : P) : Type 0 where
    later : is_due host.retry now_ms ≡ false → p' ≡ p → Removed host now_ms p p'
    observed :
        is_due host.retry now_ms ≡ true
        → p' ≡ (observe host.resource.id p).1
        → Removed host now_ms p p'
    deleted :
        is_due host.retry now_ms ≡ true
        → (resource : ProviderResource)
        → (observe host.resource.id p).0 ≡ ok (ProviderObservation.present resource)
        → ownership_conflict host resource ≡ none
        → p' ≡ (delete host.resource.id (observe host.resource.id p).1).1
        → Removed host now_ms p p'

  abbrev DeletesOnce : HostRecord → P → P → Type 0
  DeletesOnce host p p' = (p' ≡ p) ⊎ (p' ≡ (delete host.resource.id p).1)
