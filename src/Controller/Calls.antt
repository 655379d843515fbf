-- ===== src/Controller/Calls.antt =====
-- Which calls of the provider a step of controller.rs makes: requests and storage calls leave the
-- provider as it is.
pub mod Creation
pub mod Removal
use mc_control_plane.Base.{
  Bool, true, false, List, [], ◌∷◌, ◌≡◌, refl, sym, subst, ◌∙◌, ◌⊎◌, inl, inr, Result, ok, err,
  if◌then◌else◌,
}
use mc_control_plane.AppErrors.{AppError}
use mc_control_plane.Codec.{Codec}
use mc_control_plane.Domain.{HostClaimRecord, HostRecord}
use mc_control_plane.Storage.Tables.{Op}
use mc_control_plane.Provider.{ProviderError, Call, HostProvider}
use mc_control_plane.Rpc.{RpcContext, Request, wake}
use mc_control_plane.Controller.World.{
  ReconcileResult, World, Action, pure, raise, ◌>>=◌, and_then, ask, try_storage, wake_controller,
  serve_batch, interleave, call_provider, try_call_storage, call_storage, returned,
}
use mc_control_plane.Controller.Reconcile.{woken_unless, persist_claim_status, save_both}

module _ {c : Codec} {P : Type 0} where
  -- A part of a step that makes no call of the provider.
  pub record Spares {A : Type 0} (m : Action c P A) : Type 0 where
    pub at : (w : World c P) → (m w).1.provider ≡ w.provider

  and_then-Spares :
      {A B : Type 0} (f : A → Action c P B) (r : Result AppError A × World c P)
      → ((a : A) → Spares (f a))
      → (and_then f r).1.provider ≡ r.1.provider
  and_then-Spares f (ok a, w) h = (h a).at w
  and_then-Spares f (err e, w) h = refl

  pub bind-Spares :
      {A B : Type 0} (m : Action c P A) (f : A → Action c P B)
      → Spares m
      → ((a : A) → Spares (f a))
      → Spares (m >>= f)
  unfolding ◌>>=◌
  bind-Spares m f k h = record { at = λ w. and_then-Spares f (m w) h ∙ k.at w }

  pub pure-Spares : {A : Type 0} (a : A) → Spares {A = A} (pure a)
  pure-Spares a = record { at = λ w. refl }

  wake_controller-Spares : Spares wake_controller
  unfolding wake_controller wake
  wake_controller-Spares = record { at = λ w. refl }

  -- After a part that makes no call, what the next part does to the provider.
  pub spared-then :
      {A B : Type 0} (Q : P → P → Type 0) (m : Action c P A) (f : A → Action c P B)
      → Spares m
      → ((p : P) → Q p p)
      → ((a : A) (w : World c P) → Q w.provider (f a w).1.provider)
      → (w : World c P) → Q w.provider ((m >>= f) w).1.provider
  unfolding ◌>>=◌
  spared-then Q m f k same h w =
      subst (λ p. Q p (and_then f (m w)).1.provider) (k.at w) (by_result (m w))
    where
      by_result : (r : Result AppError _ × World c P) → Q r.1.provider (and_then f r).1.provider
      by_result (ok a, w') = h a w'
      by_result (err e, w') = same w'.provider

module _ {c : Codec} {P : Type 0} (context : RpcContext) where
  -- Requests do not touch the provider.
  pub served_provider :
      (batches : List (List Request)) (w : World c P)
      → (serve_batch context batches w).provider ≡ w.provider
  unfolding serve_batch
  served_provider [] w = refl
  served_provider (batch ∷ rest) w = refl

  interleave-Spares : Spares (interleave {c = c} {P = P} context)
  unfolding interleave
  interleave-Spares = record { at = λ w. served_provider w.requests w }

  returned-Spares :
      {A : Type 0} (r : Result AppError A) → Spares (returned {c = c} {P = P} context r)
  returned-Spares (ok a) = record { at = λ w. refl }
  returned-Spares (err e) = record { at = λ w. refl }

  pub call_storage-Spares : {A : Type 0} (op : Op c A) → Spares (call_storage {P = P} context op)
  unfolding try_storage
  call_storage-Spares op =
      bind-Spares _ _ (bind-Spares _ _ interleave-Spares λ _. record { at = λ w. refl })
        returned-Spares

  -- A call of the provider, and what follows on its answer.
  pub asked-then :
      {A B : Type 0} (Q : P → Type 0) (call : Call P A) (f : Result ProviderError A → Action c P B)
      (w : World c P)
      → ((w' : World c P)
          → w'.provider ≡ (call w.provider).1
          → Q (f (call w.provider).0 w').1.provider)
      → Q ((call_provider context call >>= f) w).1.provider
  unfolding ◌>>=◌ interleave ask
  asked-then Q call f w h =
      let served = serve_batch context w.requests w in
      subst (λ p. Q (f (call p).0 (record served { provider = (call p).1 })).1.provider)
        (sym (served_provider w.requests w))
        (h (record served { provider = (call w.provider).1 }) refl)

module _ (c : Codec) (context : RpcContext) {P : Type 0} (provider : HostProvider P) where
  woken_unless-Spares : (stored : Bool) → Spares (woken_unless c context provider stored)
  unfolding woken_unless
  woken_unless-Spares true = pure-Spares tt
  woken_unless-Spares false = wake_controller-Spares

  pub save_both-Spares :
      (records : HostClaimRecord × HostRecord) (result : ReconcileResult)
      → Spares (save_both c context provider records result)
  unfolding save_both persist_claim_status
  save_both-Spares (claim, host) result = bind-Spares _ _ (call_storage-Spares context _) λ _.
      bind-Spares _ _ (bind-Spares _ _ (call_storage-Spares context _) woken_unless-Spares)
        λ _. pure-Spares result
