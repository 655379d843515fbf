-- ===== src/Controller/World.antt =====
-- What a step of the controller acts on. Every call of the storage or the provider is an `await`,
-- and between two of them the RPC server may handle requests: `requests` holds a batch for each
-- call, handled just before it. The storage has one connection, so an operation itself is not
-- interrupted.
use mc_control_plane.Base.{List, [], ◌∷◌, Result, ok, err}
use mc_control_plane.Protocol.{HostId, Timestamp}
use mc_control_plane.AppErrors.{AppError}
use mc_control_plane.Codec.{Codec}
use mc_control_plane.Storage.Tables.{Op}
use mc_control_plane.Provider.{ProviderError, Call}
use mc_control_plane.Rpc.{RpcContext, Request, Shared, wake, handle_all}

pub data ReconcileResult : Type 0 where
  progress idle : ReconcileResult

-- The readings of the clock and of `HostId::new()` that the work on one claim takes.
pub record Readings : Type 0 where
  pub now : Timestamp
  pub fresh : HostId

pub record World (c : Codec) (P : Type 0) : Type 0 where
  pub shared : Shared c
  pub provider : P
  pub requests : List (List Request)

abbrev pub Action : Codec → Type 0 → Type 0 → Type 0
Action c P A = World c P → Result AppError A × World c P

module _ {c : Codec} {P : Type 0} where
  abbrev pub pure : {A : Type 0} → A → Action c P A
  pure a w = (ok a, w)

  abbrev pub raise : {A : Type 0} → AppError → Action c P A
  raise e w = (err e, w)

  abbrev pub and_then :
      {A B : Type 0}
      → (A → Action c P B)
      → Result AppError A × World c P
      → Result AppError B × World c P
  and_then f (ok a, w) = f a w
  and_then f (err e, w) = (err e, w)

  infixl 5 ◌>>=◌ ◌>>◌
  unfoldable pub ◌>>=◌ : {A B : Type 0} → Action c P A → (A → Action c P B) → Action c P B
  ◌>>=◌ m f w = and_then f (m w)

  abbrev pub ◌>>◌ : {A B : Type 0} → Action c P A → Action c P B → Action c P B
  m >> k = m >>= λ _. k

  -- `self.handle.wake()`.
  unfoldable pub wake_controller : Action c P (Unit {0})
  unfolding wake
  wake_controller w = (ok tt, record w { shared = wake w.shared })

  -- The provider's answer is a value, its errors included.
  unfoldable pub ask : {A : Type 0} → Call P A → Action c P (Result ProviderError A)
  ask call w = (ok (call w.provider).0, record w { provider = (call w.provider).1 })

  -- A storage operation, whose error ends the step, and one whose error the step looks at.
  unfoldable pub try_storage : {A : Type 0} → Op c A → Action c P (Result AppError A)
  try_storage op w =
      (ok (op w.shared.db).0, record w { shared = record (w.shared) { db = (op w.shared.db).1 } })

module _ {c : Codec} {P : Type 0} (context : RpcContext) where
  unfoldable pub serve_batch : List (List Request) → World c P → World c P
  serve_batch [] w = w
  serve_batch (batch ∷ rest) w = record w {
    shared = handle_all c context batch w.shared;
    requests = rest;
  }

  -- What the RPC server does while the controller waits.
  unfoldable pub interleave : Action c P (Unit {0})
  unfolding serve_batch
  interleave w = (ok tt, serve_batch w.requests w)

  abbrev pub call_provider : {A : Type 0} → Call P A → Action c P (Result ProviderError A)
  call_provider call = interleave >> ask call

  abbrev pub try_call_storage : {A : Type 0} → Op c A → Action c P (Result AppError A)
  try_call_storage op = interleave >> try_storage op

  abbrev pub returned : {A : Type 0} → Result AppError A → Action c P A
  returned (ok a) = pure a
  returned (err e) = raise e

  abbrev pub call_storage : {A : Type 0} → Op c A → Action c P A
  call_storage op = try_call_storage op >>= returned
