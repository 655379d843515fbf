-- ===== src/Controller/Preserved.antt =====
-- The parts of a step of the controller keep a property of the database that the statements keep,
-- whatever the provider answers and whichever requests are handled meanwhile.
pub mod Leads
pub mod Steps
pub mod Removal
pub mod Scan
pub mod Permits
use mc_control_plane.Base.{
  ◌≡◌, refl, ℕ, zero, suc, ℤ, String, Option, none, some, is_some, is_none, Bool, true, false, not,
  ◌&&◌, ◌||◌, List, [], ◌∷◌, Result, ok, err, if◌then◌else◌,
}
use mc_control_plane.Protocol.{HostId, HostClaimId, HostPhase, phase_eq}
use mc_control_plane.AppErrors.{AppError}
use mc_control_plane.Codec.{Codec}
use mc_control_plane.Domain.{HostClaimRecord, HostRecord, is_due}
use mc_control_plane.Storage.Tables.{Db, Op}
use mc_control_plane.Storage.Invariant.Interface.{IsInvariant}
use mc_control_plane.Storage.Invariant.Transactions.{Keeps}
use mc_control_plane.Provider.{
  Plan, ProviderResource, ProviderObservation, ProviderError, Call, HostProvider,
}
use mc_control_plane.Rpc.{RpcContext, Request, wake}
use mc_control_plane.Rpc.Preserved.{AllowsBatches, Always, AllowsBatches-Always, handle_all-Inv}
use mc_control_plane.Rpc.Answers.{handle_all-notified}
use mc_control_plane.Controller.World.{
  ReconcileResult, Readings, World, Action, pure, raise, ◌>>=◌, ◌>>◌, and_then, ask, try_storage,
  wake_controller, serve_batch, interleave, call_provider, try_call_storage, call_storage, returned,
}

module _ {c : Codec} {P : Type 0} (Allowed : HostClaimId → Type 0) (Inv : Db c → Type 0) where
  -- The property holds, and only what is allowed will be asked meanwhile.
  abbrev pub Holds : World c P → Type 0
  Holds w = Inv w.shared.db × AllowsBatches Allowed w.requests

  -- A part of a step that keeps the property and a stored permit, whether it succeeds or fails.
  pub record Maintains {A : Type 0} (m : Action c P A) : Type 0 where
    pub at : (w : World c P) → Holds w → Holds (m w).1
    pub permit : (w : World c P) → w.shared.notified ≡ true → (m w).1.shared.notified ≡ true

module _ {c : Codec} {P : Type 0} {Allowed : HostClaimId → Type 0} {Inv : Db c → Type 0} where
  and_then-Inv :
      {A B : Type 0} (f : A → Action c P B) (r : Result AppError A × World c P)
      → ((a : A) → Maintains Allowed Inv (f a))
      → Holds Allowed Inv r.1
      → Holds Allowed Inv (and_then f r).1
  and_then-Inv f (ok a, w) h v = (h a).at w v
  and_then-Inv f (err e, w) h v = v

  pub and_then-permit :
      {A B : Type 0} (f : A → Action c P B) (r : Result AppError A × World c P)
      → ((a : A) → Maintains Allowed Inv (f a))
      → r.1.shared.notified ≡ true
      → (and_then f r).1.shared.notified ≡ true
  and_then-permit f (ok a, w) h v = (h a).permit w v
  and_then-permit f (err e, w) h v = v

  pub bind-Maintains :
      {A B : Type 0} (m : Action c P A) (f : A → Action c P B)
      → Maintains Allowed Inv m
      → ((a : A) → Maintains Allowed Inv (f a))
      → Maintains Allowed Inv (m >>= f)
  unfolding ◌>>=◌
  bind-Maintains m f k h = record {
    at = λ w v. and_then-Inv f (m w) h (k.at w v);
    permit = λ w v. and_then-permit f (m w) h (k.permit w v);
  }

  pub if-Maintains :
      {A : Type 0} (b : Bool) (m n : Action c P A)
      → Maintains Allowed Inv m
      → Maintains Allowed Inv n
      → Maintains Allowed Inv (if b then m else n)
  if-Maintains true m n h k = h
  if-Maintains false m n h k = k

  pub pure-Maintains : {A : Type 0} (a : A) → Maintains {P = P} Allowed Inv {A = A} (pure a)
  pure-Maintains a = record { at = λ w v. v; permit = λ w v. v }

  pub raise-Maintains :
      {A : Type 0} (e : AppError) → Maintains {P = P} Allowed Inv {A = A} (raise e)
  raise-Maintains e = record { at = λ w v. v; permit = λ w v. v }

  pub wake_controller-Maintains : Maintains {P = P} Allowed Inv wake_controller
  unfolding wake_controller wake
  wake_controller-Maintains = record { at = λ w v. v; permit = λ w v. refl }

  pub ask-Maintains : {A : Type 0} (call : Call P A) → Maintains Allowed Inv (ask call)
  unfolding ask
  ask-Maintains call = record { at = λ w v. v; permit = λ w v. v }

  try_storage-Maintains :
      {A : Type 0} (op : Op c A) → Keeps Inv op → Maintains {P = P} Allowed Inv (try_storage op)
  unfolding try_storage
  try_storage-Maintains op k = record { at = λ w v. (k.at w.shared.db v.0, v.1); permit = λ w v. v }

  returned-Maintains :
      {A : Type 0} (context : RpcContext) (r : Result AppError A)
      → Maintains {P = P} Allowed Inv (returned context r)
  returned-Maintains context (ok a) = pure-Maintains a
  returned-Maintains context (err e) = raise-Maintains e

module _ {c : Codec} {P : Type 0} (context : RpcContext) where
  pub serve_batch-permit :
      (batches : List (List Request)) (w : World c P)
      → w.shared.notified ≡ true
      → (serve_batch context batches w).shared.notified ≡ true
  unfolding serve_batch
  serve_batch-permit [] w v = v
  serve_batch-permit (batch ∷ rest) w v = handle_all-notified c context batch w.shared v

module _ {c : Codec} {P : Type 0} (context : RpcContext) {Allowed : HostClaimId → Type 0}
    {Inv : Db c → Type 0} where
  serve_batch-Holds :
      IsInvariant Allowed Inv
      → (batches : List (List Request)) (w : World c P) → AllowsBatches Allowed batches
      → Holds Allowed Inv w
      → Holds Allowed Inv (serve_batch context batches w)
  unfolding serve_batch
  serve_batch-Holds k [] w a v = v
  serve_batch-Holds k (batch ∷ rest) w a v =
      (handle_all-Inv c context k batch w.shared a.0 v.0, a.1)

  pub interleave-Maintains :
      IsInvariant Allowed Inv → Maintains Allowed Inv (interleave {c = c} {P = P} context)
  unfolding interleave
  interleave-Maintains k = record {
    at = λ w v. serve_batch-Holds k w.requests w v.1 v;
    permit = λ w v. serve_batch-permit context w.requests w v;
  }

  pub call_provider-Maintains :
      {A : Type 0}
      → IsInvariant Allowed Inv
      → (call : Call P A) → Maintains Allowed Inv (call_provider {c = c} context call)
  call_provider-Maintains k call =
      bind-Maintains _ _ (interleave-Maintains k) λ _. ask-Maintains call

  pub try_call_storage-Maintains :
      {A : Type 0}
      → IsInvariant Allowed Inv
      → (op : Op c A) → Keeps Inv op
      → Maintains Allowed Inv (try_call_storage {P = P} context op)
  try_call_storage-Maintains k op o =
      bind-Maintains _ _ (interleave-Maintains k) λ _. try_storage-Maintains op o

  pub call_storage-Maintains :
      {A : Type 0}
      → IsInvariant Allowed Inv
      → (op : Op c A) → Keeps Inv op
      → Maintains Allowed Inv (call_storage {P = P} context op)
  call_storage-Maintains k op o =
      bind-Maintains _ _ (try_call_storage-Maintains k op o) λ r. returned-Maintains context r

module _ {c : Codec} {P : Type 0} (context : RpcContext) {Inv : Db c → Type 0} where
  -- With every request allowed.
  pub serve_batch-Inv :
      IsInvariant Always Inv
      → (batches : List (List Request)) (w : World c P) → Inv w.shared.db
      → Inv (serve_batch context batches w).shared.db
  serve_batch-Inv k batches w v =
      (serve_batch-Holds context k batches w (AllowsBatches-Always batches)
        (v, AllowsBatches-Always w.requests)).0

  -- A permit that the requests before a storage call leave is there after it.
  pub call_storage-served :
      {A : Type 0} (op : Op c A)
      → Keeps Inv op
      → (w : World c P) → (serve_batch context w.requests w).shared.notified ≡ true
      → (call_storage context op w).1.shared.notified ≡ true
  unfolding ◌>>=◌ interleave
  call_storage-served op o w h =
      (bind-Maintains _ _ (try_storage-Maintains {Allowed = Always} op o)
          (returned-Maintains context)).permit
        (serve_batch context w.requests w) h
