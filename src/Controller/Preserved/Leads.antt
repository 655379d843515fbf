-- ===== src/Controller/Preserved/Leads.antt =====
-- Parts of a step of the controller that lead from one property of the database to another, which may
-- depend on their answer; and that keep a stored permit.
use mc_control_plane.Base.{◌≡◌, true, Result, ok, err}
use mc_control_plane.AppErrors.{AppError}
use mc_control_plane.Protocol.{HostClaimId}
use mc_control_plane.Codec.{Codec}
use mc_control_plane.Storage.Tables.{Db, Op}
use mc_control_plane.Storage.Invariant.Interface.{IsInvariant}
use mc_control_plane.Rpc.{RpcContext}
use mc_control_plane.Controller.World.{
  World, Action, ◌>>=◌, and_then, pure, try_storage, interleave, call_storage, returned,
}
use mc_control_plane.Controller.Preserved.{Holds, Maintains, interleave-Maintains}

module _ {c : Codec} {P : Type 0} where
  pub record Leads (Allowed : HostClaimId → Type 0) (Pre : Db c → Type 0) {A : Type 0}
      (Post : Result AppError A → Db c → Type 0) (m : Action c P A) : Type 0 where
    pub at : (w : World c P) → Holds Allowed Pre w → Holds Allowed (Post (m w).0) (m w).1
    pub permit : (w : World c P) → w.shared.notified ≡ true → (m w).1.shared.notified ≡ true

  -- What is kept leads to what follows from it.
  pub kept-Leads :
      {Allowed : HostClaimId → Type 0} {Pre : Db c → Type 0} {A : Type 0}
      {Post : Result AppError A → Db c → Type 0} {m : Action c P A}
      → Maintains Allowed Pre m
      → ((r : Result AppError A) (db : Db c) → Pre db → Post r db)
      → Leads Allowed Pre Post m
  kept-Leads k h = record { at = λ w v. (h _ _ (k.at w v).0, (k.at w v).1); permit = k.permit }

  pub from-Leads :
      {Allowed : HostClaimId → Type 0} {Pre Pre' : Db c → Type 0} {A : Type 0}
      {Post : Result AppError A → Db c → Type 0} {m : Action c P A}
      → ((db : Db c) → Pre db → Pre' db)
      → Leads Allowed Pre' Post m
      → Leads Allowed Pre Post m
  from-Leads h k = record { at = λ w v. k.at w (h w.shared.db v.0, v.1); permit = k.permit }

  pub Leads-Maintains :
      {Allowed : HostClaimId → Type 0} {Inv : Db c → Type 0} {A : Type 0} {m : Action c P A}
      → Leads Allowed Inv (λ r. Inv) m
      → Maintains Allowed Inv m
  Leads-Maintains k = record { at = k.at; permit = k.permit }

  pub pure-Leads :
      {Allowed : HostClaimId → Type 0} {Pre : Db c → Type 0} {A : Type 0}
      {Post : Result AppError A → Db c → Type 0} (a : A)
      → ((db : Db c) → Pre db → Post (ok a) db)
      → Leads Allowed Pre Post (pure a)
  pure-Leads a h = record { at = λ w v. (h w.shared.db v.0, v.1); permit = λ w v. v }

  module _ {Allowed : HostClaimId → Type 0} {A B : Type 0} (Mid : Result AppError A → Db c → Type 0)
      (Post : Result AppError B → Db c → Type 0) where
    and_then-Leads :
        (f : A → Action c P B) (r : Result AppError A × World c P)
        → ((a : A) → Leads Allowed (Mid (ok a)) Post (f a))
        → ((e : AppError) (db : Db c) → Mid (err e) db → Post (err e) db)
        → Holds Allowed (Mid r.0) r.1
        → Holds Allowed (Post (and_then f r).0) (and_then f r).1
    and_then-Leads f (ok a, w) h g v = (h a).at w v
    and_then-Leads f (err e, w) h g v = (g e w.shared.db v.0, v.1)

    pub and_then-permitted :
        (f : A → Action c P B) (r : Result AppError A × World c P)
        → ((a : A) → Leads Allowed (Mid (ok a)) Post (f a))
        → r.1.shared.notified ≡ true
        → (and_then f r).1.shared.notified ≡ true
    and_then-permitted f (ok a, w) h v = (h a).permit w v
    and_then-permitted f (err e, w) h v = v

    pub bind-Leads :
        {Pre : Db c → Type 0} (m : Action c P A) (f : A → Action c P B)
        → Leads Allowed Pre Mid m
        → ((a : A) → Leads Allowed (Mid (ok a)) Post (f a))
        → ((e : AppError) (db : Db c) → Mid (err e) db → Post (err e) db)
        → Leads Allowed Pre Post (m >>= f)
    unfolding ◌>>=◌
    bind-Leads m f k h g = record {
      at = λ w v. and_then-Leads f (m w) h g (k.at w v);
      permit = λ w v. and_then-permitted f (m w) h (k.permit w v);
    }

module _ {c : Codec} {A : Type 0} (Post : Result AppError A → Db c → Type 0) where
  -- A call that succeeds with the answer of an operation.
  Carried : Result AppError (Result AppError A) → Db c → Type 0
  Carried (ok r) db = Post r db
  Carried (err e) db = ⊥

  Succeeded : (Db c → Type 0) → Result AppError (Unit {0}) → Db c → Type 0
  Succeeded Pre (ok t) db = Pre db
  Succeeded Pre (err e) db = ⊥

module _ {c : Codec} {P : Type 0} (context : RpcContext) {A : Type 0}
    (Post : Result AppError A → Db c → Type 0) where
  returned-Leads :
      {Allowed : HostClaimId → Type 0} (r : Result AppError A)
      → Leads Allowed (Post r) Post (returned {c = c} {P = P} context r)
  returned-Leads (ok a) = record { at = λ w v. v; permit = λ w v. v }
  returned-Leads (err e) = record { at = λ w v. v; permit = λ w v. v }

  -- A storage call, after the requests that are handled before it.
  pub call_storage-Leads :
      {Allowed : HostClaimId → Type 0} {Pre : Db c → Type 0}
      → IsInvariant Allowed Pre
      → (op : Op c A) → ((db : Db c) → Pre db → Post (op db).0 (op db).1)
      → Leads {P = P} Allowed Pre Post (call_storage context op)
  unfolding Carried Succeeded interleave try_storage
  call_storage-Leads {Pre} k op h =
      bind-Leads (Carried Post) Post _ _
        (bind-Leads (Succeeded Post Pre) (Carried Post) _ _
          (record {
            at = (interleave-Maintains context k).at;
            permit = (interleave-Maintains context k).permit;
          })
          (λ _. record { at = λ w v. (h w.shared.db v.0, v.1); permit = λ w v. v })
          (λ e db v. absurd v))
        returned-Leads (λ e db v. absurd v)
