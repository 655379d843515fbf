-- ===== src/Rpc/Preserved.antt =====
-- The handlers of rpc.rs keep a property of the database that the statements keep.
use mc_control_plane.Base.{List, [], ◌∷◌, Result, ok, err}
use mc_control_plane.Base.Table.All.{All}
use mc_control_plane.Protocol.{HostClaimId}
use mc_control_plane.AppErrors.{AppError}
use mc_control_plane.Codec.{Codec}
use mc_control_plane.Storage.Tables.{Db}
use mc_control_plane.Storage.Invariant.Interface.{IsInvariant}
use mc_control_plane.Storage.Invariant.Operations.{
  create_claim-Keeps, get_claim-Keeps, list_claims-Keeps, mark_claim_deleting-Keeps,
}
use mc_control_plane.Storage.Invariant.HostOperations.{get_host-Keeps, list_hosts-Keeps}
use mc_control_plane.Rpc.{RpcContext, Request, Shared, handle, handle_all, wake, woken}

module _ {c : Codec} (Inv : Db c → Type 0) where
  woken-Inv : {A : Type 0} (r : Result AppError A) (s : Shared c) → Inv s.db → Inv (woken r s).db
  unfolding wake
  woken-Inv (ok a) s v = v
  woken-Inv (err e) s v = v

-- A request that asks for the deletion of no claim but the given ones.
abbrev pub Allows : (HostClaimId → Type 0) → Request → Type 0
Allows Allowed Request.system_info = Unit
Allows Allowed (Request.host_claim_create id spec now) = Unit
Allows Allowed (Request.host_claim_get id) = Unit
Allows Allowed Request.host_claim_list = Unit
Allows Allowed (Request.host_claim_delete id now) = Allowed id
Allows Allowed (Request.host_get id) = Unit
Allows Allowed Request.host_list = Unit
Allows Allowed (Request.undecodable e) = Unit

abbrev pub AllowsBatches : (HostClaimId → Type 0) → List (List Request) → Type 0
AllowsBatches Allowed = All (All (Allows Allowed))

-- Where every deletion may be asked for, every request may.
abbrev pub Always : HostClaimId → Type 0
Always id = Unit

pub Allows-Always : (request : Request) → Allows Always request
Allows-Always Request.system_info = tt
Allows-Always (Request.host_claim_create id spec now) = tt
Allows-Always (Request.host_claim_get id) = tt
Allows-Always Request.host_claim_list = tt
Allows-Always (Request.host_claim_delete id now) = tt
Allows-Always (Request.host_get id) = tt
Allows-Always Request.host_list = tt
Allows-Always (Request.undecodable e) = tt

batch-Always : (requests : List Request) → All (Allows Always) requests
batch-Always [] = tt
batch-Always (r ∷ rs) = (Allows-Always r, batch-Always rs)

pub AllowsBatches-Always : (batches : List (List Request)) → AllowsBatches Always batches
AllowsBatches-Always [] = tt
AllowsBatches-Always (b ∷ bs) = (batch-Always b, AllowsBatches-Always bs)

module _ (c : Codec) (context : RpcContext) {Allowed : HostClaimId → Type 0} {Inv : Db c → Type 0}
    (k : IsInvariant Allowed Inv) where
  pub handle-Inv :
      (request : Request) (s : Shared c)
      → Allows Allowed request
      → Inv s.db
      → Inv (handle c context request s).1.db
  unfolding handle
  handle-Inv Request.system_info s a v = v
  handle-Inv (Request.host_claim_create id spec now) s a v =
      woken-Inv Inv _ _ ((create_claim-Keeps c k id spec now).at s.db v)
  handle-Inv (Request.host_claim_get id) s a v = (get_claim-Keeps c k id).at s.db v
  handle-Inv Request.host_claim_list s a v = (list_claims-Keeps c k).at s.db v
  handle-Inv (Request.host_claim_delete id now) s a v =
      woken-Inv Inv _ _ ((mark_claim_deleting-Keeps c k id now a).at s.db v)
  handle-Inv (Request.host_get id) s a v = (get_host-Keeps c k id).at s.db v
  handle-Inv Request.host_list s a v = (list_hosts-Keeps c k).at s.db v
  handle-Inv (Request.undecodable e) s a v = v

  pub handle_all-Inv :
      (requests : List Request) (s : Shared c)
      → All (Allows Allowed) requests
      → Inv s.db
      → Inv (handle_all c context requests s).db
  unfolding handle_all
  handle_all-Inv [] s a v = v
  handle_all-Inv (r ∷ rs) s a v =
      handle_all-Inv rs (handle c context r s).1 a.1 (handle-Inv r s a.0 v)
