-- ===== src/Rpc/Answers.antt =====
-- What a client learns from an answer of the handlers of rpc.rs, and when the controller is woken.
use mc_control_plane.Base.{
  Bool, true, false, ◌&&◌, ◌||◌, map, List, [], ◌∷◌, ◌≡◌, refl, Result, ok, err, arith,
}
use mc_control_plane.Protocol.{HostClaimId, HostId, HostClaimSpec, Timestamp}
use mc_control_plane.AppErrors.{AnyhowError, AppError, ErrorObject, into_rpc_error}
use mc_control_plane.Codec.{Codec}
use mc_control_plane.Storage.Tables.{Db, Op, transaction}
use mc_control_plane.Storage.Commit.{committed-eq-err}
use mc_control_plane.Storage.Claims.{create_claim, get_claim, list_claims, mark_claim_deleting}
use mc_control_plane.Storage.Hosts.{get_host, list_hosts}
use mc_control_plane.Rpc.{
  RpcContext, Request, Response, Shared, handle, handle_all, read, mutate, answered, woken, wake,
  claim_resource, host_resource,
}

-- The requests that ask for a change.
abbrev pub asks_change : Request → Bool
asks_change (Request.host_claim_create _ _ _) = true
asks_change (Request.host_claim_delete _ _) = true
asks_change _ = false

abbrev pub is_ok {ℓ κ} : {E : Type ℓ} {A : Type κ} → Result E A → Bool
is_ok (ok a) = true
is_ok (err e) = false

answered-err :
    {A : Type 0} (f : A → Response) (r : Result AppError A) (e : ErrorObject)
    → answered f r ≡ err e
    → (a : AppError) × (r ≡ err a)
answered-err f (ok a) e h = absurd (cc h)
answered-err f (err a) e h = (a, refl)

module _ {c : Codec} where
  -- An operation that leaves the database as it was when it fails.
  pub record IsAtomic {A : Type 0} (op : Op c A) : Type 0 where
    pub unchanged : (db : Db c) (e : AppError) → (op db).0 ≡ err e → (op db).1 ≡ db

  transaction-IsAtomic :
      {A : Type 0} (body : Db c → Result AppError (A × Db c)) → IsAtomic (transaction body)
  transaction-IsAtomic body = record { unchanged = λ db e. committed-eq-err db (body db) e }

  read-err :
      {A : Type 0} (op : Op c A) (f : A → Response) (s : Shared c) (e : ErrorObject)
      → IsAtomic op
      → (read op f s).0 ≡ err e
      → (read op f s).1 ≡ s
  read-err op f s e k h =
      let (a, failed) = answered-err f (op s.db).0 e h in rw (k.unchanged s.db a failed)

  mutate-err :
      {A : Type 0} (op : Op c A) (f : A → Response) (s : Shared c) (e : ErrorObject)
      → IsAtomic op
      → (mutate op f s).0 ≡ err e
      → (mutate op f s).1 ≡ s
  mutate-err op f s e k h =
      let (a, failed) = answered-err f (op s.db).0 e h in rw (failed, k.unchanged s.db a failed)

  woken-notified :
      {A : Type 0} (f : A → Response) (r : Result AppError A) (s : Shared c)
      → (woken r s).notified ≡ (true && is_ok (answered f r) || s.notified)
  unfolding wake
  woken-notified f (ok a) s = refl
  woken-notified f (err e) s = refl

module _ (c : Codec) where
  create_claim-IsAtomic :
      (id : HostClaimId) (spec : HostClaimSpec) (now : Timestamp)
      → IsAtomic (create_claim c id spec now)
  unfolding create_claim
  create_claim-IsAtomic id spec now = transaction-IsAtomic _

  get_claim-IsAtomic : (id : HostClaimId) → IsAtomic (get_claim c id)
  unfolding get_claim
  get_claim-IsAtomic id = transaction-IsAtomic _

  list_claims-IsAtomic : IsAtomic (list_claims c)
  unfolding list_claims
  list_claims-IsAtomic = transaction-IsAtomic _

  mark_claim_deleting-IsAtomic :
      (id : HostClaimId) (now : Timestamp) → IsAtomic (mark_claim_deleting c id now)
  unfolding mark_claim_deleting
  mark_claim_deleting-IsAtomic id now = transaction-IsAtomic _

  get_host-IsAtomic : (id : HostId) → IsAtomic (get_host c id)
  unfolding get_host
  get_host-IsAtomic id = transaction-IsAtomic _

  list_hosts-IsAtomic : IsAtomic (list_hosts c)
  unfolding list_hosts
  list_hosts-IsAtomic = transaction-IsAtomic _

module _ (c : Codec) (context : RpcContext) where
  -- A request that is answered with an error changes neither the database nor the stored permit.
  pub handle-err :
      (request : Request) (s : Shared c) (e : ErrorObject)
      → (handle c context request s).0 ≡ err e
      → (handle c context request s).1 ≡ s
  unfolding handle
  handle-err Request.system_info s e h = refl
  handle-err (Request.host_claim_create id spec now) s e h =
      mutate-err (create_claim c id spec now) Response.claim s e
        (create_claim-IsAtomic c id spec now) h
  handle-err (Request.host_claim_get id) s e h =
      read-err (get_claim c id) (λ r. Response.claim r.resource) s e (get_claim-IsAtomic c id) h
  handle-err Request.host_claim_list s e h =
      read-err (list_claims c) (λ rs. Response.claims (map claim_resource rs)) s e
        (list_claims-IsAtomic c) h
  handle-err (Request.host_claim_delete id now) s e h =
      mutate-err (mark_claim_deleting c id now) Response.claim s e
        (mark_claim_deleting-IsAtomic c id now) h
  handle-err (Request.host_get id) s e h =
      read-err (get_host c id) (λ r. Response.host r.resource) s e (get_host-IsAtomic c id) h
  handle-err Request.host_list s e h =
      read-err (list_hosts c) (λ rs. Response.hosts (map host_resource rs)) s e
        (list_hosts-IsAtomic c) h
  handle-err (Request.undecodable m) s e h = refl

  -- A permit is stored after a request just if one was before, or the request is a creation or a
  -- deletion that succeeds.
  pub handle-notified :
      (request : Request) (s : Shared c)
      → (handle c context request s).1.notified
        ≡ (asks_change request && is_ok (handle c context request s).0 || s.notified)
  unfolding handle
  handle-notified Request.system_info s = refl
  handle-notified (Request.host_claim_create id spec now) s =
      woken-notified Response.claim (create_claim c id spec now s.db).0
        (record s { db = (create_claim c id spec now s.db).1 })
  handle-notified (Request.host_claim_get id) s = refl
  handle-notified Request.host_claim_list s = refl
  handle-notified (Request.host_claim_delete id now) s =
      woken-notified Response.claim (mark_claim_deleting c id now s.db).0
        (record s { db = (mark_claim_deleting c id now s.db).1 })
  handle-notified (Request.host_get id) s = refl
  handle-notified Request.host_list s = refl
  handle-notified (Request.undecodable m) s = refl

  -- A stored permit stays while requests are handled.
  pub handle_all-notified :
      (requests : List Request) (s : Shared c)
      → s.notified ≡ true
      → (handle_all c context requests s).notified ≡ true
  unfolding handle_all
  handle_all-notified [] s h = h
  handle_all-notified (r ∷ rs) s h =
      handle_all-notified rs (handle c context r s).1 (ground (arith, handle-notified r s, h))

kind_code-eq :
    (a b : AppError)
    → (into_rpc_error a).code ≡ (into_rpc_error b).code
    → (into_rpc_error a).error_data.kind ≡ (into_rpc_error b).error_data.kind
unfolding into_rpc_error
kind_code-eq a b h = ground arith

-- Two errors with one code have one kind, and the answers to two internal errors are the same, so
-- that a client learns nothing of the cause.
pub into_rpc_error-code :
    (a b : AppError) (e f : AnyhowError)
    → (into_rpc_error a).code ≡ (into_rpc_error b).code
    → ((into_rpc_error a).error_data.kind ≡ (into_rpc_error b).error_data.kind)
      × (into_rpc_error (AppError.internal e) ≡ into_rpc_error (AppError.internal f))
unfolding into_rpc_error
into_rpc_error-code a b e f h = (kind_code-eq a b h, refl)
