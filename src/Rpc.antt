-- ===== src/Rpc.antt =====
-- The method handlers of crates/control-plane/src/rpc.rs (`rpc_module`), with the parameters and
-- results of crates/control-plane-protocol/src/rpc.rs. jsonrpsee decodes the parameters: a request is
-- the decoded call, or the decoder's error. `now` is the reading of `now_timestamp()`.
pub mod Preserved
pub mod Answers
pub mod Socket
pub mod Dispatch
pub mod Server
use mc_control_plane.Base.{String, Bool, true, List, map, Result, ok, err}
use mc_control_plane.Protocol.{HostClaimId, HostId, HostClaimSpec, HostClaim, Host, Timestamp}
use mc_control_plane.AppErrors.{AppError, ErrorObject, into_rpc_error}
use mc_control_plane.Codec.{Codec}
use mc_control_plane.Domain.{HostClaimRecord, HostRecord}
use mc_control_plane.Storage.Tables.{Db, Op}
use mc_control_plane.Storage.Claims.{create_claim, get_claim, list_claims, mark_claim_deleting}
use mc_control_plane.Storage.Hosts.{get_host, list_hosts}

pub record SystemInfoResult : Type 0 where
  pub system_name : String
  pub binary_version : String
  pub rust_version : String
  pub protocol_version : String
  pub started_at : Timestamp

-- `RpcContext`, with the versions that the build sets.
pub record RpcContext : Type 0 where
  pub binary_version : String
  pub rust_version : String
  pub started_at : Timestamp

pub data Request : Type 0 where
  system_info host_claim_list host_list : Request
  host_claim_create : HostClaimId → HostClaimSpec → Timestamp → Request
  host_claim_get : HostClaimId → Request
  host_claim_delete : HostClaimId → Timestamp → Request
  host_get : HostId → Request
  undecodable : String → Request

pub data Response : Type 0 where
  info : SystemInfoResult → Response
  claim : HostClaim → Response
  claims : List HostClaim → Response
  host : Host → Response
  hosts : List Host → Response

-- What the handlers share with the controller: the storage, and whether `Notify` holds a permit
-- (`notify_one` stores one at most).
pub record Shared (c : Codec) : Type 0 where
  pub db : Db c
  pub notified : Bool

-- `ReconcileHandle::wake`.
unfoldable pub wake : {c : Codec} → Shared c → Shared c
wake s = record s { notified = true }

abbrev pub answered :
    {A : Type 0} → (A → Response) → Result AppError A → Result ErrorObject Response
answered f (ok a) = ok (f a)
answered f (err e) = err (into_rpc_error e)

module _ {c : Codec} where
  -- A handler that only reads, and one that changes a claim and then wakes the controller.
  abbrev pub read :
      {A : Type 0} → Op c A → (A → Response) → Shared c → Result ErrorObject Response × Shared c
  read op f s = (answered f (op s.db).0, record s { db = (op s.db).1 })

  abbrev pub woken : {A : Type 0} → Result AppError A → Shared c → Shared c
  woken (ok a) s = wake s
  woken (err e) s = s

  abbrev pub mutate :
      {A : Type 0} → Op c A → (A → Response) → Shared c → Result ErrorObject Response × Shared c
  mutate op f s = (answered f (op s.db).0, woken (op s.db).0 (record s { db = (op s.db).1 }))

abbrev pub claim_resource : HostClaimRecord → HostClaim
claim_resource r = r.resource

abbrev pub host_resource : HostRecord → Host
host_resource r = r.resource

module _ (c : Codec) (context : RpcContext) where
  unfoldable pub handle : Request → Shared c → Result ErrorObject Response × Shared c
  unfolding wake
  handle Request.system_info s = (
    ok (
        Response.info (record {
          system_name = "Control Plane";
          binary_version = context.binary_version;
          rust_version = context.rust_version;
          protocol_version = "1";
          started_at = context.started_at;
        })),
    s,
  )
  handle (Request.host_claim_create id spec now) s =
      mutate (create_claim c id spec now) Response.claim s
  handle (Request.host_claim_get id) s = read (get_claim c id) (λ r. Response.claim r.resource) s
  handle Request.host_claim_list s =
      read (list_claims c) (λ rs. Response.claims (map claim_resource rs)) s
  handle (Request.host_claim_delete id now) s =
      mutate (mark_claim_deleting c id now) Response.claim s
  handle (Request.host_get id) s = read (get_host c id) (λ r. Response.host r.resource) s
  handle Request.host_list s = read (list_hosts c) (λ rs. Response.hosts (map host_resource rs)) s
  handle (Request.undecodable e) s = (err (into_rpc_error (AppError.invalid_argument e)), s)

  unfoldable pub handle_all : List Request → Shared c → Shared c
  handle_all List.[] s = s
  handle_all (List.◌∷◌ r rs) s = handle_all rs (handle r s).1
