-- ===== src/Protocol/Messages.antt =====
-- The JSON-RPC messages of crates/control-plane-protocol/src/rpc.rs.
use mc_control_plane.Base.{ℤ, String, Option}
use mc_control_plane.Protocol.{Uuid, HostClaimSpec}

-- The JSON objects of the params records: `{}` is `EmptyParams`, `{id}` the three records with an id,
-- and `{id, spec}` is `CreateHostClaimParams`.
pub data Params : Type 0 where
  empty : Params
  with_id : Uuid → Params
  with_id_and_spec : Uuid → HostClaimSpec → Params

pub record JsonRpcRequest : Type 0 where
  pub jsonrpc : String
  pub id : String
  pub method : String
  pub params : Params

-- `V` is serde_json's `Value`.
pub record JsonRpcErrorObject (V : Type 0) : Type 0 where
  pub code : ℤ  -- i32
  pub message : String
  pub error_data : Option V

pub record JsonRpcResponse (V R : Type 0) : Type 0 where
  pub jsonrpc : String
  pub id : String
  pub result : Option R
  pub error : Option (JsonRpcErrorObject V)
