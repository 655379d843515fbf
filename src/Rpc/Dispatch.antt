-- ===== src/Rpc/Dispatch.antt =====
-- The methods that `rpc_module` of crates/control-plane/src/rpc.rs registers, and `parse_params`:
-- serde decodes the params of a method's record, which denies unknown fields and wants all its own.
use mc_control_plane.Base.{String, str_eq, Option, none, some, if◌then◌else◌}
use mc_control_plane.Protocol.{Uuid, HostClaimSpec, Timestamp}
use mc_control_plane.Protocol.Messages.{Params}
use mc_control_plane.Protocol.Method
use mc_control_plane.Rpc.{Request}

abbrev unknown_field : Request
unknown_field = Request.undecodable "unknown field"

abbrev missing_field : Request
missing_field = Request.undecodable "missing field"

abbrev parse_empty : Request → Params → Request
parse_empty request Params.empty = request
parse_empty request (Params.with_id id) = unknown_field
parse_empty request (Params.with_id_and_spec id spec) = unknown_field

abbrev parse_id : (Uuid → Request) → Params → Request
parse_id request Params.empty = missing_field
parse_id request (Params.with_id id) = request id
parse_id request (Params.with_id_and_spec id spec) = unknown_field

abbrev parse_id_and_spec : (Uuid → HostClaimSpec → Request) → Params → Request
parse_id_and_spec request Params.empty = missing_field
parse_id_and_spec request (Params.with_id id) = missing_field
parse_id_and_spec request (Params.with_id_and_spec id spec) = request id spec

-- `now` is the time that the handler reads; another method reaches no handler.
unfoldable pub dispatch : Timestamp → String → Params → Option Request
dispatch now method params =
    if str_eq method Method.system_info
    then some (parse_empty Request.system_info params)
    else if str_eq method Method.host_claim_create
    then some (parse_id_and_spec (λ id spec. Request.host_claim_create id spec now) params)
    else if str_eq method Method.host_claim_get
    then some (parse_id Request.host_claim_get params)
    else if str_eq method Method.host_claim_list
    then some (parse_empty Request.host_claim_list params)
    else if str_eq method Method.host_claim_delete
    then some (parse_id (λ id. Request.host_claim_delete id now) params)
    else if str_eq method Method.host_get
    then some (parse_id Request.host_get params)
    else if str_eq method Method.host_list
    then some (parse_empty Request.host_list params)
    else none
