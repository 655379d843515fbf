-- ===== src/Tests/Cli.antt =====
-- The client against the server over a connection that hands the messages on as they are.
use mc_control_plane.Base.{
  String, ok, err, none, some, Result, Option, ◌≡◌, ◌↔◌, refl, true, ℕ, pos, ap, List,
}
use mc_control_plane.Protocol.{HostClaim, Host}
use mc_control_plane.Protocol.Messages.{JsonRpcRequest, JsonRpcErrorObject, JsonRpcResponse}
use mc_control_plane.AppErrors.{ErrorObject, RpcErrorData}
use mc_control_plane.Rpc.{Request, Response, SystemInfoResult, Shared, handle}
use mc_control_plane.Rpc.Dispatch.{dispatch}
use mc_control_plane.Cli.{OutputFormat, Command, Cli, CliError}
use mc_control_plane.Cli.Call.{HttpAnswer, Wire, checked}
use mc_control_plane.Cli.Call.Checked.{IsResponse, checked_iff}
use mc_control_plane.Cli.Run.{Json, main}
use mc_control_plane.Cli.Run.Served.{Loopback, request_of, response}
use mc_control_plane.Cli.Run.Commands.{wrap, shown, main-handle}
use mc_control_plane.Tests.Sample.{sample_codec, empty_db, context}

abbrev State : Type 0
State = Shared sample_codec

-- A body is the id of the request with its answer.
abbrev Body : Type 0
Body = String × Result ErrorObject Response

abbrev answered : String → Option Request → State → Result String (HttpAnswer Body) × State
answered id none s = (err "method not found", s)
answered id (some request) s = (
  ok (record { status = 200; body = ok (id, (handle sample_codec context request s).0) }),
  (handle sample_codec context request s).1,
)

abbrev wire : Wire State RpcErrorData
wire = record {
  Payload = JsonRpcRequest;
  Body = Body;
  serialize = λ rq. ok rq;
  connect = λ s. none;
  handshake = λ s. none;
  build = λ p. none;
  send = λ p s. answered p.id (dispatch 5 p.method p.params) s;
  from_utf8_lossy = λ b. "";
}

abbrev Decoded : Type 0 → Type 0
Decoded R = Result String (JsonRpcResponse RpcErrorData R)

abbrev failed : {R : Type 0} → String → ErrorObject → Decoded R
failed id e = ok (
    response id none
      (some (record { code = e.code; message = e.message; error_data = some e.error_data })))

abbrev info : Body → Decoded SystemInfoResult
info (id, ok (Response.info r)) = ok (response id (some r) none)
info (id, err e) = failed id e
info _ = err "invalid type"

abbrev claim : Body → Decoded HostClaim
claim (id, ok (Response.claim r)) = ok (response id (some r) none)
claim (id, err e) = failed id e
claim _ = err "invalid type"

abbrev claims : Body → Decoded (List HostClaim)
claims (id, ok (Response.claims r)) = ok (response id (some r) none)
claims (id, err e) = failed id e
claims _ = err "invalid type"

abbrev host : Body → Decoded Host
host (id, ok (Response.host r)) = ok (response id (some r) none)
host (id, err e) = failed id e
host _ = err "invalid type"

abbrev hosts : Body → Decoded (List Host)
hosts (id, ok (Response.hosts r)) = ok (response id (some r) none)
hosts (id, err e) = failed id e
hosts _ = err "invalid type"

abbrev json : Json wire
json = record {
  info = info;
  claim = claim;
  claims = claims;
  host = host;
  hosts = hosts;
  to_string_pretty = λ r. ok "{}";
  display = λ e. "failed";
}

loopback : Loopback sample_codec context 5 wire json
loopback = record {
  value = λ v. v;
  payload = λ rq. rq;
  answer = λ id r. (id, r);
  serializes = λ rq. refl;
  connects = λ s. refl;
  handshakes = λ s. refl;
  builds = λ p. refl;
  delivers = λ rq request s e. ap (λ o. answered rq.id o s) e;
  decodes_info = λ id r. refl;
  decodes_claim = λ id r. refl;
  decodes_claims = λ id r. refl;
  decodes_host = λ id r. refl;
  decodes_hosts = λ id r. refl;
  decodes_claim_error = λ id e. refl;
  decodes_claims_error = λ id e. refl;
  decodes_host_error = λ id e. refl;
  decodes_hosts_error = λ id e. refl;
}

abbrev start : State
start = record { db = empty_db; notified = true }

abbrev create_small : Cli
create_small = record {
  socket_path = "control-plane.sock";
  output = OutputFormat.json;
  command = Command.claim_create none 2 4096 8192;
}

main-handle_example :
    ((main sample_codec wire json "1" 7 create_small start).1
      ≡ (handle sample_codec context (request_of 7 5 create_small.command) start).1)
    × ((main sample_codec wire json "1" 7 create_small start).0
        ≡ shown sample_codec context 5 wire json loopback OutputFormat.json
            (wrap sample_codec context 5 wire json loopback 7 create_small.command)
            (handle sample_codec context (request_of 7 5 create_small.command) start).0)
main-handle_example = main-handle sample_codec context 5 wire json loopback "1" 7 create_small start

abbrev missing : JsonRpcErrorObject String
missing = record { code = pos 1; message = "missing"; error_data = none }

abbrev other_call : JsonRpcResponse String ℕ
other_call = response "2" (some 3) none

checked_iff_example :
    ((checked "1" other_call ≡ ok 3) ↔ IsResponse "1" (some 3) none other_call)
    × ((checked "1" other_call ≡ err (CliError.rpc_call missing))
        ↔ IsResponse "1" none (some missing) other_call)
checked_iff_example = checked_iff "1" other_call 3 missing
