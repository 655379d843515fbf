-- ===== src/Cli/Call.antt =====
-- `RpcClient::call` of crates/control-cli/src/main.rs. What hyper, tokio and serde_json do is the
-- parameter `Wire`: the payload, the connection over the socket, the answer with its status and its
-- bounded body, and the decoder.
pub mod Checked
use mc_control_plane.Base.{
  ℕ, String, str_eq, Bool, not, ◌&&◌, Option, none, some, Result, ok, err, leb, ltb, if◌then◌else◌,
  map_err,
}
use mc_control_plane.Protocol.Messages.{Params, JsonRpcRequest, JsonRpcErrorObject, JsonRpcResponse}
use mc_control_plane.Cli.{CliError}

pub record HttpAnswer (Body : Type 0) : Type 0 where
  pub status : ℕ
  pub body : Result String Body

-- `S` is the state of what answers; only a sent request changes it.
pub record Wire (S V : Type 0) : Type 1 where
  pub Payload : Type 0
  pub Body : Type 0
  pub serialize : JsonRpcRequest → Result String Payload
  pub connect : S → Option String
  pub handshake : S → Option String
  pub build : Payload → Option String
  pub send : Payload → S → Result String (HttpAnswer Body) × S
  pub from_utf8_lossy : Body → String

-- `StatusCode::is_success`.
abbrev pub is_success : ℕ → Bool
is_success status = leb 200 status && ltb status 300

module _ {V R : Type 0} where
  -- The `match` on the result and the error.
  abbrev pub result_or_error : Option R → Option (JsonRpcErrorObject V) → Result (CliError V) R
  result_or_error (some result) none = ok result
  result_or_error none (some error) = err (CliError.rpc_call error)
  result_or_error (some result) (some error) = err CliError.both_result_and_error
  result_or_error none none = err CliError.neither_result_nor_error

  -- The checks on a decoded response.
  unfoldable pub checked : String → JsonRpcResponse V R → Result (CliError V) R
  checked request_id response =
      if not (str_eq response.jsonrpc "2.0")
      then err (CliError.unsupported_version response.jsonrpc)
      else if not (str_eq response.id request_id)
      then err (CliError.id_mismatch request_id response.id)
      else result_or_error response.result response.error

  abbrev pub after_decode : String → Result String (JsonRpcResponse V R) → Result (CliError V) R
  after_decode request_id (err e) = err (CliError.decode_response e)
  after_decode request_id (ok response) = checked request_id response

module _ {S V R : Type 0} (wire : Wire S V)
    (decode : wire.Body → Result String (JsonRpcResponse V R)) where
  abbrev pub read_body : String → ℕ → Result String wire.Body → Result (CliError V) R
  read_body request_id status (err e) = err (CliError.read_response e)
  read_body request_id status (ok body) =
      if not (is_success status)
      then err (CliError.http_status status (wire.from_utf8_lossy body))
      else after_decode request_id (decode body)

  abbrev pub answered : String → Result String (HttpAnswer wire.Body) → Result (CliError V) R
  answered request_id (err e) = err (CliError.send_request e)
  answered request_id (ok answer) = read_body request_id answer.status answer.body

  abbrev pub built : String → wire.Payload → Option String → S → Result (CliError V) R × S
  built request_id payload (some e) s = (err (CliError.build_request e), s)
  built request_id payload none s =
      (answered request_id (wire.send payload s).0, (wire.send payload s).1)

  abbrev pub established : String → wire.Payload → Option String → S → Result (CliError V) R × S
  established request_id payload (some e) s = (err (CliError.establish_http2 e), s)
  established request_id payload none s = built request_id payload (wire.build payload) s

  abbrev pub connected : String → wire.Payload → Option String → S → Result (CliError V) R × S
  connected request_id payload (some e) s = (err (CliError.connect_socket e), s)
  connected request_id payload none s = established request_id payload (wire.handshake s) s

  abbrev pub serialized : String → Result String wire.Payload → S → Result (CliError V) R × S
  serialized request_id (err e) s = (err (CliError.serialize_request e), s)
  serialized request_id (ok payload) s = connected request_id payload (wire.connect s) s

  -- `request_id` is the reading of `Uuid::now_v7()`, as text.
  unfoldable pub call : String → String → Params → S → Result (CliError V) R × S
  unfolding checked
  call request_id method params s =
      serialized request_id
        (wire.serialize
          (record { jsonrpc = "2.0"; id = request_id; method = method; params = params }))
        s
