-- ===== src/Cli/Run.antt =====
-- `run`, `print_value` and `report_error` of crates/control-cli/src/main.rs. serde_json's printing
-- and decoding are parameters (`Json`), as is the text of an `anyhow::Error`'s source.
pub mod Served
pub mod Commands
use mc_control_plane.Base.{ℕ, ℤ, String, ◌<>◌, Option, none, some, List, [], ◌∷◌, Result, ok, err}
use mc_control_plane.Protocol.{HostClaimId, HostClaimSpec, HostResources, HostClaim, Host}
use mc_control_plane.Codec.{Codec}
use mc_control_plane.Rpc.{SystemInfoResult, Response}
use mc_control_plane.Protocol.Messages.{Params, JsonRpcErrorObject, JsonRpcResponse}
use mc_control_plane.Cli.{OutputFormat, Command, Cli, CliError}
use mc_control_plane.Protocol.Method
use mc_control_plane.Cli.Call.{Wire, call}
use mc_control_plane.Cli.Output.{human_lines}

-- The decoder of each result type, `to_string_pretty` of the results, and `{error:#}`.
pub record Json {S V : Type 0} (wire : Wire S V) : Type 0 where
  pub info : wire.Body → Result String (JsonRpcResponse V SystemInfoResult)
  pub claim : wire.Body → Result String (JsonRpcResponse V HostClaim)
  pub claims : wire.Body → Result String (JsonRpcResponse V (List HostClaim))
  pub host : wire.Body → Result String (JsonRpcResponse V Host)
  pub hosts : wire.Body → Result String (JsonRpcResponse V (List Host))
  pub to_string_pretty : Response → Result String String
  pub display : CliError V → String

-- What `report_error` writes: a line, or the JSON object of an error of the server or the client.
pub data Report (V : Type 0) : Type 0 where
  line : String → Report V
  rpc_object : ℤ → String → String → Option V → Report V
  client_object : String → Report V

module _ {V : Type 0} where
  abbrev pub with_context :
      {R S : Type 0} → String → Result (CliError V) R × S → Result (CliError V) R × S
  with_context message (ok r, s) = (ok r, s)
  with_context message (err e, s) = (err (CliError.in_context message e), s)

  -- `error.downcast_ref::<RpcCallError>()`, which looks through the contexts.
  abbrev pub downcast_rpc : CliError V → Option (JsonRpcErrorObject V)
  downcast_rpc (CliError.rpc_call error) = some error
  downcast_rpc (CliError.in_context message error) = downcast_rpc error
  downcast_rpc _ = none

  abbrev pub json_report : Option (JsonRpcErrorObject V) → String → Report V
  json_report (some rpc) text = Report.rpc_object rpc.code rpc.message text rpc.error_data
  json_report none text = Report.client_object text

  unfoldable pub report_error : (CliError V → String) → OutputFormat → CliError V → Report V
  report_error display OutputFormat.human error = Report.line ("error: " <> display error)
  report_error display OutputFormat.json error = json_report (downcast_rpc error) (display error)

-- `HostClaimId::new` and the request's id are the readings of `Uuid::now_v7()`.
abbrev pub claim_id_or : HostClaimId → Option HostClaimId → HostClaimId
claim_id_or new none = new
claim_id_or new (some id) = id

abbrev pub spec_of : ℕ → ℕ → ℕ → HostClaimSpec
spec_of vcpus memory storage = record {
  resources = record { vcpus = vcpus; memory_bytes = memory; storage_bytes = storage };
}

module _ (c : Codec) {S V : Type 0} (wire : Wire S V) (json : Json wire) where
  open c use {uuid_to_string}

  abbrev pub printed_json : Result String String → Result (CliError V) (List String)
  printed_json (err e) = err (CliError.print_json e)
  printed_json (ok text) = ok (text ∷ [])

  -- `print_value`.
  unfoldable pub print_value : OutputFormat → Response → Result (CliError V) (List String)
  unfolding human_lines
  print_value OutputFormat.human value = ok (human_lines c value)
  print_value OutputFormat.json value = printed_json (json.to_string_pretty value)

  abbrev pub print_result :
      {R : Type 0}
      → OutputFormat
      → (R → Response)
      → Result (CliError V) R × S
      → Result (CliError V) (List String) × S
  print_result output f (ok r, s) = (print_value output (f r), s)
  print_result output f (err e, s) = (err e, s)

  abbrev pub create_context : HostClaimId → String
  create_context id =
      "create HostClaim " <> uuid_to_string id <> "; retry safely with --id " <> uuid_to_string id

  abbrev pub create_claim :
      OutputFormat
      → String
      → HostClaimId
      → HostClaimSpec
      → S
      → Result (CliError V) (List String) × S
  create_claim output request_id claim_id spec s = print_result output Response.claim (
      with_context (create_context claim_id) (
        call wire json.claim request_id Method.host_claim_create
          (Params.with_id_and_spec claim_id spec) s))

  unfoldable pub run :
      OutputFormat → String → HostClaimId → Command → S → Result (CliError V) (List String) × S
  unfolding print_value
  run output request_id new Command.system_info s =
      print_result output Response.info
        (call wire json.info request_id Method.system_info Params.empty s)
  run output request_id new (Command.claim_create id vcpus memory storage) s =
      create_claim output request_id (claim_id_or new id) (spec_of vcpus memory storage) s
  run output request_id new (Command.claim_get id) s =
      print_result output Response.claim
        (call wire json.claim request_id Method.host_claim_get (Params.with_id id) s)
  run output request_id new Command.claim_list s =
      print_result output Response.claims
        (call wire json.claims request_id Method.host_claim_list Params.empty s)
  run output request_id new (Command.claim_delete id) s =
      print_result output Response.claim
        (call wire json.claim request_id Method.host_claim_delete (Params.with_id id) s)
  run output request_id new (Command.host_get id) s =
      print_result output Response.host
        (call wire json.host request_id Method.host_get (Params.with_id id) s)
  run output request_id new Command.host_list s =
      print_result output Response.hosts
        (call wire json.hosts request_id Method.host_list Params.empty s)

  -- `main`: the lines on standard output, or the report with exit status 1.
  abbrev pub outcome :
      OutputFormat → Result (CliError V) (List String) → Result (Report V) (List String)
  outcome output (ok lines) = ok lines
  outcome output (err error) = err (report_error json.display output error)

  unfoldable pub main : String → HostClaimId → Cli → S → Result (Report V) (List String) × S
  unfolding run report_error
  main request_id new cli s = (
    outcome cli.output (run cli.output request_id new cli.command s).0,
    (run cli.output request_id new cli.command s).1,
  )
