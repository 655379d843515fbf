-- ===== src/Cli.antt =====
-- crates/control-cli/src/main.rs: the operator's client. clap fills a `Cli`; a command is one
-- JSON-RPC call, whose result is printed. `Call` is `RpcClient`, `Output` what is printed, `Run`
-- is `run` and `report_error`.
pub mod Call
pub mod Output
pub mod Run
use mc_control_plane.Base.{ℕ, String, Option}
use mc_control_plane.Protocol.{HostClaimId, HostId}
use mc_control_plane.Protocol.Messages.{JsonRpcErrorObject}

pub data OutputFormat : Type 0 where
  human json : OutputFormat

-- `Command` with its subcommands; `claim_create` takes an id or none, vcpus, memory and storage.
pub data Command : Type 0 where
  system_info claim_list host_list : Command
  claim_create : Option HostClaimId → ℕ → ℕ → ℕ → Command
  claim_get claim_delete : HostClaimId → Command
  host_get : HostId → Command

pub record Cli : Type 0 where
  pub socket_path : String
  pub output : OutputFormat
  pub command : Command

-- The `anyhow::Error`s of the client; `RpcCallError` has the fields of the error object.
pub data CliError (V : Type 0) : Type 0 where
  serialize_request connect_socket establish_http2 build_request send_request read_response
        decode_response print_json :
      String → CliError V
  http_status : ℕ → String → CliError V
  unsupported_version : String → CliError V
  id_mismatch : String → String → CliError V
  both_result_and_error neither_result_nor_error : CliError V
  rpc_call : JsonRpcErrorObject V → CliError V
  in_context : String → CliError V → CliError V
