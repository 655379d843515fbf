-- ===== src/AppErrors.antt =====
-- crates/control-plane/src/error.rs: the application's errors and their JSON-RPC form. An
-- `anyhow::Error` is only logged; it is the reason that the program gives.
use mc_control_plane.Base.{ℤ, negsuc, String, ◌<>◌, Option, none, some}

pub data AnyhowError : Type 0 where
  external : String → AnyhowError  -- an error of a third-party crate
  constraint_failed : String → AnyhowError  -- SQLite refuses a row: the constraint
  invalid_negative invalid : String → ℤ → AnyhowError  -- the field and the value
  parse_timestamp : String → AnyhowError
  unknown_phase : String → AnyhowError
  claim_disappeared host_row_missing : AnyhowError

pub data AppError : Type 0 where
  invalid_argument : String → AppError
  not_found : String → String → AppError  -- resource_type, resource_id
  conflict : String → String → String → AppError  -- resource_type, resource_id, message
  internal : AnyhowError → AppError

-- `internal`, of a third-party error.
abbrev pub external_error : String → AppError
external_error e = AppError.internal (AnyhowError.external e)

-- crates/control-plane-protocol/src/rpc.rs
pub data RpcErrorKind : Type 0 where
  invalid_argument not_found conflict unavailable internal : RpcErrorKind

pub record RpcErrorData : Type 0 where
  pub kind : RpcErrorKind
  pub resource_id : Option String

-- jsonrpsee's `ErrorObjectOwned`: the code, the message and the data. `details` is always null.
pub record ErrorObject : Type 0 where
  pub code : ℤ
  pub message : String
  pub error_data : RpcErrorData

abbrev pub invalid_argument_code : ℤ
invalid_argument_code = negsuc 32099

abbrev pub not_found_code : ℤ
not_found_code = negsuc 32100

abbrev pub conflict_code : ℤ
conflict_code = negsuc 32101

-- JSON-RPC's own code for internal errors.
abbrev pub internal_error_code : ℤ
internal_error_code = negsuc 32602

abbrev error_object : ℤ → RpcErrorKind → Option String → String → ErrorObject
error_object code kind resource_id message = record {
  code = code;
  message = message;
  error_data = record { kind = kind; resource_id = resource_id };
}

unfoldable pub into_rpc_error : AppError → ErrorObject
into_rpc_error (AppError.invalid_argument message) =
    error_object invalid_argument_code RpcErrorKind.invalid_argument none message
into_rpc_error (AppError.not_found resource_type resource_id) =
    error_object not_found_code RpcErrorKind.not_found (some resource_id)
      (resource_type <> " " <> resource_id <> " was not found")
into_rpc_error (AppError.conflict resource_type resource_id message) =
    error_object conflict_code RpcErrorKind.conflict (some resource_id)
      ("conflict for " <> resource_type <> " " <> resource_id <> ": " <> message)
into_rpc_error (AppError.internal error) =
    error_object internal_error_code RpcErrorKind.internal none "Internal error"
