-- ===== src/Cli/Run/Commands.antt =====
-- Each command of crates/control-cli, run against the server of crates/control-plane/src/rpc.rs.
use mc_control_plane.Base.{String, ◌<>◌, some, List, map, Result, ok, err, ◌≡◌, refl, sym, ap, ◌∙◌}
use mc_control_plane.Protocol.{HostClaimId, HostClaimSpec, Timestamp}
use mc_control_plane.Protocol.Messages.{Params, JsonRpcResponse, JsonRpcErrorObject}
use mc_control_plane.AppErrors.{ErrorObject}
use mc_control_plane.Codec.{Codec}
use mc_control_plane.Storage.Claims.{
  create_claim as store_claim, get_claim, list_claims, mark_claim_deleting,
}
use mc_control_plane.Storage.Hosts.{get_host, list_hosts}
use mc_control_plane.Rpc.{
  RpcContext, Request, Response, Shared, handle, claim_resource, host_resource,
}
use mc_control_plane.Rpc.Dispatch.{dispatch}
use mc_control_plane.Cli.{OutputFormat, Command, Cli, CliError}
use mc_control_plane.Cli.Call.{Wire, call}
use mc_control_plane.Cli.Run.{
  Json, Report, with_context, print_result, claim_id_or, spec_of, create_context, create_claim,
  print_value, downcast_rpc, run, outcome, report_error, main,
}
use mc_control_plane.Cli.Run.Served.{
  request_of, Loopback, seen, Decodes, call-served, printed, print-served, print-context,
  decoded_answer,
}

module _ (c : Codec) (context : RpcContext) (now : Timestamp) {V : Type 0}
    (wire : Wire (Shared c) V) (json : Json wire) (l : Loopback c context now wire json) where
  -- The context that a command puts around an error.
  abbrev pub wrap : HostClaimId → Command → CliError V → CliError V
  wrap new (Command.claim_create id vcpus memory storage) error =
      CliError.in_context (create_context c wire json (claim_id_or new id)) error
  wrap new _ error = error

  -- A call without a context, printed.
  printed-call :
      {R : Type 0} (decode : wire.Body → Result String (JsonRpcResponse V R)) (f : R → Response)
      (output : OutputFormat) (id method : String) (params : Params) (request : Request)
      (s : Shared c)
      → dispatch now method params ≡ some request
      → Decodes c context now wire json l decode f id (handle c context request s).0
      → print_result c wire json output f (call wire decode id method params s) ≡ (
        printed c context now wire json l output (λ x. x) (handle c context request s).0,
        (handle c context request s).1,
      )
  printed-call decode f output id method params request s e d =
      ap (print_result c wire json output f)
        (call-served c context now wire json l decode f id method params request s e d)
      ∙ print-served c context now wire json l f output d.result (handle c context request s).1
      ∙ ap
          (λ r.
            (printed c context now wire json l output (λ x. x) r, (handle c context request s).1))
          (sym d.same)

  created_call :
      (output : OutputFormat) (id : String) (claim_id : HostClaimId) (spec : HostClaimSpec)
      (s : Shared c)
      → create_claim c wire json output id claim_id spec s ≡ (
        printed c context now wire json l output
            (CliError.in_context (create_context c wire json claim_id))
            (handle c context (Request.host_claim_create claim_id spec now) s).0,
        (handle c context (Request.host_claim_create claim_id spec now) s).1,
      )
  unfolding dispatch handle
  created_call output id claim_id spec s =
      let request = Request.host_claim_create claim_id spec now in
      let d : Decodes c context now wire json l json.claim Response.claim id
          (handle c context request s).0 =
        decoded_answer c context now wire json l json.claim Response.claim (λ x. x) id
          (l.decodes_claim id) (l.decodes_claim_error id)
          (store_claim c claim_id spec now s.db).0 in
      ap
        (λ r.
          print_result c wire json output Response.claim
            (with_context (create_context c wire json claim_id) r))
        (call-served c context now wire json l json.claim Response.claim id _ _ request s refl d)
      ∙ print-context c context now wire json l Response.claim output
          (create_context c wire json claim_id) d.result (handle c context request s).1
      ∙ ap
          (λ r. (
            printed c context now wire json l output
                (CliError.in_context (create_context c wire json claim_id)) r,
            (handle c context request s).1,
          ))
          (sym d.same)

  run-served :
      (output : OutputFormat) (id : String) (new : HostClaimId) (command : Command) (s : Shared c)
      → run c wire json output id new command s ≡ (
        printed c context now wire json l output
            (wrap new command)
            (handle c context (request_of new now command) s).0,
        (handle c context (request_of new now command) s).1,
      )
  unfolding run dispatch handle
  run-served output id new Command.system_info s =
      printed-call json.info Response.info output id _ _ Request.system_info s refl
        (record { result = ok _; same = refl; reads = l.decodes_info id _ })
  run-served output id new Command.claim_list s =
      printed-call json.claims Response.claims output id _ _ Request.host_claim_list s refl (
        decoded_answer c context now wire json l json.claims Response.claims (map claim_resource) id
          (l.decodes_claims id) (l.decodes_claims_error id) (list_claims c s.db).0)
  run-served output id new Command.host_list s =
      printed-call json.hosts Response.hosts output id _ _ Request.host_list s refl (
        decoded_answer c context now wire json l json.hosts Response.hosts (map host_resource) id
          (l.decodes_hosts id) (l.decodes_hosts_error id) (list_hosts c s.db).0)
  run-served output id new (Command.claim_create i vcpus memory storage) s =
      created_call output id (claim_id_or new i) (spec_of vcpus memory storage) s
  run-served output id new (Command.claim_get i) s =
      printed-call json.claim Response.claim output id _ _ (Request.host_claim_get i) s refl (
        decoded_answer c context now wire json l json.claim Response.claim claim_resource id
          (l.decodes_claim id) (l.decodes_claim_error id) (get_claim c i s.db).0)
  run-served output id new (Command.claim_delete i) s =
      printed-call json.claim Response.claim output id _ _ (Request.host_claim_delete i now) s refl
        (decoded_answer c context now wire json l json.claim Response.claim (λ x. x) id
          (l.decodes_claim id) (l.decodes_claim_error id) (mark_claim_deleting c i now s.db).0)
  run-served output id new (Command.host_get i) s =
      printed-call json.host Response.host output id _ _ (Request.host_get i) s refl (
        decoded_answer c context now wire json l json.host Response.host host_resource id
          (l.decodes_host id) (l.decodes_host_error id) (get_host c i s.db).0)

  -- What the client writes for an answer of the server.
  abbrev pub shown :
      OutputFormat
      → (CliError V → CliError V)
      → Result ErrorObject Response
      → Result (Report V) (List String)
  shown output wrap (ok value) = outcome c wire json output (print_value c wire json output value)
  shown OutputFormat.human wrap (err e) = err (
      Report.line
        ("error: " <> json.display (wrap (CliError.rpc_call (seen c context now wire json l e)))))
  shown OutputFormat.json wrap (err e) = err (
      Report.rpc_object e.code e.message
        (json.display (wrap (CliError.rpc_call (seen c context now wire json l e))))
        (some (l.value e.error_data)))

  wrapped-downcast :
      (new : HostClaimId) (command : Command) (e : JsonRpcErrorObject V)
      → downcast_rpc (wrap new command (CliError.rpc_call e)) ≡ some e
  wrapped-downcast new Command.system_info e = refl
  wrapped-downcast new Command.claim_list e = refl
  wrapped-downcast new Command.host_list e = refl
  wrapped-downcast new (Command.claim_create i v m s) e = refl
  wrapped-downcast new (Command.claim_get i) e = refl
  wrapped-downcast new (Command.claim_delete i) e = refl
  wrapped-downcast new (Command.host_get i) e = refl

  outcome-printed :
      (output : OutputFormat) (new : HostClaimId) (command : Command)
      (r : Result ErrorObject Response)
      → outcome c wire json output (printed c context now wire json l output (wrap new command) r)
        ≡ shown output (wrap new command) r
  unfolding report_error
  outcome-printed output new command (ok value) = refl
  outcome-printed OutputFormat.human new command (err e) = refl
  outcome-printed OutputFormat.json new command (err e) =
      rw (wrapped-downcast new command (seen c context now wire json l e)) refl

  -- With a connection that delivers: a command does to the server's state what its one request does,
  -- and writes the resource that the server answers, or an error: in JSON with the server's code,
  -- message and data, also behind the context that a failed creation puts around it.
  pub main-handle :
      (id : String) (new : HostClaimId) (cli : Cli) (s : Shared c)
      → ((main c wire json id new cli s).1
          ≡ (handle c context (request_of new now cli.command) s).1)
        × ((main c wire json id new cli s).0
            ≡ shown cli.output
                (wrap new cli.command)
                (handle c context (request_of new now cli.command) s).0)
  unfolding main
  main-handle id new cli s =
      let e = run-served cli.output id new cli.command s in
      (
        ap (λ r. r.1) e,
        ap (λ r. outcome c wire json cli.output (r.0)) e
            ∙ outcome-printed cli.output new cli.command
                (handle c context (request_of new now cli.command) s).0,
      )
