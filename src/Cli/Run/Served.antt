-- ===== src/Cli/Run/Served.antt =====
-- The client of crates/control-cli against the server of crates/control-plane/src/rpc.rs: one command
-- is one request of the server, and what is printed is the server's answer.
use mc_control_plane.Base.{String, eq_refl, Option, none, some, List, Result, ok, err, ◌≡◌, refl}
use mc_control_plane.Protocol.{HostClaimId, Timestamp, HostClaim, Host}
use mc_control_plane.AppErrors.{AppError, ErrorObject, RpcErrorData, into_rpc_error}
use mc_control_plane.Codec.{Codec}
use mc_control_plane.Rpc.{RpcContext, Request, Response, SystemInfoResult, Shared, handle, answered}
use mc_control_plane.Cli.{OutputFormat, Command, CliError}
use mc_control_plane.Protocol.Messages.{Params, JsonRpcRequest, JsonRpcErrorObject, JsonRpcResponse}
use mc_control_plane.Rpc.Dispatch.{dispatch}
use mc_control_plane.Cli.Call.{Wire, call, checked}
use mc_control_plane.Cli.Run.{Json, with_context, print_value, print_result, claim_id_or, spec_of}

-- The request that a command is.
abbrev pub request_of : HostClaimId → Timestamp → Command → Request
request_of new now Command.system_info = Request.system_info
request_of new now Command.claim_list = Request.host_claim_list
request_of new now Command.host_list = Request.host_list
request_of new now (Command.claim_create id vcpus memory storage) =
    Request.host_claim_create (claim_id_or new id) (spec_of vcpus memory storage) now
request_of new now (Command.claim_get id) = Request.host_claim_get id
request_of new now (Command.claim_delete id) = Request.host_claim_delete id now
request_of new now (Command.host_get id) = Request.host_get id

abbrev pub response :
    {V R : Type 0} → String → Option R → Option (JsonRpcErrorObject V) → JsonRpcResponse V R
response id result error = record { jsonrpc = "2.0"; id = id; result = result; error = error }

-- The error object that the client decodes from the server's; `value` is the JSON of its data.
abbrev pub client_error : {V : Type 0} → (RpcErrorData → V) → ErrorObject → JsonRpcErrorObject V
client_error value e = record {
  code = e.code;
  message = e.message;
  error_data = some (value e.error_data);
}

module _ (c : Codec) (context : RpcContext) (now : Timestamp) {V : Type 0}
    (wire : Wire (Shared c) V) (json : Json wire) where
  -- What the theorem asks of the crates between the client and the server: the connection comes
  -- about, a request whose method is registered reaches its handler once, and the answer comes back
  -- and is decoded as it was encoded. `value` is the JSON of an error's data.
  pub record Loopback : Type 0 where
    pub value : RpcErrorData → V
    pub payload : JsonRpcRequest → wire.Payload
    pub answer : String → Result ErrorObject Response → wire.Body
    pub serializes : (rq : JsonRpcRequest) → wire.serialize rq ≡ ok (payload rq)
    pub connects : (s : Shared c) → wire.connect s ≡ none
    pub handshakes : (s : Shared c) → wire.handshake s ≡ none
    pub builds : (p : wire.Payload) → wire.build p ≡ none
    pub delivers :
        (rq : JsonRpcRequest) (request : Request) (s : Shared c)
        → dispatch now rq.method rq.params ≡ some request
        → wire.send (payload rq) s ≡ (
          ok (record { status = 200; body = ok (answer rq.id (handle c context request s).0) }),
          (handle c context request s).1,
        )
    pub decodes_info :
        (id : String) (r : SystemInfoResult)
        → json.info (answer id (ok (Response.info r))) ≡ ok (response id (some r) none)
    pub decodes_claim :
        (id : String) (r : HostClaim)
        → json.claim (answer id (ok (Response.claim r))) ≡ ok (response id (some r) none)
    pub decodes_claims :
        (id : String) (rs : List HostClaim)
        → json.claims (answer id (ok (Response.claims rs))) ≡ ok (response id (some rs) none)
    pub decodes_host :
        (id : String) (r : Host)
        → json.host (answer id (ok (Response.host r))) ≡ ok (response id (some r) none)
    pub decodes_hosts :
        (id : String) (rs : List Host)
        → json.hosts (answer id (ok (Response.hosts rs))) ≡ ok (response id (some rs) none)
    pub decodes_claim_error :
        (id : String) (e : ErrorObject)
        → json.claim (answer id (err e)) ≡ ok (response id none (some (client_error value e)))
    pub decodes_claims_error :
        (id : String) (e : ErrorObject)
        → json.claims (answer id (err e)) ≡ ok (response id none (some (client_error value e)))
    pub decodes_host_error :
        (id : String) (e : ErrorObject)
        → json.host (answer id (err e)) ≡ ok (response id none (some (client_error value e)))
    pub decodes_hosts_error :
        (id : String) (e : ErrorObject)
        → json.hosts (answer id (err e)) ≡ ok (response id none (some (client_error value e)))

module _ (c : Codec) (context : RpcContext) (now : Timestamp) {V : Type 0}
    (wire : Wire (Shared c) V) (json : Json wire) (l : Loopback c context now wire json) where
  open c use {uuid_to_string}

  -- The server's error as the client sees it.
  abbrev pub seen : ErrorObject → JsonRpcErrorObject V
  seen e = client_error l.value e

  abbrev pub told : {R : Type 0} → Result ErrorObject R → Result (CliError V) R
  told (ok r) = ok r
  told (err e) = err (CliError.rpc_call (seen e))

  -- The response that carries an answer, and the answer as the server gives it.
  abbrev pub carrying : {R : Type 0} → String → Result ErrorObject R → JsonRpcResponse V R
  carrying id (ok r) = response id (some r) none
  carrying id (err e) = response id none (some (seen e))

  abbrev pub lifted :
      {R : Type 0} → (R → Response) → Result ErrorObject R → Result ErrorObject Response
  lifted f (ok r) = ok (f r)
  lifted f (err e) = err e

  -- An answer of one kind, which the decoder of that kind reads.
  pub record Decodes {R : Type 0} (decode : wire.Body → Result String (JsonRpcResponse V R))
      (f : R → Response) (id : String) (r : Result ErrorObject Response) : Type 0 where
    pub result : Result ErrorObject R
    pub same : r ≡ lifted f result
    pub reads : decode (l.answer id r) ≡ ok (carrying id result)

  checked-carrying :
      {R : Type 0} (id : String) (q : Result ErrorObject R) → checked id (carrying id q) ≡ told q
  unfolding checked
  checked-carrying id (ok r) = rw (eq_refl id) refl
  checked-carrying id (err e) = rw (eq_refl id) refl

  pub call-served :
      {R : Type 0} (decode : wire.Body → Result String (JsonRpcResponse V R)) (f : R → Response)
      (id method : String) (params : Params) (request : Request) (s : Shared c)
      → dispatch now method params ≡ some request
      → (d : Decodes decode f id (handle c context request s).0)
      → call wire decode id method params s ≡ (told d.result, (handle c context request s).1)
  unfolding call
  call-served decode f id method params request s e d =
      rw
        (
          l.serializes (record { jsonrpc = "2.0"; id = id; method = method; params = params }),
          l.connects s,
          l.handshakes s,
          l.builds
              (l.payload (record { jsonrpc = "2.0"; id = id; method = method; params = params })),
          l.delivers (record { jsonrpc = "2.0"; id = id; method = method; params = params }) request
              s e,
          d.reads,
          checked-carrying id d.result,
        )
        refl

  -- What `run` gives for an answer of the server; `wrap` is the context of the command.
  abbrev pub printed :
      OutputFormat
      → (CliError V → CliError V)
      → Result ErrorObject Response
      → Result (CliError V) (List String)
  printed output wrap (ok value) = print_value c wire json output value
  printed output wrap (err e) = err (wrap (CliError.rpc_call (seen e)))

  pub print-served :
      {R : Type 0} (f : R → Response) (output : OutputFormat) (q : Result ErrorObject R)
      (s : Shared c)
      → print_result c wire json output f (told q, s) ≡ (printed output (λ x. x) (lifted f q), s)
  print-served f output (ok r) s = refl
  print-served f output (err e) s = refl

  pub print-context :
      {R : Type 0} (f : R → Response) (output : OutputFormat) (message : String)
      (q : Result ErrorObject R) (s : Shared c)
      → print_result c wire json output f (with_context message (told q, s))
        ≡ (printed output (CliError.in_context message) (lifted f q), s)
  print-context f output message (ok r) s = refl
  print-context f output message (err e) s = refl

  pub decoded_answer :
      {A R : Type 0} (decode : wire.Body → Result String (JsonRpcResponse V R)) (f : R → Response)
      (g : A → R) (id : String)
      → ((r : R) → decode (l.answer id (ok (f r))) ≡ ok (response id (some r) none))
      → ((e : ErrorObject) → decode (l.answer id (err e)) ≡ ok (response id none (some (seen e))))
      → (o : Result AppError A) → Decodes decode f id (answered (λ a. f (g a)) o)
  decoded_answer decode f g id good bad (ok a) = record {
    result = ok (g a);
    same = refl;
    reads = good (g a);
  }
  decoded_answer decode f g id good bad (err e) = record {
    result = err (into_rpc_error e);
    same = refl;
    reads = bad (into_rpc_error e);
  }
