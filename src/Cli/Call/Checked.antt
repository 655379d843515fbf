-- ===== src/Cli/Call/Checked.antt =====
-- Which responses `RpcClient::call` of main.rs accepts.
use mc_control_plane.Base.{
  String, str_eq, eq_iff, Option, none, some, ok, err, ◌≡◌, ◌↔◌, refl, sym, ◌∙◌, arith, inl, inr,
  Bool-cases,
}
use mc_control_plane.Protocol.Messages.{JsonRpcErrorObject, JsonRpcResponse}
use mc_control_plane.Cli.{CliError}
use mc_control_plane.Cli.Call.{result_or_error, checked}

module _ {V R : Type 0} where
  result_or_error-ok :
      (a : Option R) (b : Option (JsonRpcErrorObject V)) (r : R)
      → result_or_error a b ≡ ok r
      → (a ≡ some r) × (b ≡ none)
  result_or_error-ok (some x) none r e = (cc, refl)
  result_or_error-ok none (some y) r e = cc
  result_or_error-ok (some x) (some y) r e = cc
  result_or_error-ok none none r e = cc

  result_or_error-rpc :
      (a : Option R) (b : Option (JsonRpcErrorObject V)) (x : JsonRpcErrorObject V)
      → result_or_error a b ≡ err (CliError.rpc_call x)
      → (a ≡ none) × (b ≡ some x)
  result_or_error-rpc (some y) none x e = cc
  result_or_error-rpc none (some y) x e = (refl, cc)
  result_or_error-rpc (some z) (some y) x e = cc
  result_or_error-rpc none none x e = cc

  -- Past the first two checks.
  checked_past :
      (id : String) (response : JsonRpcResponse V R)
      → response.jsonrpc ≡ "2.0"
      → response.id ≡ id
      → checked id response ≡ result_or_error response.result response.error
  unfolding checked
  checked_past id response v i =
      ground (arith, v, i, eq_iff response.jsonrpc "2.0", eq_iff response.id id)

  data Passed (id : String) (response : JsonRpcResponse V R) : Type 0 where
    passed : response.jsonrpc ≡ "2.0" → response.id ≡ id → Passed id response
    version :
        checked id response ≡ err (CliError.unsupported_version response.jsonrpc)
        → Passed id response
    mismatch : checked id response ≡ err (CliError.id_mismatch id response.id) → Passed id response

  checked-Passed : (id : String) (response : JsonRpcResponse V R) → Passed id response
  unfolding checked
  checked-Passed id response = elim (Bool-cases (str_eq response.jsonrpc "2.0")) [
    | inr other ↦ Passed.version (rw other refl)
    | inl right ↦ elim (Bool-cases (str_eq response.id id)) [
      | inr other ↦ Passed.mismatch (rw (right, other) refl)
      | inl mine ↦
          Passed.passed ((eq_iff response.jsonrpc "2.0").0 right) ((eq_iff response.id id).0 mine)
    ]
  ]

  -- A response of version 2.0 with the given id, result and error.
  abbrev pub IsResponse :
      String → Option R → Option (JsonRpcErrorObject V) → JsonRpcResponse V R → Type 0
  IsResponse id result error response =
      (response.jsonrpc ≡ "2.0")
      × (response.id ≡ id)
      × (response.result ≡ result)
      × (response.error ≡ error)

  checked-accepts :
      (id : String) (response : JsonRpcResponse V R) (r : R)
      → checked id response ≡ ok r
      → IsResponse id (some r) none response
  checked-accepts id response r e = elim (checked-Passed id response) [
    | passed v i ↦
        let (result, error) =
          result_or_error-ok response.result response.error r
            (sym (checked_past id response v i) ∙ e) in
        (v, i, result, error)
    | version f ↦ absurd (cc (f, e))
    | mismatch f ↦ absurd (cc (f, e))
  ]

  checked-fails :
      (id : String) (response : JsonRpcResponse V R) (x : JsonRpcErrorObject V)
      → checked id response ≡ err (CliError.rpc_call x)
      → IsResponse id none (some x) response
  checked-fails id response x e = elim (checked-Passed id response) [
    | passed v i ↦
        let (result, error) =
          result_or_error-rpc response.result response.error x
            (sym (checked_past id response v i) ∙ e) in
        (v, i, result, error)
    | version f ↦ absurd (cc (f, e))
    | mismatch f ↦ absurd (cc (f, e))
  ]

  -- A result is accepted just if the response has version 2.0, the id of the request, that result
  -- and no error; and the call fails with an error of the server just if the response has version
  -- 2.0, the id of the request, that error and no result.
  pub checked_iff :
      (id : String) (response : JsonRpcResponse V R) (r : R) (x : JsonRpcErrorObject V)
      → ((checked id response ≡ ok r) ↔ IsResponse id (some r) none response)
        × ((checked id response ≡ err (CliError.rpc_call x)) ↔ IsResponse id none (some x) response)
  checked_iff id response r x = (
    (checked-accepts id response r, λ h. rw (checked_past id response h.0 h.1, h.2, h.3) refl),
    (checked-fails id response x, λ h. rw (checked_past id response h.0 h.1, h.2, h.3) refl),
  )
