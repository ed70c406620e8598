-- ===== src/Jsonrpc/Building.antt =====
-- src/jsonrpc.cpp: the construction of messages.
use cppmcp.Base.{ℤ, String, [], ◌∷◌, Option}
use cppmcp.Json.{Json, put_some}
use cppmcp.RequestId.{RequestId, request_id_to_json}
use cppmcp.Jsonrpc.{JsonRpcRequest, JsonRpcNotification}

module _ {V : Type 0} ⦃json : Json V⦄ where
  unfoldable pub make_success_response : RequestId → V → V
  make_success_response id result = json.from_object (
      ("jsonrpc", json.from_string "2.0") ∷ ("id", request_id_to_json id) ∷ ("result", result) ∷ [])

  unfoldable pub error_object : ℤ → String → Option V → V
  error_object code message extra =
      put_some
        (json.from_object
          (("code", json.from_int code) ∷ ("message", json.from_string message) ∷ []))
        "data" extra

  unfoldable pub make_error_response : RequestId → ℤ → String → Option V → V
  unfolding error_object
  make_error_response id code message extra = json.from_object (
      ("jsonrpc", json.from_string "2.0")
      ∷ ("id", request_id_to_json id)
      ∷ ("error", error_object code message extra)
      ∷ [])

  unfoldable pub make_error_response_null_id : ℤ → String → Option V → V
  unfolding error_object
  make_error_response_null_id code message extra = json.from_object (
      ("jsonrpc", json.from_string "2.0")
      ∷ ("id", json.from_null)
      ∷ ("error", error_object code message extra)
      ∷ [])

  unfoldable pub serialize_request : JsonRpcRequest V → V
  serialize_request req =
      put_some
        (json.from_object (
          ("jsonrpc", json.from_string "2.0")
          ∷ ("id", request_id_to_json req.id)
          ∷ ("method", json.from_string req.method)
          ∷ []))
        "params" req.params

  unfoldable pub serialize_notification : JsonRpcNotification V → V
  serialize_notification notif =
      put_some
        (json.from_object
          (("jsonrpc", json.from_string "2.0") ∷ ("method", json.from_string notif.method) ∷ []))
        "params" notif.params
