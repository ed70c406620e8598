-- ===== src/Jsonrpc.antt =====
-- include/cppmcp/jsonrpc.hpp: the messages. The children model src/jsonrpc.cpp and hold its proofs.
pub mod Parsing
pub mod Building
pub mod Members
pub mod Roundtrip
pub mod Responses
pub mod Tests
pub mod Classification
use cppmcp.Base.{ℤ, String, Option, none}
use cppmcp.RequestId.{RequestId}

-- `extra` is the member `data`.
pub record JsonRpcErrorDetail (V : Type 0) : Type 0 where
  pub code : ℤ
  pub message : String
  pub extra : Option V

pub record JsonRpcRequest (V : Type 0) : Type 0 where
  pub jsonrpc : String
  pub id : RequestId
  pub method : String
  pub params : Option V

pub record JsonRpcNotification (V : Type 0) : Type 0 where
  pub jsonrpc : String
  pub method : String
  pub params : Option V

pub record JsonRpcSuccessResponse (V : Type 0) : Type 0 where
  pub jsonrpc : String
  pub id : RequestId
  pub result : V

pub record JsonRpcErrorResponse (V : Type 0) : Type 0 where
  pub jsonrpc : String
  pub id : RequestId
  pub error : JsonRpcErrorDetail V

pub data ParsedMessage (V : Type 0) : Type 0 where
  request : JsonRpcRequest V → ParsedMessage V
  notification : JsonRpcNotification V → ParsedMessage V
  success : JsonRpcSuccessResponse V → ParsedMessage V
  failure : JsonRpcErrorResponse V → ParsedMessage V

abbrev pub error_detail : {V : Type 0} → ℤ → String → JsonRpcErrorDetail V
error_detail code message = record { code = code; message = message; extra = none }

abbrev pub failure_of : {V : Type 0} → RequestId → JsonRpcErrorDetail V → ParsedMessage V
failure_of id detail = failure (record { jsonrpc = "2.0"; id = id; error = detail })
