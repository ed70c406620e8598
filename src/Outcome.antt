-- ===== src/Outcome.antt =====
-- include/cppmcp/exception.hpp and error_codes.hpp: what a call can throw, and the error codes.
use cppmcp.Base.{ℤ, neg, String, ◌<>◌, Option, none}

-- JSON-RPC and MCP error codes.
abbrev pub parse_error : ℤ
parse_error = neg 32700

abbrev pub invalid_request : ℤ
invalid_request = neg 32600

abbrev pub method_not_found : ℤ
method_not_found = neg 32601

abbrev pub invalid_params : ℤ
invalid_params = neg 32602

abbrev pub internal_error : ℤ
internal_error = neg 32603

abbrev pub server_not_initialized : ℤ
server_not_initialized = neg 32002

abbrev pub request_cancelled : ℤ
request_cancelled = neg 32800

abbrev pub request_timed_out : ℤ
request_timed_out = neg 32801

abbrev pub client_not_connected : ℤ
client_not_connected = neg 32802

abbrev pub request_failed : ℤ
request_failed = neg 32803

-- A thrown value: an `McpException` with its code, message and data, any other `std::exception`
-- with its text, or something that is no `std::exception`. `V` is the type of JSON values.
pub data Exception (V : Type 0) : Type 0 where
  mcp : ℤ → String → Option V → Exception V
  std : String → Exception V
  unknown : Exception V

-- `what()` of a `std::exception`, as a `catch (const std::exception&)` reads it.
abbrev pub what : {V : Type 0} → Exception V → String
what (mcp code message extra) = message
what (std message) = message
what unknown = ""

-- The value that a call returns, or the exception that it throws.
pub data Result (V : Type 0) (A : Type 0) : Type 0 where
  ok : A → Result V A
  throw : Exception V → Result V A

module _ {V : Type 0} where
  infixl 5 ◌>>=◌ ◌>>◌
  abbrev pub ◌>>=◌ : {A B : Type 0} → Result V A → (A → Result V B) → Result V B
  ok a >>= f = f a
  throw e >>= f = throw e

  abbrev pub ◌>>◌ : {B : Type 0} → Result V (Unit {0}) → Result V B → Result V B
  m >> k = m >>= λ _. k

  -- `try { return m; } catch (...) { return handler(e); }`.
  abbrev pub catch : {A : Type 0} → Result V A → (Exception V → A) → A
  catch (ok a) handler = a
  catch (throw e) handler = handler e

  abbrev pub map_result : {A B : Type 0} → (A → B) → Result V A → Result V B
  map_result f (ok a) = ok (f a)
  map_result f (throw e) = throw e

  pub method_not_found_error : String → Exception V
  method_not_found_error method = mcp method_not_found ("Method not found: " <> method) none
