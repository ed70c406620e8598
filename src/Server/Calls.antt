-- ===== src/Server/Calls.antt =====
-- src/server.cpp: the requests that call a handler of the user. A handler stands between the JSON forms of
-- its parameters and its result; what it does through its context is not part of the call.
use cppmcp.Base.{
  ℕ, String, ◌<>◌, ◌==◌, string_eq, nat_eq, Bool, true, not, ◌&&◌, List, [], ◌∷◌, Option, none,
  some, if◌then◌else◌, is_empty, any,
}
use cppmcp.Outcome.{Result, ok, ◌>>=◌, catch, map_result, invalid_params, method_not_found}
use cppmcp.Json.{Json, is_object, is_null, is_string, empty_object}
use cppmcp.Map.{Map, find, insert, string_ord}
use cppmcp.RequestId.{RequestId, request_id_of_json}
use cppmcp.Jsonrpc.Building.{make_success_response, make_error_response}
use cppmcp.Types.Initialize.{InitializeResult}
use cppmcp.Server.{McpServer}
use cppmcp.Server.Lists.{ListKind}
use cppmcp.Server.Subscriptions.{given, wrong, get_string_param}
use cppmcp.Server.Schema.{schema_validate}

-- What a handler gets of its request.
pub record Context : Type 0 where
  pub request_id : RequestId
  pub session_id : String
  pub progress_token : RequestId

pub record PromptArgument : Type 0 where
  pub name : String
  pub required : Bool

-- The registered handlers. `lists` is what the production of a list returns.
pub record Handlers (V : Type 0) : Type 0 where
  pub initialize : Option (V → Result V (InitializeResult V))
  pub lists : ListKind → Result V (List V)
  pub tools : Map String (V × (V → Context → Result V V))
  pub resources : Map String (String → Context → Result V V)
  pub resource_templates : Map String (String → Map String String → Context → Result V V)
  pub prompts : Map String (Option (List PromptArgument) × (String → V → Context → Result V V))
  pub completion : Option ((ref_type ref_name name value : String) → Result V V)
  pub logging_level : Option (String → Result V (Unit {0}))

-- The handlers and the copy of them that freeze takes.
pub record Registry (V : Type 0) : Type 0 where
  pub handlers : Handlers V
  pub frozen_handlers : Handlers V

unfoldable pub handlers_of : {V : Type 0} → McpServer V → Registry V → Handlers V
handlers_of s r = if s.frozen then r.frozen_handlers else r.handlers

-- `if (!ensure_pre_run(…)) return;` and a change of the handlers.
unfoldable pub register :
    {V : Type 0} → (Handlers V → Handlers V) → McpServer V → Registry V → Registry V
register change s r = if s.running then r else record r { handlers = change r.handlers }

abbrev pub register_tool :
    {V : Type 0} → String → V → (V → Context → Result V V) → McpServer V → Registry V → Registry V
register_tool name input_schema handler s r =
    register (λ h. record h { tools = insert name (input_schema, handler) h.tools }) s r

abbrev pub register_resource :
    {V : Type 0} → String → (String → Context → Result V V) → McpServer V → Registry V → Registry V
register_resource uri handler s r =
    register (λ h. record h { resources = insert uri handler h.resources }) s r

abbrev pub register_resource_template :
    {V : Type 0}
    → String
    → (String → Map String String → Context → Result V V)
    → McpServer V
    → Registry V
    → Registry V
register_resource_template uri_template handler s r =
    register
      (λ h. record h { resource_templates = insert uri_template handler h.resource_templates }) s r

abbrev pub register_prompt :
    {V : Type 0}
    → String
    → Option (List PromptArgument)
    → (String → V → Context → Result V V)
    → McpServer V
    → Registry V
    → Registry V
register_prompt name arguments handler s r =
    register (λ h. record h { prompts = insert name (arguments, handler) h.prompts }) s r

abbrev pub register_completion :
    {V : Type 0}
    → ((ref_type ref_name name value : String) → Result V V)
    → McpServer V
    → Registry V
    → Registry V
register_completion handler s r = register (λ h. record h { completion = some handler }) s r

abbrev pub register_initialize_handler :
    {V : Type 0} → (V → Result V (InitializeResult V)) → McpServer V → Registry V → Registry V
register_initialize_handler handler s r = register (λ h. record h { initialize = some handler }) s r

abbrev pub register_logging_level_handler :
    {V : Type 0} → (String → Result V (Unit {0})) → McpServer V → Registry V → Registry V
register_logging_level_handler handler s r =
    register (λ h. record h { logging_level = some handler }) s r

abbrev pub plain_context : RequestId → String → Context
plain_context id session_id = record {
  request_id = id;
  session_id = session_id;
  progress_token = id;
}

abbrev pub listed : Option (List PromptArgument) → List PromptArgument
listed none = []
listed (some args) = args

abbrev pub valid_log_levels : List String
valid_log_levels =
    "debug" ∷ "info" ∷ "notice" ∷ "warning" ∷ "error" ∷ "critical" ∷ "alert" ∷ "emergency" ∷ []

module _ {V : Type 0} ⦃json : Json V⦄ where
  -- The "arguments" of a call, or an empty object.
  abbrev pub arguments_of : V → V
  arguments_of params = elim (json.at? params "arguments") [
    | none ↦ empty_object
    | some arguments ↦ if is_object arguments then arguments else empty_object
  ]

  -- The client's progress token, or the request id where there is none that can be used.
  unfoldable pub progress_token_of : RequestId → V → RequestId
  progress_token_of id params = elim (json.at? params "_meta") [
    | none ↦ id
    | some meta ↦
        if is_object meta
        then elim (json.at? meta "progressToken") [
          | none ↦ id
          | some token ↦ if is_null token then id else catch (request_id_of_json token) (λ e. id)
        ]
        else id
  ]

  abbrev pub answer : RequestId → Result V V → Result V V
  answer id outcome = map_result (make_success_response id) outcome

  unfoldable pub call_tool :
      (fuel : ℕ) → RequestId → V → String → String → V × (V → Context → Result V V) → Result V V
  unfolding schema_validate progress_token_of
  call_tool fuel id params session_id tool_name (input_schema, handler) =
      let arguments = arguments_of params in
      let verr : String =
        (if is_object input_schema then schema_validate fuel arguments input_schema "" else "") in
      if not (is_empty verr)
      then ok (
          make_error_response id invalid_params
            ("Invalid arguments for tool '" <> (tool_name <> ("': " <> verr))) none)
      else answer id (
          handler arguments (record {
            request_id = id;
            session_id = session_id;
            progress_token = progress_token_of id params;
          }))

  -- `fuel` is that of schema_validate.
  unfoldable pub handle_tools_call : (fuel : ℕ) → RequestId → V → String → Handlers V → Result V V
  unfolding get_string_param call_tool
  handle_tools_call fuel id params session_id h = do
    name ← get_string_param params "name"
    (elim name [
      | wrong err ↦ ok (make_error_response id invalid_params err none)
      | given tool_name ↦ elim (find tool_name h.tools) [
        | none ↦ ok (make_error_response id method_not_found ("Tool not found: " <> tool_name) none)
        | some tool ↦ call_tool fuel id params session_id tool_name tool
      ]
    ])

  -- The first required argument that is missing or null.
  unfoldable pub missing_argument : V → List PromptArgument → Option String
  missing_argument arguments [] = none
  missing_argument arguments (arg ∷ args) =
      let rest = missing_argument arguments args in
      let absent : Bool = elim (json.at? arguments arg.name) [ none ↦ true | some v ↦ is_null v ] in
      if arg.required && absent then some arg.name else rest

  unfoldable pub call_prompt :
      RequestId
      → V
      → String
      → String
      → Option (List PromptArgument) × (String → V → Context → Result V V)
      → Result V V
  unfolding missing_argument
  call_prompt id params session_id prompt_name (args, handler) =
      let arguments = arguments_of params in
      elim (missing_argument arguments (listed args)) [
        | some name ↦ ok (
            make_error_response id invalid_params
              ("Missing required argument '"
                <> (name <> ("' for prompt '" <> (prompt_name <> "'"))))
              none)
        | none ↦ answer id (handler prompt_name arguments (plain_context id session_id))
      ]

  unfoldable pub handle_prompts_get : RequestId → V → String → Handlers V → Result V V
  unfolding get_string_param call_prompt
  handle_prompts_get id params session_id h = do
    name ← get_string_param params "name"
    (elim name [
      | wrong err ↦ ok (make_error_response id invalid_params err none)
      | given prompt_name ↦ elim (find prompt_name h.prompts) [
        | none ↦
            ok (make_error_response id method_not_found ("Prompt not found: " <> prompt_name) none)
        | some prompt ↦ call_prompt id params session_id prompt_name prompt
      ]
    ])

  -- The text of a member of the object under `key`, or "".
  unfoldable pub inner_text : V → String → String → String
  inner_text params key field = elim (json.at? params key) [
    | none ↦ ""
    | some r ↦
        if is_object r
        then elim (json.at? r field) [
          | none ↦ ""
          | some v ↦ if is_string v then catch (json.get_string v) (λ e. "") else ""
        ]
        else ""
  ]

  unfoldable pub handle_completion_complete : RequestId → V → Handlers V → Result V V
  unfolding inner_text
  handle_completion_complete id params h = elim h.completion [
    | none ↦ ok (make_error_response id method_not_found "Completions not supported" none)
    | some handler ↦ answer id (
        handler (inner_text params "ref" "type") (inner_text params "ref" "name")
          (inner_text params "argument" "name") (inner_text params "argument" "value"))
  ]

  unfoldable pub handle_logging_set_level : RequestId → V → Handlers V → Result V V
  unfolding get_string_param
  handle_logging_set_level id params h = do
    level ← get_string_param params "level"
    (elim level [
      | wrong err ↦ ok (make_error_response id invalid_params err none)
      | given level ↦
          if any (λ known. known == level) valid_log_levels
          then elim h.logging_level [
            | none ↦ ok (make_success_response id empty_object)
            | some handler ↦
                map_result (λ done. make_success_response id empty_object) (handler level)
          ]
          else ok (make_error_response id invalid_params ("Invalid log level: " <> level) none)
    ])

  unfoldable pub handle_ping : RequestId → Result V V
  handle_ping id = ok (make_success_response id empty_object)
