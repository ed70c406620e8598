-- ===== src/Server/Answers/Calls.antt =====
-- src/server.cpp: the responses to the requests that call a handler.
use cppmcp.Base.{ℕ, String, ◌==◌, string_eq, List, [], ◌∷◌, Option, if-split, Option-split, any}
use cppmcp.Outcome.{Result, ok, throw, map_result}
use cppmcp.Json.{Json, IsJson, empty_object}
use cppmcp.Map.{Map, find, string_ord}
use cppmcp.RequestId.{RequestId}
use cppmcp.Jsonrpc.Building.{make_success_response}
use cppmcp.Server.Subscriptions.{get_string_param}
use cppmcp.Server.Calls.{
  Context, Handlers, PromptArgument, listed, valid_log_levels, plain_context, arguments_of,
  missing_argument, answer, call_tool, handle_tools_call, call_prompt, handle_prompts_get,
  handle_completion_complete, handle_logging_set_level,
}
use cppmcp.Server.Templates.{uri_template_to_regex, read_template, handle_resources_read}
use cppmcp.Server.Answers.Forms.{
  IsAnswer, Answered, bind-Returns, param-split, success-IsAnswer, error-IsAnswer, answer-Answered,
}

module _ {V : Type 0} ⦃json : Json V⦄ (laws : IsJson json) where
  pub tools_call-Answered :
      (fuel : ℕ) (id : RequestId) (params : V) (session_id : String) (h : Handlers V)
      → Answered id (handle_tools_call fuel id params session_id h)
  unfolding handle_tools_call call_tool
  tools_call-Answered fuel id params session_id h =
      bind-Returns (IsAnswer id) (get_string_param params "name") _ (λ name.
        param-split (Answered id) name _ _ (λ why. error-IsAnswer laws id _ _ _)
          (λ tool_name.
            Option-split (Answered id) (find tool_name h.tools) _ _
              (λ _. error-IsAnswer laws id _ _ _) (λ tool _. called tool_name tool)))
    where
      called :
          (tool_name : String) (tool : V × (V → Context → Result V V))
          → Answered id (call_tool fuel id params session_id tool_name tool)
      called tool_name (schema, handler) =
          if-split (Answered id) _ (ok _) (answer id _) (λ _. error-IsAnswer laws id _ _ _)
            (λ _. answer-Answered laws id _)

  pub prompts_get-Answered :
      (id : RequestId) (params : V) (session_id : String) (h : Handlers V)
      → Answered id (handle_prompts_get id params session_id h)
  unfolding handle_prompts_get call_prompt
  prompts_get-Answered id params session_id h =
      bind-Returns (IsAnswer id) (get_string_param params "name") _ (λ name.
        param-split (Answered id) name _ _ (λ why. error-IsAnswer laws id _ _ _)
          (λ prompt_name.
            Option-split (Answered id) (find prompt_name h.prompts) _ _
              (λ _. error-IsAnswer laws id _ _ _) (λ prompt _. called prompt_name prompt)))
    where
      called :
          (prompt_name : String)
          (prompt : Option (List PromptArgument) × (String → V → Context → Result V V))
          → Answered id (call_prompt id params session_id prompt_name prompt)
      called prompt_name (args, handler) =
          Option-split (Answered id) (missing_argument (arguments_of params) (listed args)) _ _
            (λ _. answer-Answered laws id _) (λ name _. error-IsAnswer laws id _ _ _)

  pub completion-Answered :
      (id : RequestId) (params : V) (h : Handlers V)
      → Answered id (handle_completion_complete id params h)
  unfolding handle_completion_complete
  completion-Answered id params h =
      Option-split (Answered id) h.completion _ _ (λ _. error-IsAnswer laws id _ _ _)
        (λ handler _. answer-Answered laws id _)

  pub set_level-Answered :
      (id : RequestId) (params : V) (h : Handlers V)
      → Answered id (handle_logging_set_level id params h)
  unfolding handle_logging_set_level
  set_level-Answered id params h =
      bind-Returns (IsAnswer id) (get_string_param params "level") _ (λ name.
        param-split (Answered id) name _ _ (λ why. error-IsAnswer laws id _ _ _)
          (λ level.
            if-split (Answered id) (any (λ known. known == level) valid_log_levels) _ _
              (λ _.
                Option-split (Answered id) h.logging_level _ _ (λ _. success-IsAnswer laws id _)
                  (λ handler _. done (handler level)))
              (λ _. error-IsAnswer laws id _ _ _)))
    where
      done :
          (m : Result V (Unit {0}))
          → Answered id (map_result (λ done. make_success_response id empty_object) m)
      done (ok u) = success-IsAnswer laws id _
      done (throw e) = tt

  module _ (regex_match : (pattern uri : String) → Option (List String)) where
    pub template-Answered :
        (id : RequestId) (ctx : Context) (uri : String)
        (templates : Map String (String → Map String String → Context → Result V V))
        → Answered id (read_template regex_match id ctx uri templates)
    unfolding read_template
    template-Answered id ctx uri [] = error-IsAnswer laws id _ _ _
    template-Answered id ctx uri ((tpl, handler) ∷ templates) =
        Option-split (Answered id) (regex_match (uri_template_to_regex tpl) uri) _ _
          (λ _. template-Answered id ctx uri templates) (λ groups _. answer-Answered laws id _)

    pub resources_read-Answered :
        (id : RequestId) (params : V) (session_id : String) (h : Handlers V)
        → Answered id (handle_resources_read regex_match id params session_id h)
    unfolding handle_resources_read
    resources_read-Answered id params session_id h =
        bind-Returns (IsAnswer id) (get_string_param params "uri") _ (λ name.
          param-split (Answered id) name _ _ (λ why. error-IsAnswer laws id _ _ _)
            (λ uri.
              Option-split (Answered id) (find uri h.resources) _ _
                (λ _. template-Answered id (plain_context id session_id) uri h.resource_templates)
                (λ handler _. answer-Answered laws id _)))
