-- ===== src/Types/Initialize.antt =====
-- The capabilities, and the result of initialize.
use mathlib.Core.Option
use cppmcp.Base.{String, Bool, List, [], ◌∷◌, Option, none, some}
use cppmcp.Outcome.{Result, ok, throw, Exception, ◌>>=◌}
use cppmcp.Json.{Json, at, optional_member, put_all, empty_object}

pub record PromptsCapability : Type 0 where
  pub list_changed : Option Bool

pub record ResourcesCapability : Type 0 where
  pub subscribe : Option Bool
  pub list_changed : Option Bool

pub record ToolsCapability : Type 0 where
  pub list_changed : Option Bool

pub record ServerCapabilities (V : Type 0) : Type 0 where
  pub prompts : Option PromptsCapability
  pub resources : Option ResourcesCapability
  pub tools : Option ToolsCapability
  pub logging : Option (Unit {0})
  pub completions : Option (Unit {0})
  pub experimental : Option V

pub record RootsCapability : Type 0 where
  pub list_changed : Option Bool

pub record ClientCapabilities (V : Type 0) : Type 0 where
  pub sampling : Option (Unit {0})
  pub elicitation : Option (Unit {0})
  pub roots : Option RootsCapability
  pub experimental : Option V

pub record Implementation : Type 0 where
  pub name : String
  pub version : String

pub record InitializeResult (V : Type 0) : Type 0 where
  pub protocol_version : String
  pub capabilities : ServerCapabilities V
  pub server_info : Implementation
  pub instructions : Option String

module _ {V : Type 0} ⦃json : Json V⦄ where
  unfoldable pub prompts_to_json : PromptsCapability → V
  prompts_to_json c =
      put_all empty_object (("listChanged", Option.map json.from_bool c.list_changed) ∷ [])

  unfoldable pub resources_to_json : ResourcesCapability → V
  resources_to_json c = put_all empty_object (
      ("subscribe", Option.map json.from_bool c.subscribe)
      ∷ ("listChanged", Option.map json.from_bool c.list_changed)
      ∷ [])

  unfoldable pub tools_to_json : ToolsCapability → V
  tools_to_json c =
      put_all empty_object (("listChanged", Option.map json.from_bool c.list_changed) ∷ [])

  unfoldable pub empty_to_json : Unit {0} → V
  empty_to_json _ = empty_object

  abbrev pub server_capability_fields : ServerCapabilities V → List (String × Option V)
  server_capability_fields c =
      ("prompts", Option.map prompts_to_json c.prompts)
      ∷ ("resources", Option.map resources_to_json c.resources)
      ∷ ("tools", Option.map tools_to_json c.tools)
      ∷ ("logging", Option.map empty_to_json c.logging)
      ∷ ("completions", Option.map empty_to_json c.completions)
      ∷ ("experimental", c.experimental)
      ∷ []

  unfoldable pub server_capabilities_to_json : ServerCapabilities V → V
  unfolding prompts_to_json resources_to_json tools_to_json empty_to_json
  server_capabilities_to_json c = put_all empty_object (server_capability_fields c)

  unfoldable pub prompts_from_json : V → Result V PromptsCapability
  prompts_from_json v = do
    list_changed ← optional_member json.get_bool v "listChanged"
    ok (record { list_changed = list_changed })

  unfoldable pub resources_from_json : V → Result V ResourcesCapability
  resources_from_json v = do
    subscribe ← optional_member json.get_bool v "subscribe"
    list_changed ← optional_member json.get_bool v "listChanged"
    ok (record { subscribe = subscribe; list_changed = list_changed })

  unfoldable pub tools_from_json : V → Result V ToolsCapability
  tools_from_json v = do
    list_changed ← optional_member json.get_bool v "listChanged"
    ok (record { list_changed = list_changed })

  -- A capability without content: its member is only tested for.
  unfoldable pub present : V → String → Option (Unit {0})
  present v key = Option.map (λ x. tt) (json.at? v key)

  unfoldable pub server_capabilities_from_json : V → Result V (ServerCapabilities V)
  unfolding prompts_from_json resources_from_json tools_from_json present
  server_capabilities_from_json v = do
    prompts ← optional_member prompts_from_json v "prompts"
    resources ← optional_member resources_from_json v "resources"
    tools ← optional_member tools_from_json v "tools"
    ok (record {
      prompts = prompts;
      resources = resources;
      tools = tools;
      logging = present v "logging";
      completions = present v "completions";
      experimental = json.at? v "experimental";
    })

  unfoldable pub roots_to_json : RootsCapability → V
  roots_to_json c =
      put_all empty_object (("listChanged", Option.map json.from_bool c.list_changed) ∷ [])

  abbrev pub client_capability_fields : ClientCapabilities V → List (String × Option V)
  client_capability_fields c =
      ("sampling", Option.map empty_to_json c.sampling)
      ∷ ("elicitation", Option.map empty_to_json c.elicitation)
      ∷ ("roots", Option.map roots_to_json c.roots)
      ∷ ("experimental", c.experimental)
      ∷ []

  unfoldable pub client_capabilities_to_json : ClientCapabilities V → V
  unfolding empty_to_json roots_to_json
  client_capabilities_to_json c = put_all empty_object (client_capability_fields c)

  unfoldable pub roots_from_json : V → Result V RootsCapability
  roots_from_json v = do
    list_changed ← optional_member json.get_bool v "listChanged"
    ok (record { list_changed = list_changed })

  -- The object that `from_json` fills, as far as it got, and the exception if there was one.
  unfoldable pub client_capabilities_from_json : V → ClientCapabilities V × Option (Exception V)
  unfolding roots_from_json present
  client_capabilities_from_json v = elim (optional_member roots_from_json v "roots") [
    | throw e ↦ (
      record {
        sampling = present v "sampling";
        elicitation = present v "elicitation";
        roots = none;
        experimental = none;
      },
      some e,
    )
    | ok roots ↦ (
      record {
        sampling = present v "sampling";
        elicitation = present v "elicitation";
        roots = roots;
        experimental = json.at? v "experimental";
      },
      none,
    )
  ]

  unfoldable pub implementation_to_json : Implementation → V
  implementation_to_json i =
      json.from_object
        (("name", json.from_string i.name) ∷ ("version", json.from_string i.version) ∷ [])

  unfoldable pub implementation_from_json : V → Result V Implementation
  implementation_from_json v = do
    raw_name ← at v "name"
    name ← json.get_string raw_name
    raw_version ← at v "version"
    version ← json.get_string raw_version
    ok (record { name = name; version = version })

  unfoldable pub initialize_result_to_json : InitializeResult V → V
  unfolding server_capabilities_to_json implementation_to_json
  initialize_result_to_json r =
      put_all
        (json.from_object (
          ("protocolVersion", json.from_string r.protocol_version)
          ∷ ("capabilities", server_capabilities_to_json r.capabilities)
          ∷ ("serverInfo", implementation_to_json r.server_info)
          ∷ []))
        (("instructions", Option.map json.from_string r.instructions) ∷ [])

  unfoldable pub initialize_result_from_json : V → Result V (InitializeResult V)
  initialize_result_from_json v = do
    raw_version ← at v "protocolVersion"
    protocol_version ← json.get_string raw_version
    raw_capabilities ← at v "capabilities"
    capabilities ← server_capabilities_from_json raw_capabilities
    raw_info ← at v "serverInfo"
    server_info ← implementation_from_json raw_info
    instructions ← optional_member json.get_string v "instructions"
    ok (record {
      protocol_version = protocol_version;
      capabilities = capabilities;
      server_info = server_info;
      instructions = instructions;
    })
