-- ===== src/Types/Roundtrip.antt =====
-- What the types are written as reads back.
use mathlib.Core.Option
use cppmcp.Base.{String, ◌≡◌, refl, ◌∙◌, Bool, List, [], ◌∷◌, Option, none, some, arith}
use cppmcp.Outcome.{Result, ok}
use cppmcp.Json.{Json, IsJson, lookup, optional_member, put_all, empty_object}
use cppmcp.Json.Members.{or_some, or_some-none, last_of, at?-put_all}
use cppmcp.Types.Initialize.{
  PromptsCapability, ResourcesCapability, ToolsCapability, RootsCapability, ServerCapabilities,
  ClientCapabilities, Implementation, InitializeResult, prompts_to_json, prompts_from_json,
  resources_to_json, resources_from_json, tools_to_json, tools_from_json, roots_to_json,
  roots_from_json, server_capabilities_to_json, server_capabilities_from_json,
  client_capabilities_to_json, client_capabilities_from_json, implementation_to_json,
  implementation_from_json, initialize_result_to_json, initialize_result_from_json, present,
  empty_to_json, server_capability_fields, client_capability_fields,
}

module _ {V : Type 0} ⦃json : Json V⦄ (laws : IsJson json) where
  optional_member_lem :
      {A : Type 0} (get : V → Result V A) (write : A → V) (v : V) (key : String) (o : Option A)
      → ((a : A) → get (write a) ≡ ok a)
      → json.at? v key ≡ or_some (Option.map write o) none
      → optional_member get v key ≡ ok o
  optional_member_lem get write v key none inverse h = ground arith
  optional_member_lem get write v key (some a) inverse h = ground (arith, inverse a)

  -- One optional Boolean member, as in most capabilities.
  flag :
      (fields : List (String × Option V)) (key : String) (o : Option Bool)
      → last_of fields key none ≡ or_some (Option.map json.from_bool o) none
      → optional_member json.get_bool (put_all empty_object fields) key ≡ ok o
  flag fields key o h =
      optional_member_lem json.get_bool json.from_bool _ key o laws.get_bool-from_bool
        (at?-put_all laws [] fields key ∙ h)

  prompts_from_json-to_json :
      (c : PromptsCapability) → prompts_from_json {V = V} (prompts_to_json c) ≡ ok c
  unfolding prompts_from_json prompts_to_json
  prompts_from_json-to_json c = rw (flag _ "listChanged" c.list_changed refl)

  tools_from_json-to_json : (c : ToolsCapability) → tools_from_json {V = V} (tools_to_json c) ≡ ok c
  unfolding tools_from_json tools_to_json
  tools_from_json-to_json c = rw (flag _ "listChanged" c.list_changed refl)

  resources_from_json-to_json :
      (c : ResourcesCapability) → resources_from_json {V = V} (resources_to_json c) ≡ ok c
  unfolding resources_from_json resources_to_json
  resources_from_json-to_json c =
      rw (flag _ "subscribe" c.subscribe refl, flag _ "listChanged" c.list_changed refl)

  roots_from_json-to_json : (c : RootsCapability) → roots_from_json {V = V} (roots_to_json c) ≡ ok c
  unfolding roots_from_json roots_to_json
  roots_from_json-to_json c = rw (flag _ "listChanged" c.list_changed refl)

  present_lem :
      (v : V) (key : String) (o : Option (Unit {0}))
      → json.at? v key ≡ or_some (Option.map empty_to_json o) none
      → present v key ≡ o
  unfolding present
  present_lem v key none h = ground arith
  present_lem v key (some tt) h = ground arith

  module _ (c : ServerCapabilities V) where
    server_field :
        (key : String)
        → json.at? (server_capabilities_to_json c) key
          ≡ last_of (server_capability_fields c) key none
    unfolding server_capabilities_to_json
    server_field key = at?-put_all laws [] (server_capability_fields c) key

    server_capabilities_from_json-to_json :
        server_capabilities_from_json (server_capabilities_to_json c) ≡ ok c
    unfolding server_capabilities_from_json
    server_capabilities_from_json-to_json = ground (
      arith,
      optional_member_lem prompts_from_json prompts_to_json _ "prompts" c.prompts
          prompts_from_json-to_json (server_field "prompts"),
      optional_member_lem resources_from_json resources_to_json _ "resources" c.resources
          resources_from_json-to_json (server_field "resources"),
      optional_member_lem tools_from_json tools_to_json _ "tools" c.tools tools_from_json-to_json
          (server_field "tools"),
      present_lem _ "logging" c.logging (server_field "logging"),
      present_lem _ "completions" c.completions (server_field "completions"),
      server_field "experimental" ∙ or_some-none c.experimental,
    )

  module _ (c : ClientCapabilities V) where
    client_field :
        (key : String)
        → json.at? (client_capabilities_to_json c) key
          ≡ last_of (client_capability_fields c) key none
    unfolding client_capabilities_to_json
    client_field key = at?-put_all laws [] (client_capability_fields c) key

    -- The capabilities of a client are read back as they were written, with no exception.
    pub client_capabilities_from_json-to_json :
        client_capabilities_from_json (client_capabilities_to_json c) ≡ (c, none)
    unfolding client_capabilities_from_json
    client_capabilities_from_json-to_json = ground (
      arith,
      optional_member_lem roots_from_json roots_to_json _ "roots" c.roots roots_from_json-to_json
          (client_field "roots"),
      present_lem _ "sampling" c.sampling (client_field "sampling"),
      present_lem _ "elicitation" c.elicitation (client_field "elicitation"),
      client_field "experimental" ∙ or_some-none c.experimental,
    )

  implementation_from_json-to_json :
      (i : Implementation) → implementation_from_json {V = V} (implementation_to_json i) ≡ ok i
  unfolding implementation_from_json implementation_to_json
  implementation_from_json-to_json i = ground (
    arith,
    laws.at?-from_object
        (("name", json.from_string i.name) ∷ ("version", json.from_string i.version) ∷ []) "name",
    laws.at?-from_object
        (("name", json.from_string i.name) ∷ ("version", json.from_string i.version) ∷ [])
        "version",
    laws.get_string-from_string i.name,
    laws.get_string-from_string i.version,
  )

  abbrev initialize_members : InitializeResult V → List (String × V)
  initialize_members r =
      ("protocolVersion", json.from_string r.protocol_version)
      ∷ ("capabilities", server_capabilities_to_json r.capabilities)
      ∷ ("serverInfo", implementation_to_json r.server_info)
      ∷ []

  abbrev instructions_field : InitializeResult V → List (String × Option V)
  instructions_field r = ("instructions", Option.map json.from_string r.instructions) ∷ []

  member :
      (r : InitializeResult V) (key : String)
      → json.at? (initialize_result_to_json r) key
        ≡ last_of (instructions_field r) key (lookup key (initialize_members r))
  unfolding initialize_result_to_json
  member r key = at?-put_all laws (initialize_members r) (instructions_field r) key

  -- The result of initialize is read back as it was written, with every capability and option.
  pub initialize_result_from_json-to_json :
      (r : InitializeResult V) → initialize_result_from_json (initialize_result_to_json r) ≡ ok r
  unfolding initialize_result_from_json initialize_result_to_json
  initialize_result_from_json-to_json r = ground (
    arith,
    member r "protocolVersion",
    member r "capabilities",
    member r "serverInfo",
    optional_member_lem json.get_string json.from_string _ "instructions" r.instructions
        laws.get_string-from_string (member r "instructions"),
    laws.get_string-from_string r.protocol_version,
    server_capabilities_from_json-to_json r.capabilities,
    implementation_from_json-to_json r.server_info,
  )

  pub at?-protocol_version :
      (r : InitializeResult V)
      → json.at? (initialize_result_to_json r) "protocolVersion"
        ≡ some (json.from_string r.protocol_version)
  at?-protocol_version r = ground (arith, member r "protocolVersion")
