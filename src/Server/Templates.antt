-- ===== src/Server/Templates.antt =====
-- src/server.cpp: resources/read. The match of a regular expression is the standard library's: `regex_match`
-- takes the text of the expression and the URI, and returns the texts of the groups if there is a match.
use Prim.Native.Char.{code}
use cppmcp.Base.{
  ℕ, String, ◌<>◌, ◌==◌, nat_eq, string_eq, leb, Bool, true, false, not, ◌&&◌, ◌||◌, List, [], ◌∷◌,
  Option, none, some, if◌then◌else◌, is_empty,
}
use cppmcp.Outcome.{Result, ok, ◌>>=◌, invalid_params, method_not_found}
use cppmcp.Json.{Json}
use cppmcp.Map.{Map, find, insert, string_ord}
use cppmcp.RequestId.{RequestId}
use cppmcp.Jsonrpc.Building.{make_error_response}
use cppmcp.Server.Subscriptions.{given, wrong, get_string_param}
use cppmcp.Server.Calls.{Context, Handlers, plain_context, answer}

-- The characters of the source's `is_meta`: . + * ? ( ) [ ] { } | ^ $ \
abbrev is_meta : ℕ → Bool
is_meta c =
    c == 46
    || (c == 43
        || (c == 42
            || (c == 63
                || (c == 40
                    || (c == 41
                        || (c == 91
                            || (c == 93
                                || (c == 123
                                    || (c == 125
                                        || (c == 124 || (c == 94 || (c == 36 || c == 92))))))))))))

-- The pattern of what is left of a template; `has_var` says that the current variable has a name.
unfoldable pub pattern_of : (in_var has_var : Bool) → String → String
pattern_of in_var has_var String.[] = "$"
pattern_of in_var has_var (String.◌∷◌ c tpl) =
    if code c == b'{'
    then pattern_of true false tpl
    else if code c == b'}'
    then (if in_var && has_var
        then "([^/\\?\\#]+)" <> pattern_of false has_var tpl
        else pattern_of false has_var tpl)
    else if in_var
    then pattern_of true true tpl
    else if is_meta (code c)
    then "\\" <> String.◌∷◌ c (pattern_of false has_var tpl)
    else String.◌∷◌ c (pattern_of false has_var tpl)

unfoldable pub uri_template_to_regex : String → String
unfolding pattern_of
uri_template_to_regex tpl = "^" <> pattern_of false false tpl

-- std::isalnum of an ASCII character, or '_'.
abbrev is_name_start : ℕ → Bool
is_name_start c =
    (leb 48 c && leb c 57) || ((leb 65 c && leb c 90) || ((leb 97 c && leb c 122) || c == 95))

abbrev with_name : String → List String → List String
with_name var names = if is_empty var then names else var ∷ names

-- The names of the variables of what is left of a template, behind the text `var`.
unfoldable pub names_of : String → String → List String
names_of var String.[] = []
names_of var (String.◌∷◌ c tpl) =
    if code c == b'{'
    then names_of "" tpl
    else if code c == b'}'
    then with_name var (names_of "" tpl)
    else if not (is_empty var) || is_name_start (code c)
    then names_of (var <> String.◌∷◌ c "") tpl
    else names_of var tpl

unfoldable pub variables_of : List String → List String → Map String String → Map String String
variables_of [] groups variables = variables
variables_of (name ∷ names) [] variables = variables
variables_of (name ∷ names) (group ∷ groups) variables =
    variables_of names groups (insert name group variables)

module _ {V : Type 0} ⦃json : Json V⦄
    (regex_match : (pattern uri : String) → Option (List String)) where
  -- The first template, in the order of the map, that the URI matches.
  unfoldable pub read_template :
      RequestId
      → Context
      → String
      → Map String (String → Map String String → Context → Result V V)
      → Result V V
  unfolding uri_template_to_regex names_of variables_of
  read_template id ctx uri [] =
      ok (make_error_response id method_not_found ("Resource not found: " <> uri) none)
  read_template id ctx uri ((tpl, handler) ∷ templates) =
      let rest : Result V V = read_template id ctx uri templates in
      elim (regex_match (uri_template_to_regex tpl) uri) [
        | none ↦ rest
        | some groups ↦ answer id (handler uri (variables_of (names_of "" tpl) groups []) ctx)
      ]

  unfoldable pub handle_resources_read : RequestId → V → String → Handlers V → Result V V
  unfolding get_string_param read_template
  handle_resources_read id params session_id h = do
    uri ← get_string_param params "uri"
    (elim uri [
      | wrong err ↦ ok (make_error_response id invalid_params err none)
      | given uri ↦
          let ctx = plain_context id session_id in
          elim (find uri h.resources) [
            | none ↦ read_template id ctx uri h.resource_templates
            | some handler ↦ answer id (handler uri ctx)
          ]
    ])
