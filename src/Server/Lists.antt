-- ===== src/Server/Lists.antt =====
-- src/server.cpp: the lists of tools, resources, templates and prompts, with their pages and cache.
use cppmcp.Base.{
  ℕ, ◌+◌, ◌-◌, ◌%◌, ◌^◌, min, ltb, String, Bool, not, ◌&&◌, List, [], ◌∷◌, Option, none, some,
  if◌then◌else◌, is_empty, length, take, drop,
}
use cppmcp.Outcome.{Result, ok, throw, std, ◌>>=◌, map_result, invalid_params}
use cppmcp.Json.{Json, is_string}
use cppmcp.RequestId.{RequestId}
use cppmcp.Jsonrpc.Building.{make_success_response, make_error_response}
use cppmcp.Decimal.{all_digits, stoull, to_string}
use cppmcp.Server.{McpServer, ListCache}

-- The four lists: the field of the cache and the key of the result.
pub data ListKind : Type 0 where
  tools resources resource_templates prompts : ListKind

unfoldable pub result_key : ListKind → String
result_key tools = "tools"
result_key resources = "resources"
result_key resource_templates = "resourceTemplates"
result_key prompts = "prompts"

unfoldable pub page_end : (offset page_size size : ℕ) → ℕ
page_end offset page_size size = min ((offset + page_size) % 2 ^ 64) size

module _ {V : Type 0} where
  unfoldable pub cached : ListKind → ListCache V → Option V
  cached tools c = c.tools_list_result
  cached resources c = c.resources_list_result
  cached resource_templates c = c.resource_templates_list_result
  cached prompts c = c.prompts_list_result

  unfoldable pub fill : ListKind → V → ListCache V → ListCache V
  fill tools v c = record c { tools_list_result = some v }
  fill resources v c = record c { resources_list_result = some v }
  fill resource_templates v c = record c { resource_templates_list_result = some v }
  fill prompts v c = record c { prompts_list_result = some v }

  unfoldable pub invalidate_list_cache : McpServer V → McpServer V
  invalidate_list_cache s = record s {
    list_cache = record {
      tools_list_result = none;
      resources_list_result = none;
      resource_templates_list_result = none;
      prompts_list_result = none;
    };
  }

  unfoldable pub set_list_page_size : ℕ → McpServer V → McpServer V
  unfolding invalidate_list_cache
  set_list_page_size n s = invalidate_list_cache (record s { list_page_size = n })

  -- The page from `offset`, and the offset of the next page if there is one. The standard leaves a
  -- range that ends before it begins undefined; libstdc++ reads its length as a huge number and throws.
  unfoldable pub page_of : (offset page_size : ℕ) → List V → Result V (List V × Option ℕ)
  unfolding page_end
  page_of offset page_size items =
      let size = length items in
      let last = page_end offset page_size size in
      let first = min offset size in
      if ltb last first
      then throw (std "cannot create std::vector larger than max_size()")
      else ok (take (last - first) (drop first items), if ltb last size then some last else none)

module _ {V : Type 0} ⦃json : Json V⦄ where
  -- The offset that the parameters ask for, or none for a cursor that is no number.
  unfoldable pub list_offset : ℕ → V → Result V (Option ℕ)
  list_offset page_size params = elim (json.at? params "cursor") [
    | none ↦ ok (some 0)
    | some v ↦
        if ltb 0 page_size && is_string v
        then (do
          cursor ← json.get_string v
          (if is_empty cursor
              then ok (some 0)
              else if all_digits cursor
              then map_result some (stoull cursor)
              else ok none))
        else ok (some 0)
  ]

  unfoldable pub list_result : ListKind → List V → Option ℕ → V
  unfolding result_key to_string
  list_result kind items none = json.from_object ((result_key kind, json.from_array items) ∷ [])
  list_result kind items (some next) =
      json.put (json.from_object ((result_key kind, json.from_array items) ∷ [])) "nextCursor"
        (json.from_string (to_string next))

  unfoldable pub is_cacheable : McpServer V → Bool
  is_cacheable s = s.list_cache_enabled && (s.frozen && not (ltb 0 s.list_page_size))

  -- What follows a miss of the cache; `produced` is what produce_items returns in this call.
  unfoldable pub list_items :
      ListKind → RequestId → ℕ → Result V (List V) → McpServer V → Result V (McpServer V × V)
  unfolding page_of list_result is_cacheable fill
  list_items kind id offset produced s = do
    items ← produced
    (if ltb 0 s.list_page_size
        then (do
          page ← page_of offset s.list_page_size items
          ok (s, make_success_response id (list_result kind page.0 page.1)))
        else (let result = list_result kind items none in
            let s' : McpServer V =
              (if is_cacheable s
                then record s { list_cache = fill kind result s.list_cache }
                else s) in
            ok (s', make_success_response id result)))

  unfoldable pub handle_list_request :
      ListKind → RequestId → V → Result V (List V) → McpServer V → Result V (McpServer V × V)
  unfolding list_offset list_items cached is_cacheable
  handle_list_request kind id params produced s = do
    offset ← list_offset s.list_page_size params
    (elim offset [
      | none ↦ ok (s, make_error_response id invalid_params "Invalid cursor" none)
      | some n ↦ elim (if is_cacheable s then cached kind s.list_cache else none) [
        | some result ↦ ok (s, make_success_response id result)
        | none ↦ list_items kind id n produced s
      ]
    ])
