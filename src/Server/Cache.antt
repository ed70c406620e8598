-- ===== src/Server/Cache.antt =====
-- The cache of lists: what it answers, and when it is filled and emptied.
use cppmcp.Base.{ℕ, ltb, ◌≡◌, ◌≢◌, refl, true, false, List, none, some, arith}
use cppmcp.Outcome.{Result, ok, map_result}
use cppmcp.Json.{Json}
use cppmcp.RequestId.{RequestId}
use cppmcp.Jsonrpc.Building.{make_success_response}
use cppmcp.Server.{McpServer, ListCache}
use cppmcp.Server.Lists.{
  ListKind, tools, resources, resource_templates, prompts, cached, fill, invalidate_list_cache,
  is_cacheable, list_result, list_items, list_offset, handle_list_request,
}

module _ {V : Type 0} where
  cached-fill : (kind : ListKind) (v : V) (c : ListCache V) → cached kind (fill kind v c) ≡ some v
  unfolding cached fill
  cached-fill tools v c = refl
  cached-fill resources v c = refl
  cached-fill resource_templates v c = refl
  cached-fill prompts v c = refl

  cached-fill-other :
      (kind other : ListKind) (v : V) (c : ListCache V)
      → kind ≢ other
      → cached other (fill kind v c) ≡ cached other c
  unfolding cached fill
  cached-fill-other kind other v c h = ground arith

  pub cached-invalidate :
      (kind : ListKind) (s : McpServer V) → cached kind (invalidate_list_cache s).list_cache ≡ none
  unfolding cached invalidate_list_cache
  cached-invalidate tools s = refl
  cached-invalidate resources s = refl
  cached-invalidate resource_templates s = refl
  cached-invalidate prompts s = refl

module _ {V : Type 0} ⦃json : Json V⦄ where
  list_offset-unpaged : (p : ℕ) (params : V) → ltb 0 p ≡ false → list_offset p params ≡ ok (some 0)
  unfolding list_offset
  list_offset-unpaged p params h = ground arith

  -- What a request answers from an empty cache with the items that were produced for it, a later
  -- request for the same list answers, with its own id, whatever its parameters are and whatever
  -- would be produced for it, and leaves the server as it is; the lists of other kinds stay as they were.
  pub handle_list_request-cached :
      (kind : ListKind) (id id' : RequestId) (params params' : V) (items : List V)
      (later : Result V (List V)) (s : McpServer V) (other : ListKind)
      → is_cacheable s ≡ true
      → cached kind s.list_cache ≡ none
      → kind ≢ other
      → (s' : McpServer V) × (handle_list_request kind id params (ok items) s
          ≡ ok (s', make_success_response id (list_result kind items none)))
        × (handle_list_request kind id' params' later s'
            ≡ ok (s', make_success_response id' (list_result kind items none)))
        × (cached other s'.list_cache ≡ cached other s.list_cache)
  unfolding handle_list_request list_items is_cacheable
  handle_list_request-cached kind id id' params params' items later s other h empty ne =
      let filled = fill kind (list_result kind items none) s.list_cache in
      (
        record s { list_cache = filled },
        ground (arith, list_offset-unpaged s.list_page_size params (ground arith)),
        ground (
          arith,
          list_offset-unpaged s.list_page_size params' (ground arith),
          cached-fill kind (list_result kind items none) s.list_cache,
        ),
        cached-fill-other kind other (list_result kind items none) s.list_cache ne,
      )

  -- After notify_tools_list_changed or the like empties the cache, the next request for a list without
  -- pages answers with the items that are produced for it.
  pub handle_list_request-invalidated :
      (kind : ListKind) (id : RequestId) (params : V) (items : List V) (s : McpServer V)
      → ltb 0 s.list_page_size ≡ false
      → map_result
          (λ answer. answer.1)
          (handle_list_request kind id params (ok items) (invalidate_list_cache s))
        ≡ ok (make_success_response id (list_result kind items none))
  unfolding handle_list_request list_items invalidate_list_cache
  handle_list_request-invalidated kind id params items s h =
      ground (arith, list_offset-unpaged s.list_page_size params h, cached-invalidate kind s)
