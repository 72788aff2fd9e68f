-- ===== src/Disclosure/Routes.antt =====
-- packages/telegram-renderer-mcp/src/progress-disclosure.ts: the routes that lead the completion
-- of a background task back to its chat, and the aliases of their tasks.
pub mod Aliases
pub mod Pruning
use claude_code_telegram_kit.Prelude.{
  ℕ, zero, suc, ◌+◌, ◌-◌, ◌*◌, ◌/◌, ◌%◌, ◌^◌, ◌≤◌, ◌<◌, String, Option, none, some, Bool, true,
  false, not, ◌&&◌, ◌||◌, ◌≡◌, ◌≢◌, ◌⊎◌, ◌↔◌, refl, sym, ap, ◌∙◌, inl, inr, List, [], ◌∷◌, ◌++◌,
  map, append-nil, append_assoc, arith, str_eq, eq_iff, eq_refl, if◌then◌else◌, ltb, leb, ◌==◌,
  Bool-cases, Option-cases, length, length-append, length-map, is_some, any, all, All, get_elem?,
  utf16_length, utf16_length-append, utf16_length-join_lines, utf16_length-decimal, joined_length,
  joined_length-append, join_lines, decimal, ◌<>◌, max, min,
}
use claude_code_telegram_kit.Prelude.JsMap
use claude_code_telegram_kit.Prelude.JsMap.{JsMap}
use claude_code_telegram_kit.Prelude.JsSet

abbrev pub background_task_route_ttl_ms : ℕ
background_task_route_ttl_ms = 21600000

abbrev pub max_background_task_routes : ℕ
max_background_task_routes = 128

abbrev pub max_background_chain_depth : ℕ
max_background_chain_depth = 2

pub record BackgroundTaskRoute : Type 0 where
  pub chat_id : String
  pub quote_message_id : String
  pub owner_key : String
  pub tool_use_id : String
  pub task_aliases : List String
  pub depth : ℕ
  pub expires_at : ℕ

-- `backgroundTaskRoutes` and `backgroundTaskAliases`
pub record Routing : Type 0 where
  pub routes : JsMap BackgroundTaskRoute
  pub aliases : JsMap String

abbrev pub no_routes : Routing
no_routes = record { routes = []; aliases = [] }

unfoldable pub background_route_key : String → String → String
background_route_key session_id tool_use_id = session_id <> "/" <> tool_use_id

-- `aliases.get(alias) === key`
unfoldable pub leads_to : JsMap String → String → String → Bool
leads_to aliases alias key = elim (JsMap.get aliases alias) [
  | none ↦ false
  | some canonical ↦ str_eq canonical key
]

-- the loop over `route.taskAliases`
unfoldable pub drop_aliases : List String → String → JsMap String → JsMap String
drop_aliases [] key aliases = aliases
drop_aliases (alias ∷ more) key aliases =
    drop_aliases more key
      (if leads_to aliases alias key then JsMap.delete aliases alias else aliases)

-- the part of `deleteBackgroundTaskRoute` for the route that was found
unfoldable pub without_route : Routing → String → BackgroundTaskRoute → Routing
without_route r key route = record {
  routes = JsMap.delete r.routes key;
  aliases = drop_aliases route.task_aliases key r.aliases;
}

unfoldable pub delete_route : Routing → String → Routing × Option BackgroundTaskRoute
delete_route r key = elim (JsMap.get r.routes key) [
  | none ↦ (r, none)
  | some route ↦ (without_route r key route, some route)
]

-- the first loop of `pruneBackgroundTaskRoutes`, over the entries that it visits
unfoldable pub prune_expired : ℕ → JsMap BackgroundTaskRoute → Routing → Routing
prune_expired now [] r = r
prune_expired now ((key, route) ∷ entries) r =
    prune_expired now entries (if leb route.expires_at now then (delete_route r key).0 else r)

-- `map.keys().next()`
unfoldable pub first_key : JsMap BackgroundTaskRoute → Option String
first_key [] = none
first_key ((key, _) ∷ _) = some key

-- the second loop, on fuel: the oldest route goes while there are too many
unfoldable pub prune_oldest : ℕ → Routing → Routing
prune_oldest zero r = r
prune_oldest (suc fuel) r = elim (first_key r.routes) [
  | none ↦ r
  | some key ↦
      let rest = prune_oldest fuel (delete_route r key).0 in
      if ltb max_background_task_routes (length r.routes) then rest else r
]

-- A round of the second loop removes a route at least, so the number of routes is fuel enough.
unfoldable pub prune : ℕ → Routing → Routing
prune now r = let kept = prune_expired now r.routes r in prune_oldest (length kept.routes) kept

-- The end of `rememberBackgroundTaskRoute`: the new route, and the pruning.
unfoldable pub add_route : ℕ → String → BackgroundTaskRoute → Routing → Routing
add_route now key route r = prune now (record r { routes = JsMap.put r.routes key route })

-- the alias stands free, or leads to this route already
unfoldable pub alias_is_free : JsMap String → String → String → Bool
alias_is_free aliases alias canonical = elim (JsMap.get aliases alias) [
  | none ↦ true
  | some existing ↦ str_eq existing canonical
]

unfoldable pub remember_alias : Routing → String → String → String → Routing
remember_alias r session_id tool_use_id task_id =
    let canonical = background_route_key session_id tool_use_id in
    let alias = background_route_key session_id task_id in
    elim (JsMap.get r.routes canonical) [
      | none ↦ r
      | some route ↦
          if alias_is_free r.aliases alias canonical
          then record {
            routes =
                JsMap.put r.routes canonical
                  (record route { task_aliases = JsSet.add route.task_aliases alias });
            aliases = JsMap.put r.aliases alias canonical;
          }
          else r
    ]
