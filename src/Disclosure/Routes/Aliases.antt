-- ===== src/Disclosure/Routes/Aliases.antt =====
-- Each alias leads to a route that knows it; a route that goes takes its aliases with it.
use claude_code_telegram_kit.Prelude.{
  ℕ, zero, suc, String, Option, none, some, true, false, ◌&&◌, ◌||◌, ◌≡◌, ◌≢◌, refl, inl, inr, List,
  [], ◌∷◌, arith, str_eq, eq_iff, if◌then◌else◌, ltb, leb, Bool-cases, Option-cases, length,
}
use claude_code_telegram_kit.Prelude.JsMap
use claude_code_telegram_kit.Prelude.JsMap.{JsMap}
use claude_code_telegram_kit.Prelude.JsSet
use claude_code_telegram_kit.Disclosure.Routes.{
  first_key, max_background_task_routes, BackgroundTaskRoute, Routing, background_route_key,
  leads_to, drop_aliases, without_route, delete_route, prune_expired, prune_oldest, prune,
  add_route, alias_is_free, remember_alias,
}

has-add :
    (s : List String) (x y : String) → JsSet.has (JsSet.add s x) y ≡ (JsSet.has s y || str_eq x y)
unfolding JsSet.add JsSet.has
has-add s x y = ground (arith, JsSet.has-append s (x ∷ []) y, eq_iff x y)

-- the route under a key, if it lists the alias
abbrev pub Lists : Option BackgroundTaskRoute → String → Type 0
Lists none alias = ⊥
Lists (some route) alias = JsSet.has route.task_aliases alias ≡ true

pub record IsRouted (r : Routing) : Type 0 where
  pub listed :
      (alias key : String)
      → JsMap.get r.aliases alias ≡ some key
      → Lists (JsMap.get r.routes key) alias

pub get-drop_aliases :
    (list : List String) (key : String) (aliases : JsMap String) (a : String)
    → JsMap.get (drop_aliases list key aliases) a
      ≡ (if JsSet.has list a && leads_to aliases a key then none else JsMap.get aliases a)
unfolding drop_aliases JsSet.has leads_to
get-drop_aliases [] key aliases a = refl
get-drop_aliases (x ∷ list) key aliases a = elim (Bool-cases (leads_to aliases x key)) [
  | inl leads ↦ rw leads (
      ground (
        arith,
        get-drop_aliases list key (JsMap.delete aliases x) a,
        JsMap.get-delete aliases x a,
        eq_iff x a,
      ))
  | inr other ↦ rw other (ground (arith, get-drop_aliases list key aliases a, eq_iff x a))
]

-- what a deletion leaves of the routes
pub get-delete_route :
    (r : Routing) (key k : String)
    → JsMap.get (delete_route r key).0.routes k
      ≡ (if str_eq key k then none else JsMap.get r.routes k)
unfolding delete_route without_route
get-delete_route r key k = elim (Option-cases (JsMap.get r.routes key)) [
  | inl missing ↦ rw (missing, delete_route) (ground (arith, eq_iff key k))
  | inr (route, found) ↦ rw (found, delete_route) (JsMap.get-delete r.routes key k)
]

pub delete_route-IsRouted :
    (r : Routing) (key : String) → IsRouted r → IsRouted (delete_route r key).0
unfolding delete_route without_route leads_to
delete_route-IsRouted r key h = elim (Option-cases (JsMap.get r.routes key)) [
  | inl missing ↦ rw (missing, delete_route) h
  | inr (route, found) ↦
      rw (found, delete_route)
        (record {
          listed = λ a k e. ground (
            arith,
            h.listed a k,
            get-drop_aliases route.task_aliases key r.aliases a,
            JsMap.get-delete r.routes key k,
            eq_iff key k,
            eq_iff k key,
          );
        })
]

prune_expired-IsRouted :
    (now : ℕ) (entries : JsMap BackgroundTaskRoute) (r : Routing)
    → IsRouted r
    → IsRouted (prune_expired now entries r)
unfolding prune_expired
prune_expired-IsRouted now [] r h = h
prune_expired-IsRouted now ((key, route) ∷ entries) r h =
    elim (Bool-cases (leb route.expires_at now)) [
      | inl expired ↦ rw expired (
          prune_expired-IsRouted now entries (delete_route r key).0 (delete_route-IsRouted r key h))
      | inr kept ↦ rw kept (prune_expired-IsRouted now entries r h)
    ]

prune_oldest-IsRouted : (fuel : ℕ) (r : Routing) → IsRouted r → IsRouted (prune_oldest fuel r)
unfolding prune_oldest
prune_oldest-IsRouted zero r h = h
prune_oldest-IsRouted (suc fuel) r h = elim (Option-cases (first_key r.routes)) [
  | inl none_left ↦ rw (none_left, prune_oldest) h
  | inr (key, oldest) ↦
      rw (oldest, prune_oldest)
        (elim (Bool-cases (ltb max_background_task_routes (length r.routes))) [
          | inl over ↦
              rw over
                (prune_oldest-IsRouted fuel (delete_route r key).0 (delete_route-IsRouted r key h))
          | inr fits ↦ rw fits h
        ])
]

pub prune-IsRouted : (now : ℕ) (r : Routing) → IsRouted r → IsRouted (prune now r)
unfolding prune
prune-IsRouted now r h =
    let kept = prune_expired now r.routes r in
    prune_oldest-IsRouted (length kept.routes) kept (prune_expired-IsRouted now r.routes r h)

pub add_route-IsRouted :
    (now : ℕ) (key : String) (route : BackgroundTaskRoute) (r : Routing)
    → JsMap.has r.routes key ≡ false
    → IsRouted r
    → IsRouted (add_route now key route r)
unfolding add_route
add_route-IsRouted now key route r fresh h =
    prune-IsRouted now (record r { routes = JsMap.put r.routes key route })
      (record {
        listed =
            λ a k e. ground (arith, h.listed a k, JsMap.get-put r.routes key k route, eq_iff key k);
      })

pub remember_alias-IsRouted :
    (r : Routing) (session_id tool_use_id task_id : String)
    → IsRouted r
    → IsRouted (remember_alias r session_id tool_use_id task_id)
unfolding remember_alias alias_is_free
remember_alias-IsRouted r session_id tool_use_id task_id h =
    let canonical = background_route_key session_id tool_use_id in
    let alias = background_route_key session_id task_id in
    elim (Option-cases (JsMap.get r.routes canonical)) [
      | inl missing ↦ rw (missing, remember_alias) h
      | inr (route, found) ↦
          rw (found, remember_alias)
            (elim (Bool-cases (alias_is_free r.aliases alias canonical)) [
              | inl free ↦ rw free (record {
                listed = λ a k e. ground (
                  arith,
                  h.listed a k,
                  JsMap.get-put r.aliases alias a canonical,
                  JsMap.get-put r.routes canonical k
                      (record route { task_aliases = JsSet.add route.task_aliases alias }),
                  has-add route.task_aliases alias a,
                  eq_iff canonical k,
                  eq_iff alias a,
                );
              })
              | inr taken ↦ rw taken h
            ])
    ]

-- In a routed state the deletion of a route leaves neither the route nor an alias that leads to
-- it, so that no later notification reaches it, and leaves every other route as it is.
pub delete_route_forgets :
    (r : Routing) (key alias k : String)
    → IsRouted r
    → (JsMap.get (delete_route r key).0.routes key ≡ none)
      × (JsMap.get (delete_route r key).0.aliases alias ≢ some key)
      × (key ≢ k → JsMap.get (delete_route r key).0.routes k ≡ JsMap.get r.routes k)
delete_route_forgets r key alias k h =
    let routed = delete_route-IsRouted r key h in
    let gone : JsMap.get (delete_route r key).0.routes key ≡ none =
      ground (arith, get-delete_route r key key, eq_iff key key) in
    (
      gone,
      λ e. rw gone at (routed.listed alias key e),
      λ n. ground (arith, get-delete_route r key k, eq_iff key k),
    )
