-- ===== src/Disclosure/Routes/Pruning.antt =====
-- Pruning leaves no expired route and no more than the limit.
use claude_code_telegram_kit.Prelude.{
  ℕ, zero, suc, ◌≤◌, ◌<◌, String, none, some, ◌≡◌, refl, inl, inr, [], ◌∷◌, arith, eq_iff,
  Option-cases, length,
}
use claude_code_telegram_kit.Prelude.JsMap
use claude_code_telegram_kit.Prelude.JsMap.{JsMap}
use claude_code_telegram_kit.Disclosure.Routes.{
  max_background_task_routes, BackgroundTaskRoute, Routing, without_route, delete_route,
  prune_expired, first_key, prune_oldest, prune,
}
use claude_code_telegram_kit.Disclosure.Routes.Aliases.{get-delete_route}

shorter :
    (m : JsMap BackgroundTaskRoute) (key : String)
    → first_key m ≡ some key
    → length (JsMap.delete m key) < length m
unfolding first_key
shorter [] key e = cc
shorter ((k, route) ∷ m) key e = ground (arith, JsMap.length-delete_head k route m)

first_key-get :
    (m : JsMap BackgroundTaskRoute) (key : String)
    → first_key m ≡ some key
    → (route : BackgroundTaskRoute) × (JsMap.get m key ≡ some route)
unfolding first_key JsMap.get
first_key-get [] key e = cc
first_key-get ((k, route) ∷ m) key e = (route, ground (arith, eq_iff k key))

first_key-none : (m : JsMap BackgroundTaskRoute) → first_key m ≡ none → length m ≡ 0
unfolding first_key
first_key-none [] e = refl
first_key-none ((k, route) ∷ m) e = cc

length-delete_first :
    (r : Routing) (key : String)
    → first_key r.routes ≡ some key
    → length (delete_route r key).0.routes < length r.routes
unfolding delete_route without_route
length-delete_first r key e =
    let (route, found) = first_key-get r.routes key e in
    rw (found, delete_route) (shorter r.routes key e)

length-prune_oldest :
    (fuel : ℕ) (r : Routing)
    → length r.routes ≤ fuel
    → length (prune_oldest fuel r).routes ≤ max_background_task_routes
unfolding prune_oldest
length-prune_oldest zero r h = omega arith
length-prune_oldest (suc fuel) r h = elim (Option-cases (first_key r.routes)) [
  | inl none_left ↦ rw (none_left, prune_oldest) (omega (arith, first_key-none r.routes none_left))
  | inr (key, oldest) ↦
      rw (oldest, prune_oldest)
        (ground (
          arith,
          length-delete_first r key oldest,
          length-prune_oldest fuel (delete_route r key).0,
        ))
]

get-prune_expired :
    (now : ℕ) (entries : JsMap BackgroundTaskRoute) (r : Routing) (k : String)
    {route : BackgroundTaskRoute}
    → JsMap.get (prune_expired now entries r).routes k ≡ some route
    → JsMap.get r.routes k ≡ some route
unfolding prune_expired
get-prune_expired now [] r k e = e
get-prune_expired now ((key, old) ∷ entries) r k {route} e = ground (
  arith,
  get-prune_expired now entries (delete_route r key).0 k {route = route},
  get-prune_expired now entries r k {route = route},
  get-delete_route r key k,
)

-- an entry that was visited first for its key is not expired, if its key is still there
prune_expired_visited :
    (now : ℕ) (entries : JsMap BackgroundTaskRoute) (r : Routing) (k : String)
    {old route : BackgroundTaskRoute}
    → JsMap.get entries k ≡ some old
    → JsMap.get (prune_expired now entries r).routes k ≡ some route
    → now < old.expires_at
unfolding prune_expired JsMap.get
prune_expired_visited now [] r k e g = cc
prune_expired_visited now ((key, first) ∷ entries) r k {old} {route} e g = ground (
  arith,
  eq_iff key k,
  get-prune_expired now entries (delete_route r key).0 k {route = route},
  get-delete_route r key k,
  prune_expired_visited now entries (delete_route r key).0 k {old = old} {route = route},
  prune_expired_visited now entries r k {old = old} {route = route},
)

get-prune_oldest :
    (fuel : ℕ) (r : Routing) (k : String) {route : BackgroundTaskRoute}
    → JsMap.get (prune_oldest fuel r).routes k ≡ some route
    → JsMap.get r.routes k ≡ some route
unfolding prune_oldest
get-prune_oldest zero r k e = e
get-prune_oldest (suc fuel) r k {route} e = elim (Option-cases (first_key r.routes)) [
  | inl none_left ↦ ground arith
  | inr (key, oldest) ↦ ground (
    arith,
    get-prune_oldest fuel (delete_route r key).0 k {route = route},
    get-delete_route r key k,
  )
]

-- After pruning at a time at most 128 routes are held, each held route was held before as it is,
-- and none of them has expired at that time.
pub prune_lem :
    (now : ℕ) (r : Routing) (k : String) (route : BackgroundTaskRoute)
    → (length (prune now r).routes ≤ max_background_task_routes)
      × (JsMap.get (prune now r).routes k ≡ some route
          → (JsMap.get r.routes k ≡ some route) × (now < route.expires_at))
unfolding prune
prune_lem now r k route =
    let kept = prune_expired now r.routes r in
    (
      length-prune_oldest (length kept.routes) kept (omega arith),
      λ e.
          let there = get-prune_oldest (length kept.routes) kept k e in
          let before = get-prune_expired now r.routes r k there in
          (before, prune_expired_visited now r.routes r k before there),
    )
