-- ===== src/Disclosure/Turns/Consumption.antt =====
-- A notification consumes its route.
use claude_code_telegram_kit.Prelude.{
  ℕ, String, Option, none, some, Bool, true, false, ◌≡◌, refl, ap, ◌∙◌, inl, inr, arith, eq_iff,
  Option-cases,
}
use claude_code_telegram_kit.Prelude.JsMap
use claude_code_telegram_kit.Prelude.JsMap.{JsMap}
use claude_code_telegram_kit.Disclosure.Routes.{
  BackgroundTaskRoute, Routing, without_route, delete_route,
}
use claude_code_telegram_kit.Disclosure.Routes.Aliases.{
  IsRouted, get-drop_aliases, get-delete_route, delete_route_forgets,
}
use claude_code_telegram_kit.Disclosure.Turns.{World}
use claude_code_telegram_kit.Disclosure.Turns.Runs.{consume_routing}
use claude_code_telegram_kit.Disclosure.Turns.Binding.{
  TerminalTaskNotification, BindInput, key_of, find, conflicts, route_key, live, route_of,
  bind_task, bind_notification,
}

alias_of_kept :
    (r : Routing) (key alias k : String)
    → JsMap.get (delete_route r key).0.aliases alias ≡ some k
    → JsMap.get r.aliases alias ≡ some k
unfolding delete_route without_route
alias_of_kept r key alias k e = elim (Option-cases (JsMap.get r.routes key)) [
  | inl missing ↦ rw (missing, delete_route) at e
  | inr (route, found) ↦ ground (
    arith,
    rw (found, delete_route) at e,
    get-drop_aliases route.task_aliases key r.aliases alias,
  )
]

-- What the alias of a notification leads to is gone with the route, if it is that route.
alias_is_gone :
    (r : Routing) (key : String) (alias : Option String)
    → IsRouted r
    → ((k : String) → find r.aliases alias ≡ some k → k ≡ key)
    → find (delete_route r key).0.aliases alias ≡ none
unfolding find
alias_is_gone r key none h only = refl
alias_is_gone r key (some alias) h only =
    elim (Option-cases (JsMap.get (delete_route r key).0.aliases alias)) [
      | inl gone ↦ gone
      | inr (k, there) ↦
          let same = only k (alias_of_kept r key alias k there) in
          elim ((delete_route_forgets r key alias key h).1 (there ∙ ap some same)) [ ]
    ]

route_key_lem :
    (r : Routing) (key : String) (direct_key alias : Option String)
    → IsRouted r
    → route_key direct_key (find r.routes direct_key) alias (find r.aliases alias) ≡ some key
    → let r' = (delete_route r key).0 in
      route_key direct_key (find r'.routes direct_key) alias (find r'.aliases alias) ≡ none
unfolding route_key find
route_key_lem r key none alias h e = alias_is_gone r key alias h (λ k there. ground arith)
route_key_lem r key (some direct_key) alias h e =
    elim (Option-cases (JsMap.get r.routes direct_key)) [
      | inl missing ↦
          let gone : JsMap.get (delete_route r key).0.routes direct_key ≡ none =
            ground (arith, missing, get-delete_route r key direct_key) in
          let by_alias : find r.aliases alias ≡ some key = rw (missing, route_key) at e in
          rw (gone, route_key)
            (alias_is_gone r key alias h (λ k there. ground (arith, there, by_alias)))
      | inr (route, found) ↦
          let kept = rw (found, route_key) at e in
          let same : direct_key ≡ key = ground (arith, kept) in
          let gone : JsMap.get (delete_route r key).0.routes direct_key ≡ none =
            ground (arith, same, get-delete_route r key direct_key, eq_iff key direct_key) in
          rw (gone, route_key)
            (alias_is_gone r key alias h
              (λ k there. agrees route direct_key alias k there (ground (arith, kept)) ∙ same))
    ]
  where
    agrees :
        (route : BackgroundTaskRoute) (direct_key : String) (alias : Option String) (k : String)
        → find r.aliases alias ≡ some k
        → conflicts route direct_key alias (find r.aliases alias) ≡ false
        → k ≡ direct_key
    agrees route direct_key none k there free = ground arith
    agrees route direct_key (some a) k there free =
        unfold conflicts in ground (arith, eq_iff k direct_key)

route_of_consumed :
    (r : Routing) (session_id : String) (n : TerminalTaskNotification) (key : String)
    → IsRouted r
    → route_of r session_id n ≡ some key
    → route_of (delete_route r key).0 session_id n ≡ none
unfolding route_of
route_of_consumed r session_id n key h e =
    route_key_lem r key (key_of session_id n.tool_use_id) (key_of session_id n.task_id) h e

bound_routing :
    (now : ℕ) (input : BindInput) (n : TerminalTaskNotification) (w : World) (key : String)
    (route : BackgroundTaskRoute)
    → route_of w.routing input.session_id n ≡ some key
    → live now (JsMap.get w.routing.routes key) ≡ some route
    → (bind_notification now true input n w).routing ≡ (delete_route w.routing key).0
unfolding bind_notification bind_task
bound_routing now input n w key route known there =
    rw (known, there, bind_notification) (consume_routing input.session_id n key w)

-- In a routed state, once an authorized notification has opened a turn by its live route, the same
-- notification for the same session changes nothing, at whatever time and by whatever prompt it
-- comes again.
pub bind_notification_once :
    (now later : ℕ) (authorized : Bool) (input again : BindInput) (n : TerminalTaskNotification)
    (w : World) (key : String) (route : BackgroundTaskRoute)
    → IsRouted w.routing
    → route_of w.routing input.session_id n ≡ some key
    → live now (JsMap.get w.routing.routes key) ≡ some route
    → again.session_id ≡ input.session_id
    → let w' = bind_notification now true input n w in
      bind_notification later authorized again n w' ≡ w'
unfolding bind_notification
bind_notification_once now later authorized input again n w key route h known there same =
    let w' = bind_notification now true input n w in
    let unknown_now : route_of w'.routing again.session_id n ≡ none =
      rw (bound_routing now input n w key route known there, same)
        (route_of_consumed w.routing input.session_id n key h known) in
    rw (unknown_now, bind_notification) refl
