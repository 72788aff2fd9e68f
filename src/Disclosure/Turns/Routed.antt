-- ===== src/Disclosure/Turns/Routed.antt =====
-- Every hook keeps the routes in order.
use claude_code_telegram_kit.Prelude.{
  ℕ, String, Option, none, some, Bool, ◌||◌, ◌≡◌, refl, inl, inr, arith, leb, Bool-cases,
  Option-cases,
}
use claude_code_telegram_kit.Prelude.JsMap
use claude_code_telegram_kit.Prelude.JsMap.{JsMap}
use claude_code_telegram_kit.Progress.Steps.{ProgressStep}
use claude_code_telegram_kit.Prelude.JsSet
use claude_code_telegram_kit.Progress.Background
use claude_code_telegram_kit.Progress.Background.{BackgroundProgress}
use claude_code_telegram_kit.Progress.Turn.{TurnProgress}
use claude_code_telegram_kit.Disclosure.Routes.{
  max_background_chain_depth, BackgroundTaskRoute, Routing, background_route_key, delete_route,
}
use claude_code_telegram_kit.Disclosure.Routes.Aliases.{
  IsRouted, delete_route-IsRouted, add_route-IsRouted, remember_alias-IsRouted,
}
use claude_code_telegram_kit.Disclosure.Turns.{Turn, World, turn_key, route_for, remember_route}
use claude_code_telegram_kit.Disclosure.Turns.Hooks.{
  ToolInput, background_route_tools, lookup, put_turn, record_tool_on, record_tool, end_task,
  terminalize_route, end_agent, end_alias, terminalize_alias,
}
use claude_code_telegram_kit.Disclosure.Turns.Outcomes.{
  touch_owner, settle_tool, is_launched, is_killed_stop, launch, end_route,
}

remember_route-IsRouted :
    (now : ℕ) (session_id tool_use_id owner_key : String) (t : Turn) (r : Routing)
    → IsRouted r
    → IsRouted (remember_route now session_id tool_use_id owner_key t r).1
unfolding remember_route
remember_route-IsRouted now session_id tool_use_id owner_key t r h =
    let key = background_route_key session_id tool_use_id in
    elim (Bool-cases
      (leb max_background_chain_depth t.background_depth || JsMap.has r.routes key)) [
        | inl stays ↦ rw stays h
        | inr goes ↦
            rw goes
              (elim (Bool-cases
                (Background.record_task_start t.background_progress tool_use_id).1) [
                  | inl started ↦ rw started (
                      add_route-IsRouted now key (route_for now owner_key tool_use_id t) r
                        (ground arith) h)
                  | inr idle ↦ rw idle h
                ])
      ]

pub record_tool-IsRouted :
    (now : ℕ) (input : ToolInput) (step : Option ProgressStep) (w : World)
    → IsRouted w.routing
    → IsRouted (record_tool now input step w).routing
unfolding record_tool record_tool_on
record_tool-IsRouted now input step w h =
    elim (Option-cases (lookup w input.session_id input.prompt_id)) [
      | inl missing ↦ rw (missing, record_tool) h
      | inr (t, found) ↦
          rw (found, record_tool)
            (elim (Bool-cases (JsSet.has background_route_tools input.tool_name)) [
              | inl routes ↦ rw routes (
                  remember_route-IsRouted now input.session_id input.tool_use_id
                    (turn_key input.session_id input.prompt_id)
                    (record t { tool_use_ids = JsSet.add t.tool_use_ids input.tool_use_id })
                    w.routing h)
              | inr other ↦ rw other h
            ])
    ]

end_task_routing :
    (w : World) (route : BackgroundTaskRoute) → (end_task w route).0.routing ≡ w.routing
unfolding end_task put_turn
end_task_routing w route = elim (Option-cases (JsMap.get w.turns route.owner_key)) [
  | inl missing ↦ rw (missing, end_task) refl
  | inr (owner, found) ↦ rw (found, end_task) refl
]

end_alias_routing :
    (w : World) (alias task_id : String) (route : Option BackgroundTaskRoute)
    → (end_alias w alias task_id route).0.routing ≡ w.routing
unfolding end_alias end_agent put_turn
end_alias_routing w alias task_id none = refl
end_alias_routing w alias task_id (some route) =
    elim (Option-cases (JsMap.get w.turns route.owner_key)) [
      | inl missing ↦ ground arith
      | inr (owner, found) ↦ ground arith
    ]

pub terminalize_route-IsRouted :
    (session_id tool_use_id : String) (w : World)
    → IsRouted w.routing
    → IsRouted (terminalize_route session_id tool_use_id w).0.routing
unfolding terminalize_route
terminalize_route-IsRouted session_id tool_use_id w h =
    let key = background_route_key session_id tool_use_id in
    let kept = delete_route-IsRouted w.routing key h in
    elim (Option-cases (delete_route w.routing key).1) [
      | inl missing ↦ rw (missing, terminalize_route) kept
      | inr (route, found) ↦
          rw (found, terminalize_route)
            (rw (end_task_routing (record w { routing = (delete_route w.routing key).0 }) route)
              kept)
    ]

terminalize_alias-IsRouted :
    (session_id task_id : String) (w : World)
    → IsRouted w.routing
    → IsRouted (terminalize_alias session_id task_id w).0.routing
unfolding terminalize_alias
terminalize_alias-IsRouted session_id task_id w h =
    let alias = background_route_key session_id task_id in
    elim (Option-cases (JsMap.get w.routing.aliases alias)) [
      | inl missing ↦ rw (missing, terminalize_alias) h
      | inr (key, found) ↦
          let deleted = delete_route w.routing key in
          rw (found, terminalize_alias)
            (rw (end_alias_routing (record w { routing = deleted.0 }) alias task_id deleted.1)
              (delete_route-IsRouted w.routing key h))
    ]

pub settle_tool_routing :
    (agents : BackgroundProgress × Bool) (steps : TurnProgress × Bool) (owner : Option String)
    (key : String) (t : Turn) (w : World)
    → (settle_tool agents steps owner key t w).routing ≡ w.routing
unfolding settle_tool touch_owner put_turn
settle_tool_routing agents steps none key t w = ground arith
settle_tool_routing agents steps (some owner_key) key t w = ground arith

launch-IsRouted :
    (input : ToolInput) (w : World) → IsRouted w.routing → IsRouted (launch input w).routing
unfolding launch
launch-IsRouted input w h = elim (Option-cases input.task_id) [
  | inl missing ↦ rw (missing, launch) h
  | inr (task_id, there) ↦
      rw (there, launch)
        (remember_alias-IsRouted w.routing input.session_id input.tool_use_id task_id h)
]

pub end_route-IsRouted :
    (input : ToolInput) (w : World) → IsRouted w.routing → IsRouted (end_route input w).0.routing
unfolding end_route
end_route-IsRouted input w h =
    let by_tool = terminalize_route-IsRouted input.session_id input.tool_use_id w h in
    elim (Bool-cases (is_launched input.task_status)) [
      | inl launched ↦ rw launched (launch-IsRouted input w h)
      | inr ended ↦ elim (Option-cases input.task_id) [
        | inl missing ↦ rw (ended, missing, end_route) by_tool
        | inr (task_id, there) ↦
            rw (ended, there, end_route)
              (elim (Bool-cases (is_killed_stop input)) [
                | inl kills ↦ rw kills (terminalize_alias-IsRouted input.session_id task_id w h)
                | inr other ↦ rw other by_tool
              ])
      ]
    ]
