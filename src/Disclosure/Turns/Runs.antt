-- ===== src/Disclosure/Turns/Runs.antt =====
-- packages/telegram-renderer-mcp/src/progress-disclosure.ts: sequences of hooks.
use claude_code_telegram_kit.Prelude.{
  ℕ, ◌≤◌, String, Option, Bool, true, false, not, ◌||◌, ◌≡◌, inl, inr, List, [], ◌∷◌, arith,
  Bool-cases, Option-cases,
}
use claude_code_telegram_kit.Prelude.JsMap
use claude_code_telegram_kit.Prelude.JsMap.{JsMap}
use claude_code_telegram_kit.Progress.Steps.{ProgressStep}
use claude_code_telegram_kit.Progress.Background
use claude_code_telegram_kit.Progress.Background.{BackgroundProgress}
use claude_code_telegram_kit.Progress.Turn.{
  record_success as step_succeeded, record_failure as step_failed,
}
use claude_code_telegram_kit.Disclosure.Routes.{BackgroundTaskRoute, delete_route, prune}
use claude_code_telegram_kit.Disclosure.Routes.Aliases.{
  IsRouted, delete_route-IsRouted, prune-IsRouted,
}
use claude_code_telegram_kit.Disclosure.Turns.{
  max_retained_turns, max_active_background_turns, World, turn_key, is_active_background,
  is_inactive, count,
}
use claude_code_telegram_kit.Disclosure.Turns.Hooks.{
  ToolInput, lookup, put_turn, record_tool, record_subagent_start, record_subagent_stop,
  terminalize_route,
}
use claude_code_telegram_kit.Disclosure.Turns.Outcomes.{end_route, record_success, record_failure}
use claude_code_telegram_kit.Disclosure.Turns.Binding.{
  DirectMessage, TerminalTaskNotification, Prompt, direct, notification, neither, BindInput, live,
  route_of, opened, retire, insert_turn, consume, bind_message, bind_task, bind_notification,
  bind_prompt, bind_turn,
}
use claude_code_telegram_kit.Disclosure.Turns.Routed.{
  record_tool-IsRouted, terminalize_route-IsRouted, settle_tool_routing, end_route-IsRouted,
}
use claude_code_telegram_kit.Disclosure.Turns.Eviction.{evict_lem}

-- the hooks, with the times, the tests and the steps that come with them
pub data HookEvent : Type 0 where
  binds : ℕ → Bool → BindInput → HookEvent
  tool : ℕ → ToolInput → Option ProgressStep → HookEvent
  subagent_start : String → String → String → String → HookEvent
  subagent_stop : String → String → String → HookEvent
  success failure : ToolInput → HookEvent

unfoldable pub apply : HookEvent → World → World
apply (binds now authorized input) w = bind_turn now authorized input w
apply (tool now input step) w = record_tool now input step w
apply (subagent_start session_id prompt_id agent_id agent_type) w =
    record_subagent_start session_id prompt_id agent_id agent_type w
apply (subagent_stop session_id prompt_id agent_id) w =
    record_subagent_stop session_id prompt_id agent_id w
apply (success input) w = record_success input w
apply (failure input) w = record_failure input w

unfoldable pub run : List HookEvent → World → World
run [] w = w
run (e ∷ es) w = run es (apply e w)

record_success-IsRouted :
    (input : ToolInput) (w : World) → IsRouted w.routing → IsRouted (record_success input w).routing
unfolding record_success
record_success-IsRouted input w h =
    let key = turn_key input.session_id input.prompt_id in
    let ended = end_route input w in
    elim (Option-cases (lookup w input.session_id input.prompt_id)) [
      | inl missing ↦ rw (missing, record_success) h
      | inr (before, found) ↦
          elim (Option-cases (lookup ended.0 input.session_id input.prompt_id)) [
            | inl gone ↦ rw (found, gone, record_success) (end_route-IsRouted input w h)
            | inr (t, there) ↦
                rw (found, there, record_success)
                  (rw
                    (settle_tool_routing
                      (Background.record_success t.background_progress input.tool_use_id)
                      (step_succeeded t.progress input.tool_use_id) ended.1 key t ended.0)
                    (end_route-IsRouted input w h))
          ]
    ]

record_failure-IsRouted :
    (input : ToolInput) (w : World) → IsRouted w.routing → IsRouted (record_failure input w).routing
unfolding record_failure
record_failure-IsRouted input w h =
    let key = turn_key input.session_id input.prompt_id in
    let ended = terminalize_route input.session_id input.tool_use_id w in
    let kept = terminalize_route-IsRouted input.session_id input.tool_use_id w h in
    elim (Option-cases (lookup w input.session_id input.prompt_id)) [
      | inl missing ↦ rw (missing, record_failure) h
      | inr (before, found) ↦
          elim (Option-cases (lookup ended.0 input.session_id input.prompt_id)) [
            | inl gone ↦ rw (found, gone, record_failure) kept
            | inr (t, there) ↦
                rw (found, there, record_failure)
                  (rw
                    (settle_tool_routing
                      (Background.record_failure t.background_progress input.tool_use_id)
                      (step_failed t.progress input.tool_use_id) ended.1 key t ended.0)
                    kept)
          ]
    ]

record_subagent_start_routing :
    (session_id prompt_id agent_id agent_type : String) (w : World)
    → (record_subagent_start session_id prompt_id agent_id agent_type w).routing ≡ w.routing
unfolding record_subagent_start put_turn
record_subagent_start_routing session_id prompt_id agent_id agent_type w = ground arith

record_subagent_stop_routing :
    (session_id prompt_id agent_id : String) (w : World)
    → (record_subagent_stop session_id prompt_id agent_id w).routing ≡ w.routing
unfolding record_subagent_stop put_turn
record_subagent_stop_routing session_id prompt_id agent_id w = ground arith

pub consume_routing :
    (session_id : String) (n : TerminalTaskNotification) (key : String) (w : World)
    → (consume session_id n key w).routing ≡ (delete_route w.routing key).0
unfolding consume put_turn
consume_routing session_id n key w = ground arith

bind_task-IsRouted :
    (authorized : Bool) (input : BindInput) (n : TerminalTaskNotification) (key : String)
    (route : BackgroundTaskRoute) (w : World)
    → IsRouted w.routing
    → IsRouted (bind_task authorized input n key route w).routing
unfolding bind_task
bind_task-IsRouted authorized input n key route w h = elim (Bool-cases (not authorized)) [
  | inl stays ↦ rw stays h
  | inr opens ↦
      rw opens
        (rw (consume_routing input.session_id n key w) (delete_route-IsRouted w.routing key h))
]

bind_turn-IsRouted :
    (now : ℕ) (authorized : Bool) (input : BindInput) (w : World)
    → IsRouted w.routing
    → IsRouted (bind_turn now authorized input w).routing
unfolding bind_turn
bind_turn-IsRouted now authorized input w h =
    bound input.prompt (record w { routing = prune now w.routing }) (prune-IsRouted now w.routing h)
  where
    bound :
        (prompt : Prompt) (w : World)
        → IsRouted w.routing
        → IsRouted (bind_prompt now authorized input prompt w).routing
    bound neither w h = unfold bind_prompt in h
    bound (direct message) w h =
        unfold bind_prompt bind_message in
        (elim (Bool-cases (message.is_control || not authorized)) [
          | inl stays ↦ rw stays h
          | inr opens ↦ rw opens h
        ])
    bound (notification n) w h =
        unfold bind_prompt bind_notification in
        (elim (Option-cases (route_of w.routing input.session_id n)) [
          | inl unknown_task ↦ rw (unknown_task, bind_notification) h
          | inr (key, known) ↦ elim (Option-cases (live now (JsMap.get w.routing.routes key))) [
            | inl expired ↦ rw (known, expired, bind_notification) h
            | inr (route, there) ↦
                rw (known, there, bind_notification)
                  (bind_task-IsRouted authorized input n key route w h)
          ]
        ])

apply-IsRouted : (e : HookEvent) (w : World) → IsRouted w.routing → IsRouted (apply e w).routing
unfolding apply
apply-IsRouted (binds now authorized input) w h = bind_turn-IsRouted now authorized input w h
apply-IsRouted (tool now input step) w h = record_tool-IsRouted now input step w h
apply-IsRouted (subagent_start session_id prompt_id agent_id agent_type) w h =
    rw (record_subagent_start_routing session_id prompt_id agent_id agent_type w) h
apply-IsRouted (subagent_stop session_id prompt_id agent_id) w h =
    rw (record_subagent_stop_routing session_id prompt_id agent_id w) h
apply-IsRouted (success input) w h = record_success-IsRouted input w h
apply-IsRouted (failure input) w h = record_failure-IsRouted input w h

-- Whatever hooks follow one another, with whatever times, prompts and results: if each alias led to
-- a held route that lists it, each alias does so afterwards.
pub run-IsRouted :
    (es : List HookEvent) (w : World) → IsRouted w.routing → IsRouted (run es w).routing
unfolding run
run-IsRouted [] w h = h
run-IsRouted (e ∷ es) w h = run-IsRouted es (apply e w) (apply-IsRouted e w h)

-- A direct message that is no control command, from an authorized chat, leaves at most 16 turns
-- with active background work and at most 32 others.
pub bind_message_lem :
    (input : BindInput) (message : DirectMessage) (w : World)
    → message.is_control ≡ false
    → let turns = (bind_message true input message w).turns in
      (count is_active_background turns ≤ max_active_background_turns)
      × (count is_inactive turns ≤ max_retained_turns)
unfolding bind_message insert_turn
bind_message_lem input message w no_command =
    let key = turn_key input.session_id input.prompt_id in
    let t = opened input message.chat_id message.message_id message.body in
    rw no_command (evict_lem (JsMap.put (JsMap.delete (retire message.chat_id w.turns) key) key t))
