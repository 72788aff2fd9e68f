-- ===== src/Disclosure/Turns/Outcomes.antt =====
-- packages/telegram-renderer-mcp/src/progress-disclosure.ts: the hooks `recordSuccess` and
-- `recordFailure`. Two turns are the same object where they stand under the same key.
use claude_code_telegram_kit.Prelude.{
  String, Option, none, some, Bool, false, not, ◌&&◌, ◌||◌, str_eq, if◌then◌else◌,
}
use claude_code_telegram_kit.Prelude.JsMap
use claude_code_telegram_kit.Prelude.JsMap.{JsMap}
use claude_code_telegram_kit.Progress.Turn.{
  TurnProgress, record_success as step_succeeded, record_failure as step_failed,
}
use claude_code_telegram_kit.Progress.Background
use claude_code_telegram_kit.Progress.Background.{BackgroundProgress}
use claude_code_telegram_kit.Disclosure.Routes.{remember_alias}
use claude_code_telegram_kit.Disclosure.Turns.{Turn, World, turn_key, shows_agents, touch}
use claude_code_telegram_kit.Disclosure.Turns.Hooks.{
  ToolInput, lookup, put_turn, touch_if, terminalize_route, terminalize_alias,
}

unfoldable pub is_key : Option String → String → Bool
is_key none key = false
is_key (some k) key = str_eq k key

-- the owner of a route that changed, if it is another turn, is drawn again
unfoldable pub touch_owner : Option String → String → World → World
touch_owner none key w = w
touch_owner (some owner_key) key w = elim (JsMap.get w.turns owner_key) [
  | none ↦ w
  | some owner ↦
      if not (str_eq owner_key key) && shows_agents owner.progress_phase
      then put_turn w owner_key (touch owner)
      else w
]

-- what both hooks do with the turn, once the route is ended
unfoldable pub settle_tool :
    BackgroundProgress × Bool → TurnProgress × Bool → Option String → String → Turn → World → World
settle_tool agents steps owner key t w =
    let t' = record t { background_progress = agents.0 } in
    if shows_agents t.progress_phase
    then put_turn w key (touch_if (agents.1 || is_key owner key) t')
    else touch_owner owner key
        (put_turn w key (touch_if steps.1 (record t' { progress = steps.0 })))

-- `task_status` is one of the two
unfoldable pub is_launched : Option String → Bool
is_launched none = false
is_launched (some status) = str_eq status "async_launched" || str_eq status "forked"

unfoldable pub is_killed_stop : ToolInput → Bool
is_killed_stop input = str_eq input.tool_name "TaskStop" && is_key input.task_status "killed"

unfoldable pub launch : ToolInput → World → World
launch input w = elim input.task_id [
  | none ↦ w
  | some task_id ↦ record w {
    routing = remember_alias w.routing input.session_id input.tool_use_id task_id;
  }
]

unfoldable pub end_route : ToolInput → World → World × Option String
end_route input w =
    let by_tool = terminalize_route input.session_id input.tool_use_id w in
    if is_launched input.task_status then (launch input w, none) else elim input.task_id [
      | none ↦ by_tool
      | some task_id ↦
          if is_killed_stop input then terminalize_alias input.session_id task_id w else by_tool
    ]

-- the hook `recordSuccess`
unfoldable pub record_success : ToolInput → World → World
record_success input w = elim (lookup w input.session_id input.prompt_id) [
  | none ↦ w
  | some before ↦
      let ended = end_route input w in
      elim (lookup ended.0 input.session_id input.prompt_id) [
        | none ↦ ended.0
        | some t ↦
            settle_tool (Background.record_success t.background_progress input.tool_use_id)
              (step_succeeded t.progress input.tool_use_id) ended.1
              (turn_key input.session_id input.prompt_id) t ended.0
      ]
]

-- the hook `recordFailure`
unfoldable pub record_failure : ToolInput → World → World
record_failure input w = elim (lookup w input.session_id input.prompt_id) [
  | none ↦ w
  | some before ↦
      let ended = terminalize_route input.session_id input.tool_use_id w in
      elim (lookup ended.0 input.session_id input.prompt_id) [
        | none ↦ ended.0
        | some t ↦
            settle_tool (Background.record_failure t.background_progress input.tool_use_id)
              (step_failed t.progress input.tool_use_id) ended.1
              (turn_key input.session_id input.prompt_id) t ended.0
      ]
]
