-- ===== src/Disclosure/Turns/Hooks.antt =====
-- packages/telegram-renderer-mcp/src/progress-disclosure.ts: the hooks that record tools and agents,
-- and `bindTurn`, which opens a turn. The step that a tool shows, if any, comes with its hook. What
-- the timers and watchers do is no part of the hooks, and starting one is taken to succeed.
use claude_code_telegram_kit.Prelude.{
  ℕ, String, Option, none, some, Bool, false, ◌&&◌, ◌||◌, List, [], ◌∷◌, if◌then◌else◌, leb,
}
use claude_code_telegram_kit.Prelude.JsMap
use claude_code_telegram_kit.Prelude.JsMap.{JsMap}
use claude_code_telegram_kit.Prelude.JsSet
use claude_code_telegram_kit.Progress.Steps.{ProgressStep}
use claude_code_telegram_kit.Progress.Turn.{record_tool as record_step}
use claude_code_telegram_kit.Progress.Background
use claude_code_telegram_kit.Progress.Background.{AgentTerminalStatus, failed, killed}
use claude_code_telegram_kit.Disclosure.Routes.{
  max_background_chain_depth, BackgroundTaskRoute, Routing, background_route_key, delete_route,
}
use claude_code_telegram_kit.Disclosure.Turns.{
  Turn, World, turn_key, shows_agents, touch, flush_now, remember_route,
}

-- the fields of the hooks' inputs
pub record ToolInput : Type 0 where
  pub session_id : String
  pub prompt_id : String
  pub tool_use_id : String
  pub tool_name : String
  pub agent_id : Option String
  pub task_status : Option String
  pub task_id : Option String

abbrev pub background_route_tools : List String
background_route_tools = "Skill" ∷ "Task" ∷ "Agent" ∷ []

unfoldable pub lookup : World → String → String → Option Turn
lookup w session_id prompt_id = JsMap.get w.turns (turn_key session_id prompt_id)

unfoldable pub put_turn : World → String → Turn → World
put_turn w key t = record w { turns = JsMap.put w.turns key t }

unfoldable pub touch_if : Bool → Turn → Turn
touch_if changed t = if changed then touch t else t

-- `recordTool` of the agent, for a tool that runs inside one
unfoldable pub record_agent_tool : Option String → String → ProgressStep → Turn → Turn × Bool
record_agent_tool none tool_use_id step t = (t, false)
record_agent_tool (some agent) tool_use_id step t =
    let result = Background.record_tool t.background_progress agent tool_use_id step in
    (record t { background_progress = result.0 }, result.1)

-- the part of `recordTool` for a tool that is shown
unfoldable pub show_tool : ToolInput → Option ProgressStep → Turn → Turn
show_tool input none t = t
show_tool input (some step) t =
    let (t', changed) = record_agent_tool input.agent_id input.tool_use_id step t in
    let result = record_step t'.progress input.tool_use_id step in
    if shows_agents t'.progress_phase
    then touch_if changed t'
    else if t'.background
    then t'
    else touch_if result.1 (record t' { progress = result.0 })

unfoldable pub record_tool_on :
    ℕ → ToolInput → Option ProgressStep → Turn → Routing → Turn × Routing
record_tool_on now input step t r =
    let known = record t { tool_use_ids = JsSet.add t.tool_use_ids input.tool_use_id } in
    let owner_key = turn_key input.session_id input.prompt_id in
    let routed =
      if JsSet.has background_route_tools input.tool_name
      then remember_route now input.session_id input.tool_use_id owner_key known r
      else (known, r) in
    (show_tool input step routed.0, routed.1)

-- the hook `recordTool`
unfoldable pub record_tool : ℕ → ToolInput → Option ProgressStep → World → World
record_tool now input step w = elim (lookup w input.session_id input.prompt_id) [
  | none ↦ w
  | some t ↦
      let result = record_tool_on now input step t w.routing in
      record {
        turns = JsMap.put w.turns (turn_key input.session_id input.prompt_id) result.0;
        routing = result.1;
      }
]

-- the hook `recordSubagentStart`
unfoldable pub record_subagent_start : String → String → String → String → World → World
record_subagent_start session_id prompt_id agent_id agent_type w =
    elim (lookup w session_id prompt_id) [
      | none ↦ w
      | some t ↦
          let result = Background.record_start t.background_progress agent_id agent_type in
          if leb max_background_chain_depth t.background_depth
          then w
          else put_turn w (turn_key session_id prompt_id) (
              touch_if (result.1 && shows_agents t.progress_phase)
                (record t { background_progress = result.0 }))
    ]

-- the hook `recordSubagentStop`
unfoldable pub record_subagent_stop : String → String → String → World → World
record_subagent_stop session_id prompt_id agent_id w = elim (lookup w session_id prompt_id) [
  | none ↦ w
  | some t ↦
      let result = Background.record_stop t.background_progress agent_id in
      let stopped = record t { background_progress = result.0 } in
      put_turn w (turn_key session_id prompt_id)
        (if result.1 && shows_agents t.progress_phase then flush_now stopped else stopped)
]

-- the owner of a route, with what its task changed there
unfoldable pub end_task : World → BackgroundTaskRoute → World × Option String
end_task w route = elim (JsMap.get w.turns route.owner_key) [
  | none ↦ (w, none)
  | some owner ↦
      let result = Background.record_task_terminal owner.background_progress route.tool_use_id in
      (
        put_turn w route.owner_key (record owner { background_progress = result.0 }),
        if result.1 then some route.owner_key else none,
      )
]

-- `terminalizeBackgroundTaskRoute`: the key of the owner that changed
unfoldable pub terminalize_route : String → String → World → World × Option String
terminalize_route session_id tool_use_id w =
    let deleted = delete_route w.routing (background_route_key session_id tool_use_id) in
    let w' = record w { routing = deleted.0 } in
    elim deleted.1 [ none ↦ (w', none) | some route ↦ end_task w' route ]

-- the owner of a killed task, with what the task and its agent changed there
unfoldable pub end_agent :
    World → BackgroundTaskRoute → String → AgentTerminalStatus → World × Option String
end_agent w route task_id status = elim (JsMap.get w.turns route.owner_key) [
  | none ↦ (w, none)
  | some owner ↦
      let task = Background.record_task_terminal owner.background_progress route.tool_use_id in
      let agent = Background.record_agent_terminal task.0 task_id status in
      (
        put_turn w route.owner_key (record owner { background_progress = agent.0 }),
        if task.1 || agent.1 then some route.owner_key else none,
      )
]

-- the route that was deleted, if it lists the alias
unfoldable pub end_alias :
    World → String → String → Option BackgroundTaskRoute → World × Option String
end_alias w alias task_id none = (w, none)
end_alias w alias task_id (some route) =
    if JsSet.has route.task_aliases alias then end_agent w route task_id killed else (w, none)

-- `terminalizeBackgroundTaskAlias`
unfoldable pub terminalize_alias : String → String → World → World × Option String
terminalize_alias session_id task_id w =
    let alias = background_route_key session_id task_id in
    elim (JsMap.get w.routing.aliases alias) [
      | none ↦ (w, none)
      | some canonical ↦
          let deleted = delete_route w.routing canonical in
          end_alias (record w { routing = deleted.0 }) alias task_id deleted.1
    ]
