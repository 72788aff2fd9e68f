-- ===== src/Progress/AgentsText.antt =====
-- packages/telegram-renderer-mcp/src/background-progress.ts: the text of the background bubble.
pub mod Limit
use claude_code_telegram_kit.Prelude.{
  ℕ, zero, suc, ◌+◌, ◌-◌, ◌*◌, ◌/◌, ◌%◌, ◌^◌, ◌≤◌, ◌<◌, String, Option, none, some, Bool, true,
  false, not, ◌&&◌, ◌||◌, ◌≡◌, ◌≢◌, ◌⊎◌, ◌↔◌, refl, sym, ap, ◌∙◌, inl, inr, List, [], ◌∷◌, ◌++◌,
  map, append-nil, append_assoc, arith, str_eq, eq_iff, eq_refl, if◌then◌else◌, ltb, leb, ◌==◌,
  Bool-cases, Option-cases, length, length-append, length-map, is_some, any, all, All, get_elem?,
  utf16_length, utf16_length-append, utf16_length-join_lines, utf16_length-decimal, joined_length,
  joined_length-append, join_lines, decimal, ◌<>◌, max, min,
}
use claude_code_telegram_kit.Prelude.JsMap
use claude_code_telegram_kit.Prelude.JsMap.{JsMap}
use claude_code_telegram_kit.Progress.Steps.{ProgressStep, inline, command, connector_text}
use claude_code_telegram_kit.Progress.Render.{max_progress_characters, preview_or_empty}
use claude_code_telegram_kit.Progress.Background.{
  max_background_agents, max_background_tool_ids, max_background_task_ids, AgentTerminalStatus,
  completed, failed, killed, Status, running, done, stopped, AgentState, BackgroundProgress, empty,
  has_agents, is_running, has_active, has_pending_tasks, record_task_start, record_task_terminal,
  record_start, drop_oldest, make_room, record_tool_on, record_tool, awaits, record_tool_status,
  record_success, record_failure, ended_as, end_tool, record_agent_terminal, record_stop,
  AgentEvent, task_start, task_terminal, start, tool, success, failure, terminal, stop, apply, run,
}

unfoldable pub status_prefix : Status → String
status_prefix running = ""
status_prefix done = ""
status_prefix Status.failed = "❌ "
status_prefix stopped = "⏹ "

unfoldable pub render_step : ProgressStep → Status → String
render_step step status =
    let head = status_prefix status <> step.emoji <> " " <> step.label in
    let preview = preview_or_empty step.preview in
    if str_eq preview "" then head else elim step.kind [
      | command ↦ head
      | inline ↦ head <> connector_text step.connector <> preview
    ]

unfoldable pub icon : Status → String
icon done = "✅"
icon Status.failed = "❌"
icon stopped = "⏹"
icon running = "👥"

unfoldable pub status_label : Status → String
status_label done = "Done"
status_label Status.failed = "Failed"
status_label stopped = "Stopped"
status_label running = "Running"

-- the line of an agent, and under it the line of its last step
unfoldable pub step_lines : Option ProgressStep → Option Status → List String
step_lines none status = []
step_lines (some step) none = []
step_lines (some step) (some status) = ("└ " <> render_step step status) ∷ []

unfoldable pub additions : AgentState → List String
additions agent =
    (icon agent.status <> " " <> agent.type <> " · " <> status_label agent.status)
    ∷ step_lines agent.last_step agent.last_tool_status

unfoldable pub count_running : List AgentState → ℕ
count_running [] = 0
count_running (agent ∷ agents) =
    let rest = count_running agents in if is_running agent.status then suc rest else rest

unfoldable pub has_status : (Status → Bool) → List AgentState → Bool
has_status p agents = any (λ agent. p agent.status) agents

unfoldable pub is_failed : Status → Bool
is_failed Status.failed = true
is_failed _ = false

unfoldable pub is_stopped : Status → Bool
is_stopped stopped = true
is_stopped _ = false

unfoldable pub terminal_header : List AgentState → String
terminal_header agents =
    if has_status is_failed agents
    then "Background work · Failed"
    else if has_status is_stopped agents
    then "Background work · Stopped"
    else "Background work · Done"

unfoldable pub header_text : BackgroundProgress → String
header_text b =
    let agents = JsMap.values b.agents in
    let active = count_running agents in
    if ltb 0 active
    then "Background work · " <> decimal active <> " running…"
    else if has_pending_tasks b
    then "Background work · Finalizing…"
    else terminal_header agents

abbrev pub more_agents : String
more_agents = "… more agents"

-- the loop of `render`; an agent that does not fit ends it with a line that stands for the others
unfoldable pub add_agents : List String → List AgentState → List String
add_agents lines [] = lines
add_agents lines (agent ∷ agents) =
    let rest = add_agents (lines ++ additions agent) agents in
    if ltb max_progress_characters (utf16_length (join_lines (lines ++ additions agent)))
    then lines ++ more_agents ∷ []
    else rest

unfoldable pub render : BackgroundProgress → String
render b =
    if has_agents b
    then join_lines (add_agents (header_text b ∷ []) (JsMap.values b.agents))
    else ""
