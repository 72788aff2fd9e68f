-- ===== src/Progress/Tests.antt =====
-- Runs of the progress bubble, and the theorems at concrete inputs.
use claude_code_telegram_kit.Prelude.{
  ◌+◌, ◌≤◌, ◌<◌, none, some, true, ◌≡◌, refl, List, [], ◌∷◌, map, arith, eq_iff, utf16_length,
  join_lines, decimal,
}
use claude_code_telegram_kit.Prelude.JsMap
use claude_code_telegram_kit.Prelude.JsMap.{JsMap}
use claude_code_telegram_kit.Prelude.JsSet
use claude_code_telegram_kit.Progress.Steps.{same_step, ProgressStep, space, inline}
use claude_code_telegram_kit.Progress.Turn
use claude_code_telegram_kit.Progress.Turn.{
  TurnKey, TurnProgress, TurnEvent, StepStatus, StepLine, tool, success, failure, close_with,
  running, done, failed, TurnOutcome, stop, stop_failure, start, apply, run, closed, close,
  record_success, has_steps,
}
use claude_code_telegram_kit.Progress.Turn.Lifecycle.{
  tools_of, IsConsistent, run-start-IsConsistent,
}
use claude_code_telegram_kit.Progress.Turn.Status.{
  Moves, status_of, Moves-apply, status_of-run_terminal,
}
use claude_code_telegram_kit.Progress.Render
use claude_code_telegram_kit.Progress.Render.{
  max_progress_characters, render, header_text, render_step,
}
use claude_code_telegram_kit.Progress.Render.Bounds.{utf16_length-render}
use claude_code_telegram_kit.Progress.Render.Changes.{render-record_success, render_shows_all}
use claude_code_telegram_kit.Progress.Background
use claude_code_telegram_kit.Progress.Background.{AgentEvent, AgentState, Status}
use claude_code_telegram_kit.Progress.Background.Invariant.{IsBounded, run-empty-IsBounded}
use claude_code_telegram_kit.Progress.Background.Ended.{IsSettled, run-ended, run-empty-IsSettled}
use claude_code_telegram_kit.Progress.AgentsText
use claude_code_telegram_kit.Progress.AgentsText.Limit.{
  utf16_length-render_agents, render_passes_limit, all_lines,
}

abbrev key : TurnKey
key = record { chat_id = "42"; message_id = "7"; session_id = "s"; prompt_id = "p" }

abbrev read : ProgressStep
read = record {
  emoji = "📖";
  label = "Reading";
  kind = inline;
  connector = space;
  preview = some "a.ts";
}

abbrev events : List TurnEvent
events = tool "t1" read ∷ tool "t2" read ∷ failure "t2" ∷ close_with stop ∷ []

run_example : (run (start key) events).generation ≡ 4
unfolding run start apply Turn.create Turn.record_tool Turn.record_failure Turn.record_status
    Turn.set_status Turn.runs_in Turn.record_on Turn.is_running close JsSet.has JsSet.add same_step
    JsMap.get JsMap.put
run_example = refl

utf16_length-render_example :
    utf16_length (render (run (start key) events)) ≤ max_progress_characters
utf16_length-render_example = utf16_length-render key events (omega arith)

-- two tools on one line, the second failed
abbrev one_line : TurnProgress
one_line = record {
  key = key;
  verbs = record { active = "Baking…"; complete = "Baked" };
  lines = record { step = read; tool_statuses = ("t1", running) ∷ ("t2", failed) ∷ [] } ∷ [];
  seen = "t1" ∷ "t2" ∷ [];
  generation = 3;
  outcome = none;
}

one_line-IsConsistent : IsConsistent one_line
unfolding tools_of JsMap.keys JsSet.has
one_line-IsConsistent = record { tools = refl; distinct = (refl, (refl, tt)) }

run-start-IsConsistent_example : IsConsistent (run (start key) events)
run-start-IsConsistent_example = run-start-IsConsistent key events

abbrev ended_line : TurnProgress
ended_line = record one_line { outcome = some stop }

Moves-apply_example :
    Moves (status_of one_line.lines "t1") (status_of (apply one_line (success "t1")).0.lines "t1")
Moves-apply_example = Moves-apply one_line (success "t1") "t1" one_line-IsConsistent

one_line_failed : status_of one_line.lines "t2" ≡ some failed
unfolding status_of JsMap.get
one_line_failed = refl

status_of-run_terminal_example : status_of (run one_line events).lines "t2" ≡ some failed
status_of-run_terminal_example =
    status_of-run_terminal one_line events "t2" failed one_line-IsConsistent (λ e. cc)
      one_line_failed

render-record_success_example :
    (render (record_success one_line "t1").0 ≡ render one_line)
    × ((record_success one_line "t1").1 ≡ true
        → (record_success one_line "t1").0.generation ≡ one_line.generation + 1)
render-record_success_example = render-record_success one_line "t1"

render_shows_all_example :
    render one_line ≡ join_lines (header_text one_line.verbs none ∷ map render_step one_line.lines)
unfolding header_text render_step Render.step_text Render.is_failed utf16_length JsMap.values
    decimal
render_shows_all_example = render_shows_all one_line refl (omega arith) (omega arith)

abbrev script : List AgentEvent
script =
    Background.task_start "t0"
    ∷ Background.start "a" "reviewer"
    ∷ Background.tool "a" "t1" read
    ∷ Background.stop "a"
    ∷ Background.tool "a" "t2" read
    ∷ []

run-empty-IsBounded_example : IsBounded (Background.run Background.empty script)
run-empty-IsBounded_example = run-empty-IsBounded script

run-empty-IsSettled_example : IsSettled (Background.run Background.empty script)
run-empty-IsSettled_example = run-empty-IsSettled script

-- an agent that has ended
abbrev ended_agent : AgentState
ended_agent = record {
  type = "reviewer";
  status = Status.done;
  last_tool_id = some "t1";
  last_step = some read;
  last_tool_status = some Status.done;
}

abbrev one_ended : Background.BackgroundProgress
one_ended = record {
  agents = ("a", ended_agent) ∷ [];
  tool_agents = ("t1", "a") ∷ [];
  pending_tasks = [];
  generation = 3;
}

one_ended-IsSettled : IsSettled one_ended
unfolding JsMap.get
one_ended-IsSettled = record { settled = λ k a g. ground (arith, eq_iff "a" k) }

run-ended_example : JsMap.get (Background.run one_ended script).agents "a" ≡ some ended_agent
unfolding JsMap.get Background.is_running
run-ended_example = run-ended one_ended script "a" ended_agent one_ended-IsSettled refl refl

utf16_length-render_agents_example :
    utf16_length (AgentsText.render (Background.run Background.empty script))
    ≤ max_progress_characters + 14
utf16_length-render_agents_example = utf16_length-render_agents script

-- an agent whose type and preview have the 128 characters that the hooks admit
abbrev wordy : AgentState
wordy = record {
  type =
      "xxxxxxxxxxxxxxxxxxxxxxxxxxxxxxxxxxxxxxxxxxxxxxxxxxxxxxxxxxxxxxxxxxxxxxxxxxxxxxxxxxxxxxxxxxxxxxxxxxxxxxxxxxxxxxxxxxxxxxxxxxxxxxxx";
  status = Status.running;
  last_tool_id = some "t1";
  last_step = some (record {
    emoji = "📚";
    label = "Reading skill";
    kind = inline;
    connector = space;
    preview =
        some
          "yyyyyyyyyyyyyyyyyyyyyyyyyyyyyyyyyyyyyyyyyyyyyyyyyyyyyyyyyyyyyyyyyyyyyyyyyyyyyyyyyyyyyyyyyyyyyyyyyyyyyyyyyyyyyyyyyyyyyyyyyyyyyyyy";
  });
  last_tool_status = some Status.running;
}

abbrev fourteen : List AgentState
fourteen =
    wordy ∷ wordy ∷ wordy ∷ wordy ∷ wordy ∷ wordy ∷ wordy ∷ wordy ∷ wordy ∷ wordy ∷ wordy ∷ wordy
    ∷ wordy ∷ wordy ∷ []

abbrev fifteen_agents : Background.BackgroundProgress
fifteen_agents = record {
  agents =
      ("a", wordy)
      ∷ ("b", wordy)
      ∷ ("c", wordy)
      ∷ ("d", wordy)
      ∷ ("e", wordy)
      ∷ ("f", wordy)
      ∷ ("g", wordy)
      ∷ ("h", wordy)
      ∷ ("i", wordy)
      ∷ ("j", wordy)
      ∷ ("k", wordy)
      ∷ ("l", wordy)
      ∷ ("m", wordy)
      ∷ ("n", wordy)
      ∷ ("o", wordy)
      ∷ [];
  tool_agents = [];
  pending_tasks = [];
  generation = 30;
}

render_passes_limit_example :
    max_progress_characters < utf16_length (AgentsText.render fifteen_agents)
unfolding JsMap.values utf16_length AgentsText.header_text AgentsText.count_running
    Background.is_running all_lines AgentsText.additions AgentsText.icon AgentsText.status_label
    AgentsText.step_lines AgentsText.render_step AgentsText.status_prefix Render.preview_or_empty
    decimal
render_passes_limit_example =
    render_passes_limit fifteen_agents fourteen wordy [] refl (omega arith) (omega arith)
      (omega arith)
