-- ===== src/Progress/Turn.antt =====
-- packages/telegram-renderer-mcp/src/progress-state.ts: the steps of one turn. A method of
-- `TurnProgress` returns the new state and its result.
pub mod Lifecycle
pub mod Status
use claude_code_telegram_kit.Prelude.{
  ℕ, zero, suc, ◌+◌, ◌*◌, ◌%◌, ◌^◌, ◌-◌, String, Option, none, some, Bool, true, false, not, ◌&&◌,
  ◌||◌, List, [], ◌∷◌, ◌++◌, map, str_eq, any, if◌then◌else◌, ltb, ◌<>◌, utf16_length, join_lines,
  decimal, length, is_some, get_elem?,
}
use claude_code_telegram_kit.Prelude.JsMap
use claude_code_telegram_kit.Prelude.JsMap.{JsMap}
use claude_code_telegram_kit.Prelude.JsSet
use claude_code_telegram_kit.Progress.Steps.{
  ProgressStep, StepPresentationKind, inline, command, same_step, connector_text,
}
use claude_code_telegram_kit.Progress.Verbs.{TurnVerbPair, select_turn_verb_pair}

pub data TurnOutcome : Type 0 where
  stop stop_failure : TurnOutcome

pub data StepStatus : Type 0 where
  running done failed : StepStatus

pub record TurnKey : Type 0 where
  pub chat_id : String
  pub message_id : String
  pub session_id : String
  pub prompt_id : String

pub record StepLine : Type 0 where
  pub step : ProgressStep
  pub tool_statuses : JsMap StepStatus

unfoldable pub is_running : StepStatus → Bool
is_running running = true
is_running _ = false

pub record TurnProgress : Type 0 where
  pub key : TurnKey
  pub verbs : TurnVerbPair
  pub lines : List StepLine
  pub seen : List String
  pub generation : ℕ
  pub outcome : Option TurnOutcome

unfoldable pub create : TurnKey → TurnVerbPair → TurnProgress
create key verbs = record {
  key = key;
  verbs = verbs;
  lines = [];
  seen = [];
  generation = 0;
  outcome = none;
}

-- `new TurnProgress(key)`: the verbs are chosen by the key
unfoldable pub start : TurnKey → TurnProgress
unfolding create
start key = create key (select_turn_verb_pair key.session_id key.prompt_id)

abbrev pub closed : TurnProgress → Bool
closed p = is_some p.outcome

abbrev pub has_steps : TurnProgress → Bool
has_steps p = ltb 0 (length p.lines)

-- The tool joins the last line if that shows the same step; else it opens a line.
unfoldable pub record_on : List StepLine → String → ProgressStep → List StepLine
record_on [] tool_use_id step =
    record { step = step; tool_statuses = (tool_use_id, running) ∷ [] } ∷ []
record_on (last ∷ []) tool_use_id step =
    if same_step last.step step
    then record last { tool_statuses = JsMap.put last.tool_statuses tool_use_id running } ∷ []
    else last ∷ record { step = step; tool_statuses = (tool_use_id, running) ∷ [] } ∷ []
record_on (line ∷ next ∷ lines) tool_use_id step = line ∷ record_on (next ∷ lines) tool_use_id step

unfoldable pub record_tool : TurnProgress → String → ProgressStep → TurnProgress × Bool
unfolding record_on
record_tool p tool_use_id step = if closed p || JsSet.has p.seen tool_use_id then (p, false) else (
  record p {
    seen = JsSet.add p.seen tool_use_id;
    lines = record_on p.lines tool_use_id step;
    generation = p.generation + 1;
  },
  true,
)

-- `line.toolStatuses.get(id) === "running"`
unfoldable pub runs_in : JsMap StepStatus → String → Bool
unfolding is_running
runs_in statuses tool_use_id = elim (JsMap.get statuses tool_use_id) [
  | none ↦ false
  | some status ↦ is_running status
]

-- The first line that knows the tool takes the status, if the tool still runs there.
unfoldable pub set_status : List StepLine → String → StepStatus → Option (List StepLine)
unfolding runs_in
set_status [] tool_use_id status = none
set_status (line ∷ lines) tool_use_id status =
    let rest = set_status lines tool_use_id status in
    if JsMap.has line.tool_statuses tool_use_id
    then (if runs_in line.tool_statuses tool_use_id
        then some (
            record line { tool_statuses = JsMap.put line.tool_statuses tool_use_id status } ∷ lines)
        else none)
    else elim rest [ none ↦ none | some lines' ↦ some (line ∷ lines') ]

unfoldable pub record_status : TurnProgress → String → StepStatus → TurnProgress × Bool
unfolding set_status
record_status p tool_use_id status =
    if closed p then (p, false) else elim (set_status p.lines tool_use_id status) [
      | none ↦ (p, false)
      | some lines ↦ (record p { lines = lines; generation = p.generation + 1 }, true)
    ]

unfoldable pub record_success : TurnProgress → String → TurnProgress × Bool
unfolding record_status
record_success p tool_use_id = record_status p tool_use_id done

unfoldable pub record_failure : TurnProgress → String → TurnProgress × Bool
unfolding record_status
record_failure p tool_use_id = record_status p tool_use_id failed

-- every status that still runs becomes `terminal`
unfoldable pub end_statuses : StepStatus → JsMap StepStatus → JsMap StepStatus
unfolding is_running
end_statuses terminal [] = []
end_statuses terminal ((k, status) ∷ m) =
    (k, if is_running status then terminal else status) ∷ end_statuses terminal m

unfoldable pub end_line : StepStatus → StepLine → StepLine
unfolding end_statuses
end_line terminal line = record line { tool_statuses = end_statuses terminal line.tool_statuses }

unfoldable pub terminal_status : TurnOutcome → StepStatus
terminal_status stop = done
terminal_status stop_failure = failed

unfoldable pub close : TurnProgress → TurnOutcome → TurnProgress × Bool
unfolding end_line terminal_status
close p outcome = if closed p then (p, false) else (
  record p {
    outcome = some outcome;
    lines = map (end_line (terminal_status outcome)) p.lines;
    generation = p.generation + 1;
  },
  true,
)

-- The methods that change the state, as events.
pub data TurnEvent : Type 0 where
  tool : String → ProgressStep → TurnEvent
  success failure : String → TurnEvent
  close_with : TurnOutcome → TurnEvent

unfoldable pub apply : TurnProgress → TurnEvent → TurnProgress × Bool
apply p (tool id step) = record_tool p id step
apply p (success id) = record_success p id
apply p (failure id) = record_failure p id
apply p (close_with outcome) = close p outcome

unfoldable pub run : TurnProgress → List TurnEvent → TurnProgress
unfolding apply
run p [] = p
run p (e ∷ es) = run (apply p e).0 es
