-- ===== src/Progress/Background.antt =====
-- packages/telegram-renderer-mcp/src/background-progress.ts: the subagents of one turn. A method of
-- `BackgroundProgress` returns the new state and its result.
pub mod Invariant
pub mod Ended
use claude_code_telegram_kit.Prelude.{
  ℕ, zero, suc, ◌+◌, String, Option, none, some, Bool, true, false, not, ◌&&◌, ◌||◌, List, [], ◌∷◌,
  str_eq, any, if◌then◌else◌, ltb, leb, length,
}
use claude_code_telegram_kit.Prelude.JsMap
use claude_code_telegram_kit.Prelude.JsMap.{JsMap}
use claude_code_telegram_kit.Prelude.JsSet
use claude_code_telegram_kit.Progress.Steps.{ProgressStep}

abbrev pub max_background_agents : ℕ
max_background_agents = 16

abbrev pub max_background_tool_ids : ℕ
max_background_tool_ids = 256

abbrev pub max_background_task_ids : ℕ
max_background_task_ids = 16

pub data AgentTerminalStatus : Type 0 where
  completed failed killed : AgentTerminalStatus

-- `AgentStatus` and `ToolStatus`
pub data Status : Type 0 where
  running done failed stopped : Status

pub record AgentState : Type 0 where
  pub type : String
  pub status : Status
  pub last_tool_id : Option String
  pub last_step : Option ProgressStep
  pub last_tool_status : Option Status

pub record BackgroundProgress : Type 0 where
  pub agents : JsMap AgentState
  pub tool_agents : JsMap String
  pub pending_tasks : List String
  pub generation : ℕ

abbrev pub empty : BackgroundProgress
empty = record { agents = []; tool_agents = []; pending_tasks = []; generation = 0 }

abbrev pub has_agents : BackgroundProgress → Bool
has_agents b = ltb 0 (length b.agents)

unfoldable pub is_running : Status → Bool
is_running running = true
is_running _ = false

unfoldable pub has_active : BackgroundProgress → Bool
has_active b = any (λ agent. is_running agent.status) (JsMap.values b.agents)

abbrev pub has_pending_tasks : BackgroundProgress → Bool
has_pending_tasks b = ltb 0 (length b.pending_tasks)

pub record_task_start : BackgroundProgress → String → BackgroundProgress × Bool
record_task_start b id =
    if JsSet.has b.pending_tasks id || leb max_background_task_ids (length b.pending_tasks)
    then (b, false)
    else (
      record b { pending_tasks = JsSet.add b.pending_tasks id; generation = b.generation + 1 },
      true,
    )

pub record_task_terminal : BackgroundProgress → String → BackgroundProgress × Bool
record_task_terminal b id =
    if JsSet.has b.pending_tasks id
    then (
      record b { pending_tasks = JsSet.delete b.pending_tasks id; generation = b.generation + 1 },
      true,
    )
    else (b, false)

pub record_start : BackgroundProgress → String → String → BackgroundProgress × Bool
record_start b agent_id agent_type =
    if JsMap.has b.agents agent_id || leb max_background_agents (length b.agents)
    then (b, false)
    else (
      record b {
        agents = JsMap.put b.agents agent_id (record {
          type = agent_type;
          status = running;
          last_tool_id = none;
          last_step = none;
          last_tool_status = none;
        });
        generation = b.generation + 1;
      },
      true,
    )

-- `while (size >= limit) { … delete(oldest) }`, on fuel; the first entry is the oldest
unfoldable pub drop_oldest : ℕ → JsMap String → JsMap String
drop_oldest zero m = m
drop_oldest (suc fuel) [] = []
drop_oldest (suc fuel) ((k, v) ∷ m) =
    let rest = drop_oldest fuel (JsMap.delete ((k, v) ∷ m) k) in
    if leb max_background_tool_ids (length ((k, v) ∷ m)) then rest else (k, v) ∷ m

-- A round removes an entry at least, so the size of the map is fuel enough.
unfoldable pub make_room : JsMap String → JsMap String
make_room m = drop_oldest (length m) m

-- the body of `recordTool` for the agent that was found
pub record_tool_on :
    BackgroundProgress → String → String → ProgressStep → AgentState → BackgroundProgress × Bool
record_tool_on b agent_id tool_use_id step agent =
    if not (is_running agent.status) || JsMap.has b.tool_agents tool_use_id then (b, false) else (
      record b {
        tool_agents = JsMap.put (make_room b.tool_agents) tool_use_id agent_id;
        agents = JsMap.put b.agents agent_id (record agent {
          last_tool_id = some tool_use_id;
          last_step = some step;
          last_tool_status = some running;
        });
        generation = b.generation + 1;
      },
      true,
    )

pub record_tool : BackgroundProgress → String → String → ProgressStep → BackgroundProgress × Bool
record_tool b agent_id tool_use_id step = elim (JsMap.get b.agents agent_id) [
  | none ↦ (b, false)
  | some agent ↦ record_tool_on b agent_id tool_use_id step agent
]

-- `agent.lastToolId === id && agent.lastToolStatus === "running"`
unfoldable pub awaits : AgentState → String → Bool
awaits agent id =
    (elim agent.last_tool_id [ none ↦ false | some last ↦ str_eq last id ])
    && (elim agent.last_tool_status [ none ↦ false | some s ↦ is_running s ])

pub record_tool_status : BackgroundProgress → String → Status → BackgroundProgress × Bool
record_tool_status b id status = elim (JsMap.get b.tool_agents id) [
  | none ↦ (b, false)
  | some agent_id ↦ elim (JsMap.get b.agents agent_id) [
    | none ↦ (b, false)
    | some agent ↦
        if awaits agent id
        then (
          record b {
            agents = JsMap.put b.agents agent_id (record agent { last_tool_status = some status });
            generation = b.generation + 1;
          },
          true,
        )
        else (b, false)
  ]
]

pub record_success : BackgroundProgress → String → BackgroundProgress × Bool
record_success b id = record_tool_status b id done

pub record_failure : BackgroundProgress → String → BackgroundProgress × Bool
record_failure b id = record_tool_status b id Status.failed

unfoldable pub ended_as : AgentTerminalStatus → Status
ended_as completed = done
ended_as AgentTerminalStatus.failed = Status.failed
ended_as killed = stopped

unfoldable pub end_tool : Status → Option Status → Option Status
end_tool s none = none
end_tool s (some t) = some (if is_running t then s else t)

pub record_agent_terminal :
    BackgroundProgress → String → AgentTerminalStatus → BackgroundProgress × Bool
record_agent_terminal b agent_id terminal = elim (JsMap.get b.agents agent_id) [
  | none ↦ (b, false)
  | some agent ↦
      if is_running agent.status
      then (
        record b {
          agents = JsMap.put b.agents agent_id (record agent {
            status = ended_as terminal;
            last_tool_status = end_tool (ended_as terminal) agent.last_tool_status;
          });
          generation = b.generation + 1;
        },
        true,
      )
      else (b, false)
]

pub record_stop : BackgroundProgress → String → BackgroundProgress × Bool
record_stop b agent_id = record_agent_terminal b agent_id completed

-- The methods that change the state, as events.
pub data AgentEvent : Type 0 where
  task_start task_terminal : String → AgentEvent
  start : String → String → AgentEvent
  tool : String → String → ProgressStep → AgentEvent
  success failure : String → AgentEvent
  terminal : String → AgentTerminalStatus → AgentEvent
  stop : String → AgentEvent

unfoldable pub apply : BackgroundProgress → AgentEvent → BackgroundProgress × Bool
apply b (task_start id) = record_task_start b id
apply b (task_terminal id) = record_task_terminal b id
apply b (start id type) = record_start b id type
apply b (tool agent id step) = record_tool b agent id step
apply b (success id) = record_success b id
apply b (failure id) = record_failure b id
apply b (terminal id how) = record_agent_terminal b id how
apply b (stop id) = record_stop b id

unfoldable pub run : BackgroundProgress → List AgentEvent → BackgroundProgress
run b [] = b
run b (e ∷ es) = run (apply b e).0 es
