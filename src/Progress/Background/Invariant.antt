-- ===== src/Progress/Background/Invariant.antt =====
-- The bounds on the state of the subagents, and what ties its maps together.
use claude_code_telegram_kit.Prelude.{
  ℕ, zero, suc, ◌+◌, ◌≤◌, ◌<◌, String, none, some, true, not, ◌||◌, ◌≡◌, refl, inl, inr, List, [],
  ◌∷◌, arith, eq_iff, leb, Bool-cases, Option-cases, length, length-append,
}
use claude_code_telegram_kit.Prelude.JsMap
use claude_code_telegram_kit.Prelude.JsMap.{JsMap}
use claude_code_telegram_kit.Prelude.JsSet
use claude_code_telegram_kit.Progress.Steps.{ProgressStep}
use claude_code_telegram_kit.Progress.Background.{
  max_background_agents, max_background_tool_ids, max_background_task_ids, AgentTerminalStatus,
  completed, Status, running, done, AgentState, BackgroundProgress, empty, is_running,
  record_task_start, record_task_terminal, record_start, drop_oldest, make_room, record_tool_on,
  record_tool, awaits, record_tool_status, record_success, record_failure, ended_as, end_tool,
  record_agent_terminal, record_stop, AgentEvent, task_start, task_terminal, start, tool, success,
  failure, terminal, stop, apply, run,
}

-- The loop that makes room ends below the limit.
length-drop_oldest :
    (fuel : ℕ) (m : JsMap String) → length m ≤ fuel → length (drop_oldest fuel m) < 256
unfolding drop_oldest
length-drop_oldest zero [] h = omega arith
length-drop_oldest zero (x ∷ m) h = absurd (omega arith)
length-drop_oldest (suc fuel) [] h = omega arith
length-drop_oldest (suc fuel) ((k, v) ∷ m) h =
    ground
      (arith, JsMap.length-delete_head k v m, length-drop_oldest fuel (JsMap.delete ((k, v) ∷ m) k))

get-drop_oldest :
    (fuel : ℕ) (m : JsMap String) (id : String) {a : String}
    → JsMap.get (drop_oldest fuel m) id ≡ some a
    → JsMap.get m id ≡ some a
unfolding drop_oldest
get-drop_oldest zero m id h = h
get-drop_oldest (suc fuel) [] id h = h
get-drop_oldest (suc fuel) ((k, v) ∷ m) id {a} h = ground (
  arith,
  get-drop_oldest fuel (JsMap.delete ((k, v) ∷ m) k) id {a = a},
  JsMap.get-delete ((k, v) ∷ m) k id,
)

-- The counts stay within their limits, and each tool that is followed belongs to a known agent.
pub record IsBounded (b : BackgroundProgress) : Type 0 where
  pub agents_bound : length b.agents ≤ max_background_agents
  pub tools_bound : length b.tool_agents ≤ max_background_tool_ids
  pub tasks_bound : length b.pending_tasks ≤ max_background_task_ids
  pub known : (id a : String) → JsMap.get b.tool_agents id ≡ some a → JsMap.has b.agents a ≡ true

empty-IsBounded : IsBounded empty
unfolding JsMap.get
empty-IsBounded = record {
  agents_bound = omega arith;
  tools_bound = omega arith;
  tasks_bound = omega arith;
  known = λ id a h. cc;
}

length-add : (s : List String) (x : String) → length (JsSet.add s x) ≤ length s + 1
unfolding JsSet.add
length-add s x = ground (arith, length-append s (x ∷ []))

-- an update of a known agent keeps the bounds
update-IsBounded :
    (b : BackgroundProgress) (k : String) (s : AgentState) (n : ℕ)
    → JsMap.has b.agents k ≡ true
    → IsBounded b
    → IsBounded (record b { agents = JsMap.put b.agents k s; generation = n })
update-IsBounded b k s n there h = record {
  agents_bound = ground (arith, JsMap.length-put b.agents k s);
  tools_bound = h.tools_bound;
  tasks_bound = h.tasks_bound;
  known = λ id a e. ground (arith, h.known id a, JsMap.get-put b.agents k a s);
}

record_start-IsBounded :
    (b : BackgroundProgress) (k t : String) → IsBounded b → IsBounded (record_start b k t).0
unfolding record_start
record_start-IsBounded b k t h =
    elim (Bool-cases (JsMap.has b.agents k || leb max_background_agents (length b.agents))) [
      | inl refused ↦ rw refused h
      | inr taken ↦
          let s : AgentState = record {
            type = t;
            status = running;
            last_tool_id = none;
            last_step = none;
            last_tool_status = none;
          } in
          rw taken (record {
            agents_bound = ground (arith, JsMap.length-put b.agents k s);
            tools_bound = h.tools_bound;
            tasks_bound = h.tasks_bound;
            known = λ id a e. ground (arith, h.known id a, JsMap.get-put b.agents k a s);
          })
    ]

record_tool_on-IsBounded :
    (b : BackgroundProgress) (k id : String) (step : ProgressStep) (agent : AgentState)
    → JsMap.get b.agents k ≡ some agent
    → IsBounded b
    → IsBounded (record_tool_on b k id step agent).0
unfolding record_tool_on make_room
record_tool_on-IsBounded b k id step agent there h =
    elim (Bool-cases (not (is_running agent.status) || JsMap.has b.tool_agents id)) [
      | inl refused ↦ rw refused h
      | inr taken ↦
          let room = drop_oldest (length b.tool_agents) b.tool_agents in
          let s : AgentState = record agent {
            last_tool_id = some id;
            last_step = some step;
            last_tool_status = some running;
          } in
          rw taken (record {
            agents_bound = ground (arith, h.agents_bound, JsMap.length-put b.agents k s);
            tools_bound = ground (
              arith,
              JsMap.length-put room id k,
              length-drop_oldest (length b.tool_agents) b.tool_agents (omega arith),
            );
            tasks_bound = h.tasks_bound;
            known = λ j a e. ground (
              arith,
              JsMap.get-put room id j k,
              get-drop_oldest (length b.tool_agents) b.tool_agents j {a = a},
              h.known j a,
              JsMap.get-put b.agents k a s,
              eq_iff k a,
            );
          })
    ]

record_tool-IsBounded :
    (b : BackgroundProgress) (k id : String) (step : ProgressStep)
    → IsBounded b
    → IsBounded (record_tool b k id step).0
unfolding record_tool
record_tool-IsBounded b k id step h = elim (Option-cases (JsMap.get b.agents k)) [
  | inl missing ↦ rw (missing, record_tool) h
  | inr (agent, found) ↦
      rw (found, record_tool) (record_tool_on-IsBounded b k id step agent found h)
]

record_tool_status-IsBounded :
    (b : BackgroundProgress) (id : String) (s : Status)
    → IsBounded b
    → IsBounded (record_tool_status b id s).0
unfolding record_tool_status
record_tool_status-IsBounded b id s h = elim (Option-cases (JsMap.get b.tool_agents id)) [
  | inl missing ↦ rw (missing, record_tool_status) h
  | inr (k, followed) ↦ elim (Option-cases (JsMap.get b.agents k)) [
    | inl missing ↦ rw (followed, missing, record_tool_status) h
    | inr (agent, found) ↦
        rw (followed, found, record_tool_status)
          (elim (Bool-cases (awaits agent id)) [
            | inl waits ↦ rw waits (
                update-IsBounded b k (record agent { last_tool_status = some s }) (b.generation + 1)
                  (rw found refl) h)
            | inr settled ↦ rw settled h
          ])
  ]
]

record_agent_terminal-IsBounded :
    (b : BackgroundProgress) (k : String) (t : AgentTerminalStatus)
    → IsBounded b
    → IsBounded (record_agent_terminal b k t).0
unfolding record_agent_terminal
record_agent_terminal-IsBounded b k t h = elim (Option-cases (JsMap.get b.agents k)) [
  | inl missing ↦ rw (missing, record_agent_terminal) h
  | inr (agent, found) ↦
      rw (found, record_agent_terminal)
        (elim (Bool-cases (is_running agent.status)) [
          | inl runs ↦ rw runs (
              update-IsBounded b k
                (record agent {
                  status = ended_as t;
                  last_tool_status = end_tool (ended_as t) agent.last_tool_status;
                })
                (b.generation + 1) (rw found refl) h)
          | inr ended ↦ rw ended h
        ])
]

apply-IsBounded : (b : BackgroundProgress) (e : AgentEvent) → IsBounded b → IsBounded (apply b e).0
unfolding apply record_task_start record_task_terminal record_success record_failure record_stop
apply-IsBounded b (task_start id) h =
    ground (arith, length-add b.pending_tasks id, h.known, h.agents_bound)
apply-IsBounded b (task_terminal id) h =
    ground (arith, JsSet.length-delete b.pending_tasks id, h.known)
apply-IsBounded b (start k t) h = record_start-IsBounded b k t h
apply-IsBounded b (tool k id step) h = record_tool-IsBounded b k id step h
apply-IsBounded b (success id) h = record_tool_status-IsBounded b id done h
apply-IsBounded b (failure id) h = record_tool_status-IsBounded b id Status.failed h
apply-IsBounded b (terminal k t) h = record_agent_terminal-IsBounded b k t h
apply-IsBounded b (stop k) h = record_agent_terminal-IsBounded b k completed h

run-IsBounded : (b : BackgroundProgress) (es : List AgentEvent) → IsBounded b → IsBounded (run b es)
unfolding run
run-IsBounded b [] h = h
run-IsBounded b (e ∷ es) h = run-IsBounded (apply b e).0 es (apply-IsBounded b e h)

-- Whatever the events since the turn began, at most 16 agents, 256 followed tools and 16 pending
-- tasks are held, and each followed tool belongs to an agent that is held.
pub run-empty-IsBounded : (es : List AgentEvent) → IsBounded (run empty es)
run-empty-IsBounded es = run-IsBounded empty es empty-IsBounded
