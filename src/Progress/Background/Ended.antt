-- ===== src/Progress/Background/Ended.antt =====
-- An agent that has ended keeps its record.
use claude_code_telegram_kit.Prelude.{
  String, some, true, false, not, ◌||◌, ◌≡◌, ◌≢◌, ◌⊎◌, refl, inl, inr, List, [], ◌∷◌, arith, str_eq,
  eq_iff, leb, Bool-cases, Option-cases, length,
}
use claude_code_telegram_kit.Prelude.JsMap
use claude_code_telegram_kit.Prelude.JsMap.{JsMap}
use claude_code_telegram_kit.Progress.Steps.{ProgressStep}
use claude_code_telegram_kit.Progress.Background.{
  max_background_agents, AgentTerminalStatus, completed, Status, running, done, AgentState,
  BackgroundProgress, empty, is_running, record_task_start, record_task_terminal, record_start,
  record_tool_on, record_tool, awaits, record_tool_status, record_success, record_failure, ended_as,
  end_tool, record_agent_terminal, record_stop, AgentEvent, task_start, task_terminal, start, tool,
  success, failure, terminal, stop, apply, run,
}

-- no tool is shown as running under an agent that has ended
abbrev Settled : AgentState → Type 0
Settled a = is_running a.status ≡ false → a.last_tool_status ≢ some running

pub record IsSettled (b : BackgroundProgress) : Type 0 where
  pub settled : (k : String) (a : AgentState) → JsMap.get b.agents k ≡ some a → Settled a

-- Where an operation changes an agent, that agent ran, or its last tool did, or it is new.
data Change (b c : BackgroundProgress) : Type 0 where
  same : c.agents ≡ b.agents → Change b c
  update :
      (j : String) (s : AgentState)
      → c.agents ≡ JsMap.put b.agents j s
      → Settled s
      → ((a : AgentState)
          → JsMap.get b.agents j ≡ some a
          → (is_running a.status ≡ true) ⊎ (a.last_tool_status ≡ some running))
      → Change b c

Change-IsSettled : (b c : BackgroundProgress) → Change b c → IsSettled b → IsSettled c
Change-IsSettled b c (same e) h = record { settled = λ k a g. h.settled k a (rw (← e) g) }
Change-IsSettled b c (update j s e new was) h = record {
  settled = λ k a g. elim (Bool-cases (str_eq j k)) [
    | inl hit ↦ λ ended runs.
        new (ground (arith, JsMap.get-put b.agents j k s))
          (ground (arith, JsMap.get-put b.agents j k s))
    | inr other ↦ h.settled k a (ground (arith, JsMap.get-put b.agents j k s))
  ];
}

Change-ended :
    (b c : BackgroundProgress) (k : String) (a : AgentState)
    → Change b c
    → IsSettled b
    → JsMap.get b.agents k ≡ some a
    → is_running a.status ≡ false
    → JsMap.get c.agents k ≡ some a
Change-ended b c k a (same e) h g ended = rw e g
Change-ended b c k a (update j s e new was) h g ended = elim (Bool-cases (str_eq j k)) [
  | inl hit ↦ elim (was a (rw ((eq_iff j k).0 hit) g)) [
    | inl runs ↦ cc
    | inr shows ↦ absurd (h.settled k a g ended shows)
  ]
  | inr other ↦ ground (arith, JsMap.get-put b.agents j k s)
]

record_start-Change : (b : BackgroundProgress) (k t : String) → Change b (record_start b k t).0
unfolding record_start is_running
record_start-Change b k t =
    elim (Bool-cases (JsMap.has b.agents k || leb max_background_agents (length b.agents))) [
      | inl refused ↦ rw refused (same refl)
      | inr taken ↦ rw taken (update k _ refl (λ e x. (ground arith)) (λ a g. (ground arith)))
    ]

record_tool-Change :
    (b : BackgroundProgress) (k id : String) (step : ProgressStep)
    → Change b (record_tool b k id step).0
unfolding record_tool record_tool_on is_running
record_tool-Change b k id step = elim (Option-cases (JsMap.get b.agents k)) [
  | inl missing ↦ rw (missing, record_tool) (same refl)
  | inr (agent, found) ↦
      rw (found, record_tool)
        (elim (Bool-cases (not (is_running agent.status) || JsMap.has b.tool_agents id)) [
          | inl refused ↦ rw refused (same refl)
          | inr taken ↦ rw taken (update k _ refl (λ e x. (ground arith)) (λ a g. (ground arith)))
        ])
]

record_tool_status-Change :
    (b : BackgroundProgress) (id : String) (s : Status)
    → s ≢ running
    → Change b (record_tool_status b id s).0
unfolding record_tool_status awaits is_running
record_tool_status-Change b id s n = elim (Option-cases (JsMap.get b.tool_agents id)) [
  | inl missing ↦ rw (missing, record_tool_status) (same refl)
  | inr (k, followed) ↦ elim (Option-cases (JsMap.get b.agents k)) [
    | inl missing ↦ rw (followed, missing, record_tool_status) (same refl)
    | inr (agent, found) ↦
        rw (followed, found, record_tool_status)
          (elim (Bool-cases (awaits agent id)) [
            | inl waits ↦
                rw waits (update k _ refl (λ e x. n (ground arith)) (λ a g. inr (ground arith)))
            | inr settled ↦ rw settled (same refl)
          ])
  ]
]

record_agent_terminal-Change :
    (b : BackgroundProgress) (k : String) (t : AgentTerminalStatus)
    → Change b (record_agent_terminal b k t).0
unfolding record_agent_terminal is_running ended_as end_tool
record_agent_terminal-Change b k t = elim (Option-cases (JsMap.get b.agents k)) [
  | inl missing ↦ rw (missing, record_agent_terminal) (same refl)
  | inr (agent, found) ↦
      rw (found, record_agent_terminal)
        (elim (Bool-cases (is_running agent.status)) [
          | inl runs ↦ rw runs (update k _ refl (λ e x. (ground arith)) (λ a g. inl (ground arith)))
          | inr ended ↦ rw ended (same refl)
        ])
]

apply-Change : (b : BackgroundProgress) (e : AgentEvent) → Change b (apply b e).0
unfolding apply record_task_start record_task_terminal record_success record_failure record_stop
apply-Change b (task_start id) = same (ground arith)
apply-Change b (task_terminal id) = same (ground arith)
apply-Change b (start k t) = record_start-Change b k t
apply-Change b (tool k id step) = record_tool-Change b k id step
apply-Change b (success id) = record_tool_status-Change b id done (ground arith)
apply-Change b (failure id) = record_tool_status-Change b id Status.failed (ground arith)
apply-Change b (terminal k t) = record_agent_terminal-Change b k t
apply-Change b (stop k) = record_agent_terminal-Change b k completed

-- From a state in which no ended agent shows a running tool, whatever the events: an agent that
-- has ended keeps its record as it is, so later tools, statuses and stops do not touch it.
pub run-ended :
    (b : BackgroundProgress) (es : List AgentEvent) (k : String) (a : AgentState)
    → IsSettled b
    → JsMap.get b.agents k ≡ some a
    → is_running a.status ≡ false
    → JsMap.get (run b es).agents k ≡ some a
unfolding run
run-ended b [] k a h g ended = g
run-ended b (e ∷ es) k a h g ended =
    let c = (apply b e).0 in
    run-ended c es k a (Change-IsSettled b c (apply-Change b e) h)
      (Change-ended b c k a (apply-Change b e) h g ended) ended

run-IsSettled : (b : BackgroundProgress) (es : List AgentEvent) → IsSettled b → IsSettled (run b es)
unfolding run
run-IsSettled b [] h = h
run-IsSettled b (e ∷ es) h =
    run-IsSettled (apply b e).0 es (Change-IsSettled b (apply b e).0 (apply-Change b e) h)

-- Whatever the events since the turn began, an agent that has ended shows no running tool.
pub run-empty-IsSettled : (es : List AgentEvent) → IsSettled (run empty es)
unfolding JsMap.get
run-empty-IsSettled es = run-IsSettled empty es (record { settled = λ k a g. cc })
