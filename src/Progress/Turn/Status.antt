-- ===== src/Progress/Turn/Status.antt =====
-- How the status of one tool moves.
use mathlib.Core.Option
use claude_code_telegram_kit.Prelude.{
  String, Option, none, some, false, ◌||◌, ◌≡◌, ◌≢◌, refl, inl, inr, List, [], ◌∷◌, map, arith,
  str_eq, eq_iff, if◌then◌else◌, Bool-cases, Option-cases,
}
use claude_code_telegram_kit.Prelude.JsMap
use claude_code_telegram_kit.Prelude.JsMap.{JsMap}
use claude_code_telegram_kit.Prelude.JsSet
use claude_code_telegram_kit.Progress.Steps.{ProgressStep}
use claude_code_telegram_kit.Progress.Turn.{
  TurnProgress, StepLine, StepStatus, running, done, failed, TurnOutcome, stop, stop_failure,
  closed, record_tool, record_on, record_status, record_success, record_failure, close, set_status,
  end_statuses, end_line, terminal_status, TurnEvent, tool, success, failure, close_with, apply,
  run,
}
use claude_code_telegram_kit.Progress.Turn.Lifecycle.{tools_of, IsConsistent, apply-IsConsistent}

-- The status of a tool, read from the first line that knows it.
unfoldable pub status_of : List StepLine → String → Option StepStatus
status_of [] id = none
status_of (l ∷ ls) id = elim (JsMap.get l.tool_statuses id) [
  | none ↦ status_of ls id
  | some s ↦ some s
]

-- The edges that a status may take.
pub data Moves : Option StepStatus → Option StepStatus → Type 0 where
  stays : {s : Option StepStatus} → Moves s s
  begins : Moves none (some running)
  succeeds : Moves (some running) (some done)
  fails : Moves (some running) (some failed)

status_of_absent :
    (ls : List StepLine) (id : String) → JsSet.has (tools_of ls) id ≡ false → status_of ls id ≡ none
unfolding status_of tools_of
status_of_absent [] id h = refl
status_of_absent (l ∷ ls) id h = ground (
  arith,
  JsSet.has-append (JsMap.keys l.tool_statuses) (tools_of ls) id,
  JsMap.has-keys l.tool_statuses id,
  status_of_absent ls id,
)

status_of-record_on :
    (ls : List StepLine) (id : String) (step : ProgressStep) (j : String)
    → status_of ls id ≡ none
    → status_of (record_on ls id step) j ≡ (if str_eq id j then some running else status_of ls j)
unfolding status_of record_on JsMap.get
status_of-record_on [] id step j h = ground arith
status_of-record_on (l ∷ []) id step j h =
    ground (arith, JsMap.get-put l.tool_statuses id j running, eq_iff id j)
status_of-record_on (l ∷ m ∷ ls) id step j h =
    ground (arith, status_of-record_on (m ∷ ls) id step j, eq_iff id j)

status_of-set_status :
    (ls : List StepLine) (id : String) (status : StepStatus) (j : String) {ls' : List StepLine}
    → set_status ls id status ≡ some ls'
    → (status_of ls id ≡ some running)
      × (status_of ls' j ≡ (if str_eq id j then some status else status_of ls j))
unfolding status_of set_status
status_of-set_status [] id status j h = cc
status_of-set_status (l ∷ ls) id status j h = elim (Option-cases (set_status ls id status)) [
  | inl missing ↦ ground (arith, JsMap.get-put l.tool_statuses id j status, eq_iff id j)
  | inr (rest, found) ↦ ground (
    arith,
    JsMap.get-put l.tool_statuses id j status,
    eq_iff id j,
    status_of-set_status ls id status j {ls' = rest} found,
  )
]

-- what closing does to one status
abbrev pub ended : StepStatus → StepStatus → StepStatus
ended terminal running = terminal
ended terminal done = done
ended terminal failed = failed

get-end_statuses :
    (t : StepStatus) (m : JsMap StepStatus) (id : String)
    → JsMap.get (end_statuses t m) id ≡ Option.map (ended t) (JsMap.get m id)
unfolding JsMap.get end_statuses
get-end_statuses t [] id = refl
get-end_statuses t ((k, s) ∷ m) id = ground (arith, get-end_statuses t m id)

status_of-end_line :
    (t : StepStatus) (ls : List StepLine) (id : String)
    → status_of (map (end_line t) ls) id ≡ Option.map (ended t) (status_of ls id)
unfolding status_of end_line
status_of-end_line t [] id = refl
status_of-end_line t (l ∷ ls) id =
    ground (arith, get-end_statuses t l.tool_statuses id, status_of-end_line t ls id)

Moves-map :
    (t : StepStatus) (s : Option StepStatus) → t ≢ running → Moves s (Option.map (ended t) s)
Moves-map t none h = stays
Moves-map running (some running) h = stays
Moves-map done (some running) h = succeeds
Moves-map failed (some running) h = fails
Moves-map t (some done) h = stays
Moves-map t (some failed) h = stays

Moves-record_status :
    (p : TurnProgress) (id : String) (status : StepStatus) (j : String)
    → Moves (some running) (some status)
    → Moves (status_of p.lines j) (status_of (record_status p id status).0.lines j)
unfolding record_status
Moves-record_status p id status j m = elim (Bool-cases (closed p)) [
  | inl refused ↦ rw refused stays
  | inr taken ↦ elim (Option-cases (set_status p.lines id status)) [
    | inl missing ↦ rw (taken, missing) stays
    | inr (ls, found) ↦
        let (was, now) = status_of-set_status p.lines id status j found in
        rw (taken, found, now)
          (elim (Bool-cases (str_eq id j)) [
            | inl same ↦ rw (same, ← (eq_iff id j).0 same, was) m
            | inr other ↦ rw other stays
          ])
  ]
]

Moves-record_tool :
    (p : TurnProgress) (id : String) (step : ProgressStep) (j : String)
    → IsConsistent p
    → Moves (status_of p.lines j) (status_of (record_tool p id step).0.lines j)
unfolding record_tool
Moves-record_tool p id step j h = elim (Bool-cases (closed p || JsSet.has p.seen id)) [
  | inl refused ↦ rw refused stays
  | inr taken ↦
      let unseen : JsSet.has (tools_of p.lines) id ≡ false = rw h.tools (ground arith) in
      let absent = status_of_absent p.lines id unseen in
      rw (taken, status_of-record_on p.lines id step j absent)
        (elim (Bool-cases (str_eq id j)) [
          | inl same ↦ rw (same, ← (eq_iff id j).0 same, absent) begins
          | inr other ↦ rw other stays
        ])
]

Moves-close :
    (p : TurnProgress) (o : TurnOutcome) (j : String)
    → Moves (status_of p.lines j) (status_of (close p o).0.lines j)
unfolding close terminal_status
Moves-close p o j = elim (Bool-cases (closed p)) [
  | inl refused ↦ rw refused stays
  | inr taken ↦
      rw (taken, status_of-end_line (terminal_status o) p.lines j)
        (Moves-map (terminal_status o) (status_of p.lines j) (ground arith))
]

-- In a state reached by events, an event moves the status of each tool along one edge at most:
-- a tool appears as running, and a running tool becomes done or failed.
pub Moves-apply :
    (p : TurnProgress) (e : TurnEvent) (j : String)
    → IsConsistent p
    → Moves (status_of p.lines j) (status_of (apply p e).0.lines j)
unfolding apply record_success record_failure
Moves-apply p (tool id step) j h = Moves-record_tool p id step j h
Moves-apply p (success id) j h = Moves-record_status p id done j succeeds
Moves-apply p (failure id) j h = Moves-record_status p id failed j fails
Moves-apply p (close_with o) j h = Moves-close p o j

Moves-terminal :
    {s t : Option StepStatus} (f : StepStatus) → Moves s t → f ≢ running → s ≡ some f → t ≡ some f
Moves-terminal f stays n e = e
Moves-terminal f begins n e = cc
Moves-terminal f succeeds n e = absurd (n (ground arith))
Moves-terminal f fails n e = absurd (n (ground arith))

-- Whatever the later events, a tool that is done or failed keeps that status.
pub status_of-run_terminal :
    (p : TurnProgress) (es : List TurnEvent) (j : String) (f : StepStatus)
    → IsConsistent p
    → f ≢ running
    → status_of p.lines j ≡ some f
    → status_of (run p es).lines j ≡ some f
unfolding run
status_of-run_terminal p [] j f h n e = e
status_of-run_terminal p (ev ∷ es) j f h n e =
    status_of-run_terminal (apply p ev).0 es j f (apply-IsConsistent p ev h) n
      (Moves-terminal f (Moves-apply p ev j h) n e)

-- Closing an open turn ends each tool that still runs, as done after a Stop and as failed after a
-- StopFailure, and leaves every other tool's status as it is.
pub status_of-close :
    (p : TurnProgress) (o : TurnOutcome) (j : String)
    → closed p ≡ false
    → status_of (close p o).0.lines j
      ≡ Option.map (ended (elim o [ stop ↦ done | stop_failure ↦ failed ])) (status_of p.lines j)
unfolding close terminal_status
status_of-close p stop j h = rw h (status_of-end_line done p.lines j)
status_of-close p stop_failure j h = rw h (status_of-end_line failed p.lines j)
