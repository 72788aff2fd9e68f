-- ===== src/Progress/Turn/Lifecycle.antt =====
-- The life of a turn's steps.
use claude_code_telegram_kit.Prelude.{
  ◌+◌, ◌≤◌, String, some, true, false, ◌||◌, ◌≡◌, refl, ap, ◌∙◌, inl, inr, List, [], ◌∷◌, ◌++◌, map,
  append-nil, append_assoc, arith, Bool-cases, Option-cases, length, length-map,
}
use claude_code_telegram_kit.Prelude.JsMap
use claude_code_telegram_kit.Prelude.JsMap.{JsMap}
use claude_code_telegram_kit.Prelude.JsSet
use claude_code_telegram_kit.Prelude.JsSet.{IsDistinct}
use claude_code_telegram_kit.Progress.Steps.{ProgressStep, same_step}
use claude_code_telegram_kit.Progress.Turn.{
  TurnProgress, StepLine, StepStatus, running, done, failed, TurnOutcome, closed, record_tool,
  record_on, record_status, record_success, record_failure, close, set_status, end_statuses,
  end_line, terminal_status, TurnEvent, tool, success, failure, close_with, apply, run, start,
  TurnKey,
}

-- All tools on the lines, in the order in which they stand there.
unfoldable pub tools_of : List StepLine → List String
tools_of [] = []
tools_of (l ∷ ls) = JsMap.keys l.tool_statuses ++ tools_of ls

tools_of-record_on :
    (ls : List StepLine) (id : String) (step : ProgressStep)
    → JsSet.has (tools_of ls) id ≡ false
    → tools_of (record_on ls id step) ≡ tools_of ls ++ id ∷ []
unfolding tools_of record_on JsMap.keys
tools_of-record_on [] id step h = refl
tools_of-record_on (l ∷ []) id step h = elim (Bool-cases (same_step l.step step)) [
  | inl same ↦
      rw (same, append-nil, append-nil)
        (JsMap.keys-put_of_absent l.tool_statuses id running (
          ground (
            arith,
            JsMap.has-keys l.tool_statuses id,
            JsSet.has-append (JsMap.keys l.tool_statuses) [] id,
          )))
  | inr other ↦ rw other (simp append_assoc)
]
tools_of-record_on (l ∷ m ∷ ls) id step h = rw (
  append_assoc,
  tools_of-record_on (m ∷ ls) id step
      (ground (arith, JsSet.has-append (JsMap.keys l.tool_statuses) (tools_of (m ∷ ls)) id)),
)

tools_of-set_status :
    (ls : List StepLine) (id : String) (status : StepStatus) {ls' : List StepLine}
    → set_status ls id status ≡ some ls'
    → tools_of ls' ≡ tools_of ls
unfolding tools_of set_status
tools_of-set_status [] id status h = cc
tools_of-set_status (l ∷ ls) id status h = elim (Option-cases (set_status ls id status)) [
  | inl missing ↦ ground (arith, JsMap.keys-put_of_has l.tool_statuses id status)
  | inr (rest, found) ↦ ground (
    arith,
    JsMap.keys-put_of_has l.tool_statuses id status,
    tools_of-set_status ls id status {ls' = rest} found,
  )
]

keys-end_statuses :
    (t : StepStatus) (m : JsMap StepStatus) → JsMap.keys (end_statuses t m) ≡ JsMap.keys m
unfolding end_statuses JsMap.keys
keys-end_statuses t [] = refl
keys-end_statuses t ((k, s) ∷ m) = rw (keys-end_statuses t m)

tools_of-end_line :
    (t : StepStatus) (ls : List StepLine) → tools_of (map (end_line t) ls) ≡ tools_of ls
unfolding tools_of end_line
tools_of-end_line t [] = refl
tools_of-end_line t (l ∷ ls) = rw (keys-end_statuses t l.tool_statuses, tools_of-end_line t ls)

-- An operation that returns true advances the generation by one; one that returns false changes nothing.
pub apply_generation :
    (p : TurnProgress) (e : TurnEvent)
    → ((apply p e).1 ≡ true → (apply p e).0.generation ≡ p.generation + 1)
      × ((apply p e).1 ≡ false → (apply p e).0 ≡ p)
unfolding apply record_tool record_success record_failure close
apply_generation p (tool id step) = ground arith
apply_generation p (success id) = ground arith
apply_generation p (failure id) = ground arith
apply_generation p (close_with o) = ground arith

-- After the turn is closed nothing changes any more.
pub run_of_closed : (p : TurnProgress) (es : List TurnEvent) → closed p ≡ true → run p es ≡ p
unfolding run record_tool record_success record_failure close
run_of_closed p [] h = refl
run_of_closed p (tool id step ∷ es) h = rw h (run_of_closed p es h)
run_of_closed p (success id ∷ es) h = rw h (run_of_closed p es h)
run_of_closed p (failure id ∷ es) h = rw h (run_of_closed p es h)
run_of_closed p (close_with o ∷ es) h = rw h (run_of_closed p es h)

-- The lines hold exactly the tools that were seen, in that order, and none twice.
pub record IsConsistent (p : TurnProgress) : Type 0 where
  pub tools : tools_of p.lines ≡ p.seen
  pub distinct : IsDistinct p.seen

record_tool-IsConsistent :
    (p : TurnProgress) (id : String) (step : ProgressStep)
    → IsConsistent p
    → IsConsistent (record_tool p id step).0
unfolding record_tool JsSet.add
record_tool-IsConsistent p id step h = elim (Bool-cases (closed p || JsSet.has p.seen id)) [
  | inl refused ↦ rw refused h
  | inr taken ↦
      let unseen : JsSet.has p.seen id ≡ false = ground arith in
      let fresh : JsSet.has (tools_of p.lines) id ≡ false = rw h.tools unseen in
      rw (taken, unseen)
        (record {
          tools = tools_of-record_on p.lines id step fresh ∙ ap (λ s. s ++ id ∷ []) h.tools;
          distinct = JsSet.IsDistinct-snoc p.seen id h.distinct unseen;
        })
]

record_status-IsConsistent :
    (p : TurnProgress) (id : String) (status : StepStatus)
    → IsConsistent p
    → IsConsistent (record_status p id status).0
unfolding record_status
record_status-IsConsistent p id status h = elim (Bool-cases (closed p)) [
  | inl refused ↦ rw refused h
  | inr taken ↦ elim (Option-cases (set_status p.lines id status)) [
    | inl missing ↦ rw (taken, missing) h
    | inr (ls, found) ↦
        rw (taken, found)
          (record {
            tools = tools_of-set_status p.lines id status found ∙ h.tools;
            distinct = h.distinct;
          })
  ]
]

close-IsConsistent :
    (p : TurnProgress) (o : TurnOutcome) → IsConsistent p → IsConsistent (close p o).0
unfolding close
close-IsConsistent p o h = elim (Bool-cases (closed p)) [
  | inl refused ↦ rw refused h
  | inr taken ↦ rw taken (record {
    tools = tools_of-end_line (terminal_status o) p.lines ∙ h.tools;
    distinct = h.distinct;
  })
]

pub apply-IsConsistent :
    (p : TurnProgress) (e : TurnEvent) → IsConsistent p → IsConsistent (apply p e).0
unfolding apply record_success record_failure
apply-IsConsistent p (tool id step) h = record_tool-IsConsistent p id step h
apply-IsConsistent p (success id) h = record_status-IsConsistent p id done h
apply-IsConsistent p (failure id) h = record_status-IsConsistent p id failed h
apply-IsConsistent p (close_with o) h = close-IsConsistent p o h

run-IsConsistent :
    (p : TurnProgress) (es : List TurnEvent) → IsConsistent p → IsConsistent (run p es)
unfolding run
run-IsConsistent p [] h = h
run-IsConsistent p (e ∷ es) h = run-IsConsistent (apply p e).0 es (apply-IsConsistent p e h)

-- Whatever the events since the turn began, its lines together hold each recorded tool exactly
-- once, in the order in which the tools were recorded.
pub run-start-IsConsistent :
    (key : TurnKey) (es : List TurnEvent) → IsConsistent (run (start key) es)
unfolding start tools_of
run-start-IsConsistent key es =
    run-IsConsistent (start key) es (record { tools = refl; distinct = tt })

length-record_on :
    (ls : List StepLine) (id : String) (step : ProgressStep)
    → length (record_on ls id step) ≤ length ls + 1
unfolding record_on
length-record_on [] id step = omega arith
length-record_on (l ∷ []) id step = ground arith
length-record_on (l ∷ m ∷ ls) id step = omega (arith, length-record_on (m ∷ ls) id step)

pub length-set_status :
    (ls : List StepLine) (id : String) (status : StepStatus) {ls' : List StepLine}
    → set_status ls id status ≡ some ls'
    → length ls' ≡ length ls
unfolding set_status
length-set_status [] id status h = cc
length-set_status (l ∷ ls) id status h = elim (Option-cases (set_status ls id status)) [
  | inl missing ↦ ground arith
  | inr (rest, found) ↦ ground (arith, length-set_status ls id status {ls' = rest} found)
]

length-record_status :
    (p : TurnProgress) (id : String) (status : StepStatus)
    → length (record_status p id status).0.lines ≡ length p.lines
unfolding record_status
length-record_status p id status = elim (Option-cases (set_status p.lines id status)) [
  | inl missing ↦ ground arith
  | inr (ls, found) ↦ ground (arith, length-set_status p.lines id status {ls' = ls} found)
]

length-apply : (p : TurnProgress) (e : TurnEvent) → length (apply p e).0.lines ≤ length p.lines + 1
unfolding apply record_tool record_success record_failure close
length-apply p (tool id step) = ground (arith, length-record_on p.lines id step)
length-apply p (success id) = omega (arith, length-record_status p id done)
length-apply p (failure id) = omega (arith, length-record_status p id failed)
length-apply p (close_with o) = ground (arith, length-map (end_line (terminal_status o)) p.lines)

pub length-run :
    (p : TurnProgress) (es : List TurnEvent) → length (run p es).lines ≤ length p.lines + length es
unfolding run
length-run p [] = omega arith
length-run p (e ∷ es) = omega (arith, length-apply p e, length-run (apply p e).0 es)

verbs-apply : (p : TurnProgress) (e : TurnEvent) → (apply p e).0.verbs ≡ p.verbs
unfolding apply record_tool record_success record_failure record_status close
verbs-apply p (tool id step) = ground arith
verbs-apply p (success id) = ground arith
verbs-apply p (failure id) = ground arith
verbs-apply p (close_with o) = ground arith

pub verbs-run : (p : TurnProgress) (es : List TurnEvent) → (run p es).verbs ≡ p.verbs
unfolding run
verbs-run p [] = refl
verbs-run p (e ∷ es) = verbs-run (apply p e).0 es ∙ verbs-apply p e
