-- ===== src/Disclosure/Bubble/Sends.antt =====
-- How often a bubble is sent.
use claude_code_telegram_kit.Prelude.{
  ℕ, ◌+◌, ◌*◌, ◌≤◌, Option, none, some, Bool, true, false, ◌≡◌, refl, inl, inr, List, [], ◌∷◌,
  arith, Bool-cases, sym, ◌∙◌, if◌then◌else◌, is_some, not, ◌&&◌,
}
use claude_code_telegram_kit.Disclosure.Bubble.{
  BubbleState, absent, have, unknown, abandoned, Visible, Request, edit, send, is_final,
  attempt_request, same_text, begin_flush, after_gone, after_edit, after_send, Flow, count_send,
  proceed, FlowEvent, flush, edit_ends, send_ends, drops, begins_agents, begin_agents, edit_ended,
  send_ended, step, run, at_rest,
}

-- the replacement that is left
abbrev spare : Bool → ℕ
spare true = 0
spare false = 1

abbrev left_in : BubbleState → Option ℕ → Bool → Option Request → ℕ
left_in unknown id replaced none = 0
left_in abandoned id replaced none = 0
left_in absent id replaced none = spare replaced + 1
left_in have none replaced none = spare replaced + 1
left_in have (some id) replaced none = spare replaced
left_in state id replaced (some (send text attempt)) = spare replaced
left_in absent id replaced (some (edit i text attempt)) = spare replaced + 1
left_in have none replaced (some (edit i text attempt)) = spare replaced + 1
left_in have (some id) replaced (some (edit i text attempt)) = spare replaced
left_in unknown id replaced (some (edit i text attempt)) = spare replaced
left_in abandoned id replaced (some (edit i text attempt)) = spare replaced

-- the sends that can still come before the turn goes over to its background agents
abbrev pub left : Flow → ℕ
left f = left_in f.bubble.state f.bubble.message_id f.bubble.replacement_used f.flight

-- what is spent of the sends, with those that are left
abbrev pub budget : Flow → ℕ
budget f = f.sends + left f

abbrev pub phases : Bool → ℕ
phases false = 1
phases true = 2

flush-budget : (f : Flow) (v : Visible) (a : Bool) → budget (step f (flush v a)) ≤ budget f
unfolding step proceed begin_flush is_final same_text attempt_request count_send
flush-budget f v a = ground arith

step-budget :
    (f : Flow) (e : FlowEvent) → (step f e).agents ≡ f.agents → budget (step f e) ≤ budget f
unfolding step proceed is_final attempt_request count_send edit_ended send_ended after_edit
    after_gone after_send begin_agents
step-budget f (flush v a) h = flush-budget f v a
step-budget f (edit_ends o) h = ground arith
step-budget f (send_ends o) h = ground arith
step-budget f drops h = ground arith
step-budget f (begins_agents b) h = ground arith

-- No event takes the turn back from its background agents.
step_agents : (f : Flow) (e : FlowEvent) → f.agents ≡ true → (step f e).agents ≡ true
unfolding step proceed edit_ended send_ended begin_agents
step_agents f (flush v a) h = ground arith
step_agents f (edit_ends o) h = ground arith
step_agents f (send_ends o) h = ground arith
step_agents f drops h = h
step_agents f (begins_agents b) h = ground arith

run_agents : (f : Flow) (es : List FlowEvent) → f.agents ≡ true → (run f es).agents ≡ true
unfolding run
run_agents f [] h = h
run_agents f (e ∷ es) h = run_agents (step f e) es (step_agents f e h)

-- If the turn did not go over in the whole run, it did not in the first step, nor in the rest.
pub run_kept :
    (f : Flow) (e : FlowEvent) (es : List FlowEvent)
    → (run (step f e) es).agents ≡ f.agents
    → (step f e).agents ≡ f.agents
run_kept f e es h = elim (Bool-cases f.agents) [
  | inl shown ↦ step_agents f e shown ∙ sym shown
  | inr hidden ↦ elim (Bool-cases (step f e).agents) [
    | inl over ↦ ground (arith, run_agents (step f e) es over)
    | inr still ↦ still ∙ sym hidden
  ]
]

run-budget :
    (f : Flow) (es : List FlowEvent) → (run f es).agents ≡ f.agents → budget (run f es) ≤ budget f
unfolding run
run-budget f [] h = omega arith
run-budget f (e ∷ es) h =
    let first = run_kept f e es h in
    let rest = run-budget (step f e) es (h ∙ sym first) in
    omega (arith, rest, step-budget f e first)

-- what holds of a flow in any phase
abbrev IsCounted : Flow → Type 0
IsCounted f = budget f ≤ 2 * phases f.agents

begin_agents-IsCounted : (f : Flow) (b : Bool) → IsCounted f → IsCounted (begin_agents f b)
unfolding begin_agents
begin_agents-IsCounted f b h = ground arith

counted :
    (f : Flow) (e : FlowEvent) → (step f e).agents ≡ f.agents → IsCounted f → IsCounted (step f e)
counted f e same h = rw same (omega (arith, step-budget f e same, h))

step-IsCounted : (f : Flow) (e : FlowEvent) → IsCounted f → IsCounted (step f e)
unfolding step proceed edit_ended send_ended
step-IsCounted f (begins_agents b) h = begin_agents-IsCounted f b h
step-IsCounted f (flush v a) h = counted f (flush v a) (ground arith) h
step-IsCounted f (edit_ends o) h = counted f (edit_ends o) (ground arith) h
step-IsCounted f (send_ends o) h = counted f (send_ends o) (ground arith) h
step-IsCounted f drops h = counted f drops refl h

run-IsCounted : (f : Flow) (es : List FlowEvent) → IsCounted f → IsCounted (run f es)
unfolding run
run-IsCounted f [] h = h
run-IsCounted f (e ∷ es) h = run-IsCounted (step f e) es (step-IsCounted f e h)

-- From a turn with no bubble, whatever the flushes, the texts, the outcomes of the transport calls,
-- the drops and the starts of background agents, the bubble is sent at most twice, and at most four
-- times if the turn goes over to showing its background agents.
pub sends-run : (es : List FlowEvent) → (run at_rest es).sends ≤ 2 * phases (run at_rest es).agents
sends-run es = omega (arith, run-IsCounted at_rest es (omega arith))

-- After a drop of a turn, in whatever state it is, its bubble is sent at most once more, and not at
-- all if no call was in flight or the replacement was used before, unless the turn goes over to
-- showing its background agents.
pub sends-run_dropped :
    (f : Flow) (es : List FlowEvent)
    → (run (step f drops) es).agents ≡ f.agents
    → (run (step f drops) es).sends
      ≤ f.sends + (if is_some f.flight && not f.bubble.replacement_used then 1 else 0)
unfolding step
sends-run_dropped f es h = ground (arith, run-budget (step f drops) es h)
