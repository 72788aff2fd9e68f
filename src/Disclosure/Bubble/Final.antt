-- ===== src/Disclosure/Bubble/Final.antt =====
-- What a send of the bubble that is not known to have worked leads to.
use claude_code_telegram_kit.Prelude.{
  ℕ, String, none, some, true, ◌≡◌, refl, List, [], ◌∷◌, arith, ◌∙◌, sym, Bool, ◌⊎◌, inl, inr,
}
use mathlib.Core.Path.{subst}
use claude_code_telegram_kit.Disclosure.Bubble.{
  ProgressSendOutcome, uncertain, rejected, send, is_final, begin_flush, after_send, Flow,
  count_send, proceed, FlowEvent, flush, edit_ends, send_ends, drops, begins_agents, begin_agents,
  edit_ended, send_ended, step, run,
}
use claude_code_telegram_kit.Disclosure.Bubble.Sends.{run_kept}

-- no call is in flight, and none will be made
pub record IsOver (f : Flow) : Type 0 where
  pub final : is_final f.bubble.state ≡ true
  pub quiet : f.flight ≡ none

-- what stays as it is where the bubble is over
pub record IsStill (f g : Flow) : Type 0 where
  pub over : IsOver g
  pub sends : g.sends ≡ f.sends

unchanged-IsStill : (f g : Flow) → g ≡ f → IsOver f → IsStill f g
unchanged-IsStill f g e h = subst (IsStill f) (sym e) (record { over = h; sends = refl })

begins_agents_same :
    (f : Flow) (b : Bool) → (begin_agents f b).agents ≡ f.agents → begin_agents f b ≡ f
unfolding begin_agents
begins_agents_same f b s = ground arith

step-IsStill :
    (f : Flow) (e : FlowEvent) → (step f e).agents ≡ f.agents → IsOver f → IsStill f (step f e)
unfolding step proceed begin_flush count_send edit_ended send_ended is_final
step-IsStill f (flush v a) s h =
    unchanged-IsStill f (step f (flush v a)) (ground (arith, h.final, h.quiet)) h
step-IsStill f (edit_ends o) s h =
    unchanged-IsStill f (step f (edit_ends o)) (ground (arith, h.quiet)) h
step-IsStill f (send_ends o) s h =
    unchanged-IsStill f (step f (send_ends o)) (ground (arith, h.quiet)) h
step-IsStill f drops s h = record { over = record { final = refl; quiet = h.quiet }; sends = refl }
step-IsStill f (begins_agents b) s h =
    unchanged-IsStill f (step f (begins_agents b)) (begins_agents_same f b s) h

run-IsStill :
    (f : Flow) (es : List FlowEvent)
    → (run f es).agents ≡ f.agents
    → IsOver f
    → IsStill f (run f es)
unfolding run
run-IsStill f [] s h = unchanged-IsStill f f refl h
run-IsStill f (e ∷ es) s h =
    let first = run_kept f e es s in
    let one = step-IsStill f e first h in
    let rest = run-IsStill (step f e) es (s ∙ sym first) one.over in
    record { over = rest.over; sends = rest.sends ∙ one.sends }

send_ended-IsOver :
    (f : Flow) (o : ProgressSendOutcome) (text : String) (attempt : ℕ)
    → f.flight ≡ some (send text attempt)
    → (o ≡ uncertain) ⊎ (o ≡ rejected)
    → IsStill f (step f (send_ends o))
unfolding step send_ended after_send is_final
send_ended-IsOver f o text attempt e (inl h) =
    rw (e, h) (record { over = record { final = refl; quiet = refl }; sends = refl })
send_ended-IsOver f o text attempt e (inr h) =
    rw (e, h) (record { over = record { final = refl; quiet = refl }; sends = refl })

-- A send in flight that ends uncertain or rejected is the last call of its phase.
pub last_send :
    (f : Flow) (o : ProgressSendOutcome) (text : String) (attempt : ℕ) (es : List FlowEvent)
    → f.flight ≡ some (send text attempt)
    → (o ≡ uncertain) ⊎ (o ≡ rejected)
    → (run (step f (send_ends o)) es).agents ≡ f.agents
    → ((run (step f (send_ends o)) es).flight ≡ none)
      × ((run (step f (send_ends o)) es).sends ≡ f.sends)
last_send f o text attempt es e h s =
    let one = send_ended-IsOver f o text attempt e h in
    let same : (step f (send_ends o)).agents ≡ f.agents = run_kept f (send_ends o) es s in
    let rest = run-IsStill (step f (send_ends o)) es (s ∙ sym same) one.over in
    (rest.over.quiet, rest.sends ∙ one.sends)

-- Whatever happened before, an uncertain outcome of a send in flight is the end: no later event
-- leads to a further call, so that an uncertain send is never repeated, unless the turn goes over to
-- showing its background agents.
pub uncertain_is_last :
    (f : Flow) (text : String) (attempt : ℕ) (es : List FlowEvent)
    → f.flight ≡ some (send text attempt)
    → (run (step f (send_ends uncertain)) es).agents ≡ f.agents
    → ((run (step f (send_ends uncertain)) es).flight ≡ none)
      × ((run (step f (send_ends uncertain)) es).sends ≡ f.sends)
uncertain_is_last f text attempt es e s = last_send f uncertain text attempt es e (inl refl) s
