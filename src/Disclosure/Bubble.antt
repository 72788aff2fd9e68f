-- ===== src/Disclosure/Bubble.antt =====
-- packages/telegram-renderer-mcp/src/progress-disclosure.ts: `flush`, which draws the bubble of a
-- turn, and what a drop of the turn and the start of its background agents do to the bubble. A flush stops at each transport call and goes on with its outcome, so that other events can
-- come between. An exception of the transport is the outcome `transient` of an edit and `uncertain`
-- of a send, as its handlers have it.
pub mod Sends
pub mod Final
use claude_code_telegram_kit.Prelude.{
  ℕ, zero, suc, ◌+◌, ◌-◌, ◌*◌, ◌/◌, ◌%◌, ◌^◌, ◌≤◌, ◌<◌, String, Option, none, some, Bool, true,
  false, not, ◌&&◌, ◌||◌, ◌≡◌, ◌≢◌, ◌⊎◌, ◌↔◌, refl, sym, ap, ◌∙◌, inl, inr, List, [], ◌∷◌, ◌++◌,
  map, append-nil, append_assoc, arith, str_eq, eq_iff, eq_refl, if◌then◌else◌, ltb, leb, ◌==◌,
  Bool-cases, Option-cases, length, length-append, length-map, is_some, any, all, All, get_elem?,
  utf16_length, utf16_length-append, utf16_length-join_lines, utf16_length-decimal, joined_length,
  joined_length-append, join_lines, decimal, ◌<>◌, max, min,
}

-- progress-transport.ts
pub data ProgressSendOutcome : Type 0 where
  sent : ℕ → ProgressSendOutcome
  uncertain rejected : ProgressSendOutcome

pub data ProgressEditOutcome : Type 0 where
  edited unchanged transient throttled gone refused : ProgressEditOutcome

pub data BubbleState : Type 0 where
  absent have unknown abandoned : BubbleState

-- the fields of `Turn` that belong to its bubble
pub record Bubble : Type 0 where
  pub message_id : Option ℕ
  pub state : BubbleState
  pub replacement_used : Bool
  pub last_sent_text : Option String

abbrev pub no_bubble : Bubble
no_bubble = record {
  message_id = none;
  state = absent;
  replacement_used = false;
  last_sent_text = none;
}

-- `visibleProgress`
pub record Visible : Type 0 where
  pub has_steps : Bool
  pub closed : Bool
  pub text : String

-- a transport call in flight, with the text of its flush and the attempt of the loop
pub data Request : Type 0 where
  edit : ℕ → String → ℕ → Request
  send : String → ℕ → Request

unfoldable pub is_final : BubbleState → Bool
is_final unknown = true
is_final abandoned = true
is_final _ = false

-- the top of the loop: `for (attempt = 0; attempt < 2; …)`
unfoldable pub attempt_request : Bubble → String → ℕ → Option Request
attempt_request b text attempt =
    if ltb attempt 2
    then (elim b.state [
      | have ↦ elim b.message_id [
        | some id ↦ some (edit id text attempt)
        | none ↦ some (send text attempt)
      ]
      | _ ↦ some (send text attempt)
    ])
    else none

unfoldable pub same_text : Option String → String → Bool
same_text none text = false
same_text (some last) text = str_eq text last

-- `flush` up to its first transport call; `authorized` is false where the configuration cannot be
-- read or the chat is not authorized
unfoldable pub begin_flush : Visible → Bool → Bubble → Bubble × Option Request
begin_flush visible authorized b =
    if is_final b.state
    then (b, none)
    else if not visible.has_steps
    then (b, none)
    else if not authorized
    then (record b { state = abandoned }, none)
    else if same_text b.last_sent_text visible.text
    then (b, none)
    else (b, attempt_request b visible.text 0)

-- the bubble that is gone may be replaced once
unfoldable pub after_gone : Bubble → String → ℕ → Bubble × Option Request
after_gone b text attempt =
    if b.replacement_used
    then (record b { state = abandoned }, none)
    else (let b' = record b { replacement_used = true; state = absent; message_id = none } in
        (b', attempt_request b' text (attempt + 1)))

unfoldable pub after_edit : ProgressEditOutcome → String → ℕ → Bubble → Bubble × Option Request
after_edit edited text attempt b = (record b { last_sent_text = some text }, none)
after_edit unchanged text attempt b = (record b { last_sent_text = some text }, none)
after_edit transient text attempt b = (b, none)
after_edit throttled text attempt b = (record b { state = abandoned }, none)
after_edit gone text attempt b = after_gone b text attempt
after_edit refused text attempt b = (record b { state = abandoned }, none)

unfoldable pub after_send : ProgressSendOutcome → String → Bubble → Bubble
after_send (sent id) text b = record b {
  message_id = some id;
  state = have;
  last_sent_text = some text;
}
after_send uncertain text b = record b { state = unknown }
after_send rejected text b = record b { state = abandoned }

-- what `drop` does to the bubble of a turn
abbrev pub dropped_bubble : Bubble → Bubble
dropped_bubble b = record b { state = abandoned }

-- The flushes of one turn follow one another (`turn.chain`): whether the turn shows its background
-- agents (`progressPhase`), the bubble, the call in flight and the number of sends so far.
pub record Flow : Type 0 where
  pub agents : Bool
  pub bubble : Bubble
  pub flight : Option Request
  pub sends : ℕ

unfoldable pub count_send : Option Request → ℕ
count_send none = 0
count_send (some (edit id text attempt)) = 0
count_send (some (send text attempt)) = 1

unfoldable pub proceed : Flow → Bubble × Option Request → Flow
proceed f (b, request) = record {
  agents = f.agents;
  bubble = b;
  flight = request;
  sends = f.sends + count_send request;
}

pub data FlowEvent : Type 0 where
  flush : Visible → Bool → FlowEvent
  edit_ends : ProgressEditOutcome → FlowEvent
  send_ends : ProgressSendOutcome → FlowEvent
  drops : FlowEvent
  begins_agents : Bool → FlowEvent

unfoldable pub edit_ended : Flow → ProgressEditOutcome → Option Request → Flow
edit_ended f outcome (some (edit id text attempt)) =
    proceed f (after_edit outcome text attempt f.bubble)
edit_ended f outcome _ = f

unfoldable pub send_ended : Flow → ProgressSendOutcome → Option Request → Flow
send_ended f outcome (some (send text attempt)) = record f {
  bubble = after_send outcome text f.bubble;
  flight = none;
}
send_ended f outcome _ = f

-- the part of `beginBackgroundAgentDisclosure` for the bubble; the flush that it adds to the chain is an
-- event of its own
unfoldable pub begin_agents : Flow → Bool → Flow
begin_agents f has_active =
    if has_active && not f.agents then record f { agents = true; bubble = no_bubble } else f

-- A flush waits while another is in flight; an outcome answers the call of its kind.
unfoldable pub step : Flow → FlowEvent → Flow
step f (flush visible authorized) =
    if is_some f.flight then f else proceed f (begin_flush visible authorized f.bubble)
step f (edit_ends outcome) = edit_ended f outcome f.flight
step f (send_ends outcome) = send_ended f outcome f.flight
step f drops = record f { bubble = dropped_bubble f.bubble }
step f (begins_agents has_active) = begin_agents f has_active

unfoldable pub run : Flow → List FlowEvent → Flow
run f [] = f
run f (e ∷ es) = run (step f e) es

abbrev pub at_rest : Flow
at_rest = record { agents = false; bubble = no_bubble; flight = none; sends = 0 }
