-- ===== src/Disclosure/Finish.antt =====
-- packages/telegram-renderer-mcp/src/progress-disclosure.ts: `finishTurn` and `deliverRuntimeFailure`
-- for one turn, from the hook to its return. What can happen while the hook waits comes as an input:
-- whether the turn is still held, and the outcome of a delivery.
pub mod Deliveries
use claude_code_telegram_kit.Prelude.{
  ℕ, zero, suc, ◌+◌, ◌-◌, ◌*◌, ◌/◌, ◌%◌, ◌^◌, ◌≤◌, ◌<◌, String, Option, none, some, Bool, true,
  false, not, ◌&&◌, ◌||◌, ◌≡◌, ◌≢◌, ◌⊎◌, ◌↔◌, refl, sym, ap, ◌∙◌, inl, inr, List, [], ◌∷◌, ◌++◌,
  map, append-nil, append_assoc, arith, str_eq, eq_iff, eq_refl, if◌then◌else◌, ltb, leb, ◌==◌,
  Bool-cases, Option-cases, length, length-append, length-map, is_some, any, all, All, get_elem?,
  utf16_length, utf16_length-append, utf16_length-join_lines, utf16_length-decimal, joined_length,
  joined_length-append, join_lines, decimal, ◌<>◌, max, min,
}
use claude_code_telegram_kit.Disclosure.Bubble.{
  ProgressSendOutcome, sent, uncertain, rejected, ProgressEditOutcome, edited, unchanged, transient,
  throttled, gone, refused, BubbleState, absent, have, unknown, abandoned, Bubble, no_bubble,
  Visible, Request, edit, send, is_final, attempt_request, same_text, begin_flush, after_gone,
  after_edit, after_send, Flow, count_send, proceed, FlowEvent, flush, edit_ends, send_ends,
  edit_ended, send_ended, step, run, at_rest,
}
use claude_code_telegram_kit.Disclosure.Turns.{
  ProgressPhase, foreground, background_agents, shows_agents,
}

pub data FinalDeliveryOutcome : Type 0 where
  delivered unconfirmed too_large refused_final : FinalDeliveryOutcome

-- what `finishTurn` reads and changes of its turn; `held` says that it is in `turns`
pub record Ending : Type 0 where
  pub held : Bool
  pub phase : ProgressPhase
  pub killed : Bool
  pub has_active_agents : Bool
  pub failure_attempted : Bool
  pub attempted : Bool
  pub retries : ℕ
  pub background : Bool
  pub typing : Bool
  pub bubble : Bubble

-- the hook: `stop_failure` for StopFailure, else the last message and its length where one is there
-- that is not blank
pub data Finish : Type 0 where
  stop_failure : Finish
  stop_silent : Finish
  stop_with : String → ℕ → Finish

-- what happens meanwhile: the turn is still held after the drain; the configuration can be read and
-- authorizes the chat; the failure may be reserved and its sender is there; a delivery was configured; its outcome
pub record Meanwhile : Type 0 where
  pub still_held : Bool
  pub authorized : Bool
  pub reserved : Bool
  pub delivers : Bool
  pub outcome : FinalDeliveryOutcome

pub data Delivery : Type 0 where
  final_message : String → Delivery
  too_long_notice runtime_failure : Delivery

pub data Disposition : Type 0 where
  finished retry : Disposition

abbrev pub max_unified_content_characters : ℕ
max_unified_content_characters = 100000

abbrev pub Finished : Type 0
Finished = Ending × List Delivery × Disposition

-- the turn goes: `drop` and `turns.delete`
unfoldable pub remove : Ending → Ending
remove e = record e { held = false; typing = false; bubble = record e.bubble { state = abandoned } }

-- `beginBackgroundAgentDisclosure`, or else the turn goes
unfoldable pub leave : Ending → Ending
leave e =
    if e.has_active_agents
    then record e {
      phase = background_agents;
      bubble = if shows_agents e.phase then e.bubble else no_bubble;
    }
    else remove e

-- `deliverRuntimeFailure`, after the turn was finalized
unfoldable pub deliver_failure : Meanwhile → Ending → Finished
deliver_failure m e =
    if e.failure_attempted
    then (e, [], finished)
    else if not m.still_held
    then (record e { failure_attempted = true }, [], finished)
    else (
      record (remove e) { failure_attempted = true },
      if m.reserved && m.authorized then runtime_failure ∷ [] else [],
      finished,
    )

-- what follows a message that is too long
unfoldable pub too_long : Meanwhile → List Delivery → Ending → Finished
too_long m before e =
    if ltb e.retries 1
    then (
      record e { retries = e.retries + 1; attempted = false; typing = not e.background },
      before,
      retry,
    )
    else (leave e, if m.authorized then before ++ too_long_notice ∷ [] else before, finished)

unfoldable pub after_delivery : Meanwhile → List Delivery → FinalDeliveryOutcome → Ending → Finished
after_delivery m before too_large e = too_long m before e
after_delivery m before _ e = (leave e, before, finished)

-- the part that delivers the message
unfoldable pub deliver : Meanwhile → String → ℕ → Ending → Finished
deliver m text size e =
    let tried = record e { attempted = true } in
    if ltb max_unified_content_characters size
    then too_long m [] tried
    else if m.authorized
    then after_delivery m (final_message text ∷ []) m.outcome tried
    else (leave tried, [], finished)

unfoldable pub finish_message : Meanwhile → Finish → Ending → Finished
finish_message m stop_failure e = deliver_failure m e
finish_message m stop_silent e = if e.attempted then (e, [], finished) else (leave e, [], finished)
finish_message m (stop_with text size) e =
    if e.attempted
    then (e, [], finished)
    else if m.delivers
    then deliver m text size e
    else (leave e, [], finished)

-- a turn whose agents are shown already
unfoldable pub finish_shown : Meanwhile → Finish → Ending → Finished
finish_shown m stop_failure e = deliver_failure m e
finish_shown m _ e = (e, [], finished)

-- `finishTurn`, without the wait for a structured failure
unfoldable pub finish_turn : Meanwhile → Finish → Ending → Finished
finish_turn m f e =
    if not e.held
    then (e, [], finished)
    else if shows_agents e.phase
    then finish_shown m f e
    else if not m.still_held
    then (record e { held = false; typing = false }, [], finished)
    else if e.killed
    then (remove e, [], finished)
    else finish_message m f (record e { typing = false })

unfoldable pub finish_all : List (Meanwhile × Finish) → Ending → Ending × List Delivery
finish_all [] e = (e, [])
finish_all ((m, f) ∷ fs) e =
    let (e', now, disposition) = finish_turn m f e in
    let rest = finish_all fs e' in (rest.0, now ++ rest.1)
