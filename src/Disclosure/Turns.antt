-- ===== src/Disclosure/Turns.antt =====
-- packages/telegram-renderer-mcp/src/progress-disclosure.ts: the turns that are held, and the hooks
-- that record on them. A timer that is set is `scheduled`; a flush that is put at the end of a turn's
-- chain is counted in `flushes`, and Disclosure/Bubble.antt says what it does.
pub mod Eviction
pub mod Hooks
pub mod Outcomes
pub mod Binding
pub mod Routed
pub mod Runs
pub mod Consumption
mod Tests
use claude_code_telegram_kit.Prelude.{
  ℕ, zero, suc, ◌+◌, ◌-◌, ◌*◌, ◌/◌, ◌%◌, ◌^◌, ◌≤◌, ◌<◌, String, Option, none, some, Bool, true,
  false, not, ◌&&◌, ◌||◌, ◌≡◌, ◌≢◌, ◌⊎◌, ◌↔◌, refl, sym, ap, ◌∙◌, inl, inr, List, [], ◌∷◌, ◌++◌,
  map, append-nil, append_assoc, arith, str_eq, eq_iff, eq_refl, if◌then◌else◌, ltb, leb, ◌==◌,
  Bool-cases, Option-cases, length, length-append, length-map, is_some, any, all, All, get_elem?,
  utf16_length, utf16_length-append, utf16_length-join_lines, utf16_length-decimal, joined_length,
  joined_length-append, join_lines, decimal, ◌<>◌, max, min,
}
use claude_code_telegram_kit.Prelude.JsMap
use claude_code_telegram_kit.Prelude.JsMap.{JsMap}
use claude_code_telegram_kit.Prelude.JsSet
use claude_code_telegram_kit.Progress.Turn.{TurnProgress}
use claude_code_telegram_kit.Progress.Background
use claude_code_telegram_kit.Progress.Background.{
  BackgroundProgress, AgentTerminalStatus, has_active, has_pending_tasks,
}
use claude_code_telegram_kit.Disclosure.Bubble.{
  ProgressSendOutcome, sent, uncertain, rejected, ProgressEditOutcome, edited, unchanged, transient,
  throttled, gone, refused, BubbleState, absent, have, unknown, abandoned, Bubble, no_bubble,
  Visible, Request, edit, send, is_final, attempt_request, same_text, begin_flush, after_gone,
  after_edit, after_send, Flow, count_send, proceed, FlowEvent, flush, edit_ends, send_ends,
  edit_ended, send_ended, step, run, at_rest,
}
use claude_code_telegram_kit.Disclosure.Routes.{
  background_task_route_ttl_ms, max_background_task_routes, max_background_chain_depth,
  BackgroundTaskRoute, Routing, no_routes, background_route_key, leads_to, drop_aliases,
  without_route, delete_route, prune_expired, first_key, prune_oldest, prune, add_route,
  alias_is_free, remember_alias,
}

abbrev pub max_retained_turns : ℕ
max_retained_turns = 32

abbrev pub max_active_background_turns : ℕ
max_active_background_turns = 16

pub data ProgressPhase : Type 0 where
  foreground background_agents : ProgressPhase

-- A handle that can be cancelled is true while it is held.
pub record Turn : Type 0 where
  pub chat_id : String
  pub quote_message_id : String
  pub user_message : String
  pub tool_use_ids : List String
  pub background : Bool
  pub background_depth : ℕ
  pub background_terminal_status : Option AgentTerminalStatus
  pub progress : TurnProgress
  pub background_progress : BackgroundProgress
  pub progress_phase : ProgressPhase
  pub bubble : Bubble
  pub scheduled : Bool
  pub typing : Bool
  pub watched : Bool
  pub tracked : Bool
  pub flushes : ℕ

-- `turns`, `backgroundTaskRoutes` and `backgroundTaskAliases`
pub record World : Type 0 where
  pub turns : JsMap Turn
  pub routing : Routing

unfoldable pub turn_key : String → String → String
turn_key session_id prompt_id = session_id <> "/" <> prompt_id

unfoldable pub shows_agents : ProgressPhase → Bool
shows_agents foreground = false
shows_agents background_agents = true

-- `drop`, which also abandons the bubble
unfoldable pub drop : Turn → Turn
drop t = record t {
  bubble = record t.bubble { state = abandoned };
  scheduled = false;
  typing = false;
  watched = false;
  tracked = false;
}

unfoldable pub is_active_background : Turn → Bool
is_active_background t =
    has_pending_tasks t.background_progress
    || (shows_agents t.progress_phase && has_active t.background_progress)

abbrev pub is_inactive : Turn → Bool
is_inactive t = not (is_active_background t)

-- `evictOldest`: the first turn that fits goes
unfoldable pub evict_oldest : (Turn → Bool) → JsMap Turn → JsMap Turn
evict_oldest fits [] = []
evict_oldest fits ((key, t) ∷ turns) =
    let rest = evict_oldest fits turns in if fits t then turns else (key, t) ∷ rest

-- the number of turns that fit
unfoldable pub count : (Turn → Bool) → JsMap Turn → ℕ
count fits [] = 0
count fits ((key, t) ∷ turns) = if fits t then suc (count fits turns) else count fits turns

-- one of the loops of `evict`, on fuel
unfoldable pub evict_down : (Turn → Bool) → ℕ → ℕ → JsMap Turn → JsMap Turn
evict_down fits limit zero turns = turns
evict_down fits limit (suc fuel) turns =
    let rest = evict_down fits limit fuel (evict_oldest fits turns) in
    if ltb limit (count fits turns) then rest else turns

-- Each round evicts a turn that fits, so their number is fuel enough.
unfoldable pub evict_to : (Turn → Bool) → ℕ → JsMap Turn → JsMap Turn
evict_to fits limit turns = evict_down fits limit (count fits turns) turns

-- `evict`
unfoldable pub evict : JsMap Turn → JsMap Turn
evict turns =
    evict_to is_inactive max_retained_turns
      (evict_to is_active_background max_active_background_turns turns)

-- `visibleProgress(turn).closed`
unfoldable pub is_closed : Turn → Bool
is_closed t = not (shows_agents t.progress_phase) && is_some t.progress.outcome

-- `touch`: a flush is scheduled, if none is and one may come
unfoldable pub touch : Turn → Turn
touch t =
    if is_closed t || t.scheduled || is_final t.bubble.state
    then t
    else record t { scheduled = true }

-- `enqueue`, with the timer cancelled
unfoldable pub flush_now : Turn → Turn
flush_now t = record t { scheduled = false; flushes = t.flushes + 1 }

-- the route that `rememberBackgroundTaskRoute` sets
unfoldable pub route_for : ℕ → String → String → Turn → BackgroundTaskRoute
route_for now owner_key tool_use_id t = record {
  chat_id = t.chat_id;
  quote_message_id = t.quote_message_id;
  owner_key = owner_key;
  tool_use_id = tool_use_id;
  task_aliases = [];
  depth = t.background_depth + 1;
  expires_at = now + background_task_route_ttl_ms;
}

-- `rememberBackgroundTaskRoute`, on the turn and the routes
unfoldable pub remember_route : ℕ → String → String → String → Turn → Routing → Turn × Routing
remember_route now session_id tool_use_id owner_key t r =
    let key = background_route_key session_id tool_use_id in
    let started = Background.record_task_start t.background_progress tool_use_id in
    if leb max_background_chain_depth t.background_depth || JsMap.has r.routes key
    then (t, r)
    else if not started.1
    then (t, r)
    else (
      record t { background_progress = started.0 },
      add_route now key (route_for now owner_key tool_use_id t) r,
    )
