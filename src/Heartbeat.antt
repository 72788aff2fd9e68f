-- ===== src/Heartbeat.antt =====
-- packages/telegram-renderer-mcp/src/typing-heartbeat.ts: the typing indicator of the chats, cut where a
-- beat waits for its send and for its timer. A heartbeat is an object of the heap; its number is its
-- identity.
pub mod Current
pub mod Runs
mod Tests
use claude_code_telegram_kit.Prelude.{
  ℕ, zero, suc, ◌+◌, ◌-◌, ◌*◌, ◌/◌, ◌%◌, ◌^◌, ◌≤◌, ◌<◌, String, Option, none, some, Bool, true,
  false, not, ◌&&◌, ◌||◌, ◌≡◌, ◌≢◌, ◌⊎◌, ◌↔◌, refl, sym, ap, ◌∙◌, inl, inr, List, [], ◌∷◌, ◌++◌,
  map, append-nil, append_assoc, arith, str_eq, eq_iff, eq_refl, if◌then◌else◌, ltb, leb, ◌==◌,
  Bool-cases, Option-cases, length, length-append, length-map, is_some, any, all, All, get_elem?,
  utf16_length, utf16_length-append, utf16_length-join_lines, utf16_length-decimal, joined_length,
  joined_length-append, join_lines, decimal, ◌<>◌, max, min,
}
use claude_code_telegram_kit.Prelude.JsMap
use claude_code_telegram_kit.Prelude.JsMap.{JsMap}

abbrev pub default_typing_heartbeat_interval_ms : ℕ
default_typing_heartbeat_interval_ms = 2000

abbrev pub default_typing_throttle_cooldown_ms : ℕ
default_typing_throttle_cooldown_ms = 10000

abbrev pub default_typing_max_duration_ms : ℕ
default_typing_max_duration_ms = 600000

-- `timer` is the delay of the timer that is set (`cancel`). `abort` tells whether there is an abort
-- controller: of a send that is neither answered nor aborted. An aborted send may still be unanswered.
pub record Heartbeat : Type 0 where
  pub chat_id : String
  pub timer : Option ℕ
  pub abort : Bool
  pub stopped : Bool
  pub started_at : ℕ

pub record Manager : Type 0 where
  pub heap : ℕ → Heartbeat
  pub next : ℕ
  pub heartbeats : JsMap ℕ

pub data TypingOutcome : Type 0 where
  sent throttled rejected transient : TypingOutcome

unfoldable pub set : (ℕ → Heartbeat) → ℕ → Heartbeat → ℕ → Heartbeat
set heap i h k = if k == i then h else heap k

abbrev pub is_some_of : Option ℕ → ℕ → Bool
is_some_of none i = false
is_some_of (some j) i = j == i

-- `heartbeats.get(chatId) === heartbeat`
unfoldable pub is_current : Manager → ℕ → Bool
is_current m i = is_some_of (JsMap.get m.heartbeats (m.heap i).chat_id) i

abbrev pub silenced : Heartbeat → Heartbeat
silenced h = record h { timer = none; abort = false; stopped = true }

-- `stopHeartbeat`
unfoldable pub stop_heartbeat : Manager → ℕ → Manager
stop_heartbeat m i = record m {
  heap = set m.heap i (silenced (m.heap i));
  heartbeats =
      if is_current m i then JsMap.delete m.heartbeats (m.heap i).chat_id else m.heartbeats;
}

abbrev pub is_live : Manager → ℕ → Bool
is_live m i = not (m.heap i).stopped && is_current m i

-- `scheduleNext`; `schedules` is false where setting the timer throws
unfoldable pub schedule_next : Manager → ℕ → ℕ → ℕ → Bool → Manager
schedule_next m i delay now schedules =
    if not (is_live m i)
    then m
    else if leb default_typing_max_duration_ms (now - (m.heap i).started_at)
    then stop_heartbeat m i
    else record m {
      heap = set m.heap i (record (m.heap i) { timer = (if schedules then some delay else none) });
    }

-- `beat` up to its send
unfoldable pub begin_beat : Manager → ℕ → Manager
begin_beat m i =
    if is_live m i then record m { heap = set m.heap i (record (m.heap i) { abort = true }) } else m

abbrev pub delay_of : TypingOutcome → ℕ
delay_of throttled = default_typing_throttle_cooldown_ms
delay_of _ = default_typing_heartbeat_interval_ms

abbrev pub is_rejected : TypingOutcome → Bool
is_rejected rejected = true
is_rejected _ = false

unfoldable pub answered : Manager → ℕ → Manager
answered m i = record m { heap = set m.heap i (record (m.heap i) { abort = false }) }

-- `beat` from the answer to its send
unfoldable pub end_beat : Manager → ℕ → TypingOutcome → ℕ → Bool → Manager
end_beat m i outcome now schedules =
    let m' = answered m i in
    if not (is_live m' i)
    then m'
    else if is_rejected outcome
    then stop_heartbeat m' i
    else schedule_next m' i (delay_of outcome) now schedules

-- the timer goes off
unfoldable pub fire : Manager → ℕ → Manager
fire m i = begin_beat (record m { heap = set m.heap i (record (m.heap i) { timer = none }) }) i

unfoldable pub stop_found : Manager → Option ℕ → Manager
stop_found m none = m
stop_found m (some i) = stop_heartbeat m i

-- `stop`
abbrev pub stop : Manager → String → Manager
stop m chat_id = stop_found m (JsMap.get m.heartbeats chat_id)

unfoldable pub stop_each : Manager → List ℕ → Manager
stop_each m [] = m
stop_each m (i ∷ ids) = stop_each (stop_heartbeat m i) ids

-- `stopAll`
abbrev pub stop_all : Manager → Manager
stop_all m = stop_each m (JsMap.values m.heartbeats)

unfoldable pub fresh : Manager → String → ℕ → Manager
fresh m chat_id now = record {
  heap = set m.heap m.next (record {
    chat_id = chat_id;
    timer = none;
    abort = false;
    stopped = false;
    started_at = now;
  });
  next = m.next + 1;
  heartbeats = JsMap.put m.heartbeats chat_id m.next;
}

-- `start`; what it returns is `stop_heartbeat` of the new heartbeat
unfoldable pub start : Manager → String → ℕ → Manager
start m chat_id now = let m' = stop m chat_id in begin_beat (fresh m' chat_id now) m'.next
