-- ===== src/Usage/Quota.antt =====
-- packages/session-control-mcp/src/usage-queue-watcher.ts: the quota state of a transcript, and what
-- `pollOnce` does with a line. A line comes as its parsed failure row and its parsed event, since the
-- parsers are not modelled here. Resets are in seconds, the clock is in ms.
pub mod Notices
use claude_code_telegram_kit.Prelude.{
  ℕ, zero, suc, ◌+◌, ◌-◌, ◌*◌, ◌/◌, ◌%◌, ◌^◌, ◌≤◌, ◌<◌, String, Option, none, some, Bool, true,
  false, not, ◌&&◌, ◌||◌, ◌≡◌, ◌≢◌, ◌⊎◌, ◌↔◌, refl, sym, ap, ◌∙◌, inl, inr, List, [], ◌∷◌, ◌++◌,
  map, append-nil, append_assoc, arith, str_eq, eq_iff, eq_refl, if◌then◌else◌, ltb, leb, ◌==◌,
  Bool-cases, Option-cases, length, length-append, length-map, is_some, any, all, All, get_elem?,
  utf16_length, utf16_length-append, utf16_length-join_lines, utf16_length-decimal, joined_length,
  joined_length-append, join_lines, decimal, ◌<>◌, max, min,
}
use claude_code_telegram_kit.Prelude.JsSet
use claude_code_telegram_kit.Usage.Claims.{
  max_control_claims, is_claim_bound, claim_key, claim, claim_all, length-claim, has-claim,
  claim_granted, claim_all_lem,
}

abbrev pub max_quota_future_ms : ℕ
max_quota_future_ms = 604800000

pub data QuotaWindow : Type 0 where
  five_hour seven_day : QuotaWindow

pub record ActiveQuotaState : Type 0 where
  pub resets_at : ℕ
  pub window : Option QuotaWindow

-- the result of `parseRuntimeFailureRow`
pub record RuntimeFailureRow : Type 0 where
  pub error : String
  pub resets_at : Option ℕ
  pub quota_window : Option QuotaWindow

unfoldable pub supersedes : ActiveQuotaState → ActiveQuotaState → ℕ → Bool
supersedes next current now =
    leb (current.resets_at * 1000) now
    || ltb current.resets_at next.resets_at
    || (next.resets_at == current.resets_at && not (is_some current.window) && is_some next.window)

-- `mergeActiveQuotaState`
unfoldable pub merge : Option ActiveQuotaState → ActiveQuotaState → ℕ → ActiveQuotaState
merge none next now = next
merge (some current) next now = if supersedes next current now then next else current

unfoldable pub is_plausible : ℕ → ℕ → Bool
is_plausible resets_at now =
    not (leb (resets_at * 1000) now || ltb (now + max_quota_future_ms) (resets_at * 1000))

-- the quota of a transcript: a window without a reset does not occur
unfoldable pub with_reset :
    Option ActiveQuotaState → ℕ → Option QuotaWindow → Option ActiveQuotaState
with_reset none resets_at window = some (record { resets_at = resets_at; window = window })
with_reset (some quota) resets_at window =
    if ltb quota.resets_at resets_at
    then some (record { resets_at = resets_at; window = window })
    else if resets_at == quota.resets_at && is_some window
    then some (record quota { window = window })
    else some quota

unfoldable pub with_failure :
    Option ActiveQuotaState → RuntimeFailureRow → ℕ → Option ActiveQuotaState
with_failure quota row now = elim row.resets_at [
  | none ↦ quota
  | some resets_at ↦
      if str_eq row.error "rate_limit" && is_plausible resets_at now
      then with_reset quota resets_at row.quota_window
      else quota
]

-- `updateQuotaState`
unfoldable pub update_quota :
    Option ActiveQuotaState → Option RuntimeFailureRow → ℕ → Option ActiveQuotaState
update_quota quota none now = quota
update_quota quota (some row) now = with_failure quota row now

-- `parseControlCommand(body).kind`: the usage command, no command, or another command
pub data CommandKind : Type 0 where
  usage other another : CommandKind

pub record QueuedEvent : Type 0 where
  pub chat_id : String
  pub message_id : String
  pub kind : CommandKind

pub record TranscriptLine : Type 0 where
  pub now : ℕ
  pub failure : Option RuntimeFailureRow
  pub event : Option QueuedEvent

-- what the loop calls
pub data Call : Type 0 where
  quota_state : ActiveQuotaState → Call
  dispatch : String → Call
  send_quota_notice : String → ℕ → ℕ → Call

pub record Watch : Type 0 where
  pub quota : Option ActiveQuotaState
  pub claims : List String

unfoldable pub same_window : Option QuotaWindow → Option QuotaWindow → Bool
same_window none none = true
same_window (some five_hour) (some five_hour) = true
same_window (some seven_day) (some seven_day) = true
same_window _ _ = false

unfoldable pub quota_changed : Option ActiveQuotaState → Option ActiveQuotaState → List Call
quota_changed before none = []
quota_changed none (some quota) = quota_state quota ∷ []
quota_changed (some old) (some quota) =
    if old.resets_at == quota.resets_at && same_window old.window quota.window
    then []
    else quota_state quota ∷ []

-- the part for a message that is no command, while a quota is known
unfoldable pub notify : Watch → QueuedEvent → ℕ → Option ActiveQuotaState → Watch × List Call
notify w event now none = (w, [])
notify w event now (some quota) =
    let key = claim_key event.chat_id event.message_id in
    let claimed = claim max_control_claims key w.claims in
    if leb (quota.resets_at * 1000) now
    then (record w { quota = none }, [])
    else if claimed.1
    then (record w { claims = claimed.0 }, send_quota_notice key quota.resets_at now ∷ [])
    else (w, [])

unfoldable pub on_command : CommandKind → Bool → Watch → ℕ → QueuedEvent → Watch × List Call
on_command usage sends_notices w now event = (w, dispatch event.message_id ∷ [])
on_command another sends_notices w now event = (w, [])
on_command other sends_notices w now event =
    if sends_notices then notify w event now w.quota else (w, [])

unfoldable pub on_event : Bool → Watch → ℕ → Option QueuedEvent → Watch × List Call
on_event sends_notices w now none = (w, [])
on_event sends_notices w now (some event) = on_command event.kind sends_notices w now event

-- the body of the loop over the lines of a transcript
unfoldable pub on_line : Bool → Watch → TranscriptLine → Watch × List Call
on_line sends_notices w line =
    let quota = update_quota w.quota line.failure line.now in
    let handled = on_event sends_notices (record w { quota = quota }) line.now line.event in
    (handled.0, quota_changed w.quota quota ++ handled.1)

unfoldable pub on_lines : Bool → Watch → List TranscriptLine → Watch × List Call
on_lines sends_notices w [] = (w, [])
on_lines sends_notices w (line ∷ lines) =
    let first = on_line sends_notices w line in
    let rest = on_lines sends_notices first.0 lines in (rest.0, first.1 ++ rest.1)
