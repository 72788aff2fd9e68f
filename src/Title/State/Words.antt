-- ===== src/Title/State/Words.antt =====
-- packages/session-control-mcp/src/session-title-state.ts: the words of a record of a title, and
-- what a title may be.
use claude_code_telegram_kit.Prelude.{
  ℕ, String, Option, none, some, Bool, true, false, not, ◌&&◌, ◌||◌, str_eq, if◌then◌else◌, ltb,
  leb, length, any,
}
use claude_code_telegram_kit.Prelude.Uuid.{codes}

abbrev pub max_title_chars : ℕ
max_title_chars = 60

pub data Status : Type 0 where
  claimed auto_applied failed user_locked : Status

pub data FailurePhase : Type 0 where
  generate parse rename readback lock : FailurePhase

pub data FailureReason : Type 0 where
  timeout command_failed invalid_output rename_failed readback_failed lock_failed state_failed :
      FailureReason

pub record SessionTitleState : Type 0 where
  pub session_id : String
  pub status : Status
  pub attempts : ℕ
  pub title : Option String
  pub phase : Option FailurePhase
  pub reason : Option FailureReason
  pub retry_at : Option ℕ
  pub updated_at : ℕ

unfoldable pub is_retryable : FailurePhase → FailureReason → Bool
is_retryable generate timeout = true
is_retryable generate command_failed = true
is_retryable parse invalid_output = true
is_retryable _ _ = false

unfoldable pub is_valid_tuple : FailurePhase → FailureReason → Bool
is_valid_tuple generate timeout = true
is_valid_tuple generate command_failed = true
is_valid_tuple parse invalid_output = true
is_valid_tuple rename rename_failed = true
is_valid_tuple readback readback_failed = true
is_valid_tuple readback state_failed = true
is_valid_tuple lock lock_failed = true
is_valid_tuple lock state_failed = true
is_valid_tuple _ _ = false

unfoldable pub is_control : ℕ → Bool
is_control c = ltb c 0x20 || (leb 0x7f c && leb c 0x9f)

-- `assertTitle` does not throw
unfoldable pub is_title : String → Bool
is_title title =
    let chars = codes title in
    not (ltb (length chars) 1 || ltb max_title_chars (length chars)) && not (any is_control chars)

unfoldable pub status_text : Status → String
status_text claimed = "claimed"
status_text auto_applied = "auto_applied"
status_text failed = "failed"
status_text user_locked = "user_locked"

unfoldable pub status_from : String → Option Status
status_from t =
    if str_eq t "claimed"
    then some claimed
    else if str_eq t "auto_applied"
    then some auto_applied
    else if str_eq t "failed"
    then some failed
    else if str_eq t "user_locked"
    then some user_locked
    else none

unfoldable pub phase_text : FailurePhase → String
phase_text generate = "generate"
phase_text parse = "parse"
phase_text rename = "rename"
phase_text readback = "readback"
phase_text lock = "lock"

unfoldable pub phase_from : String → Option FailurePhase
phase_from t =
    if str_eq t "generate"
    then some generate
    else if str_eq t "parse"
    then some parse
    else if str_eq t "rename"
    then some rename
    else if str_eq t "readback"
    then some readback
    else if str_eq t "lock"
    then some lock
    else none

unfoldable pub reason_text : FailureReason → String
reason_text timeout = "timeout"
reason_text command_failed = "command_failed"
reason_text invalid_output = "invalid_output"
reason_text rename_failed = "rename_failed"
reason_text readback_failed = "readback_failed"
reason_text lock_failed = "lock_failed"
reason_text state_failed = "state_failed"

unfoldable pub reason_from : String → Option FailureReason
reason_from t =
    if str_eq t "timeout"
    then some timeout
    else if str_eq t "command_failed"
    then some command_failed
    else if str_eq t "invalid_output"
    then some invalid_output
    else if str_eq t "rename_failed"
    then some rename_failed
    else if str_eq t "readback_failed"
    then some readback_failed
    else if str_eq t "lock_failed"
    then some lock_failed
    else if str_eq t "state_failed"
    then some state_failed
    else none
