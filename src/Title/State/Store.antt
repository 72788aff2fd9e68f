-- ===== src/Title/State/Store.antt =====
-- packages/session-control-mcp/src/session-title-state.ts: the operations on the file of one
-- session. Each holds the lock of the session, so that it is one step. A failing call of the
-- file system, which leaves the file as it was, is not modelled.
use claude_code_telegram_kit.Prelude.{
  ℕ, String, Option, none, some, Bool, true, false, not, ◌&&◌, if◌then◌else◌, leb, ◌==◌, is_some,
}
use claude_code_telegram_kit.Prelude.JsMap.{JsMap}
use claude_code_telegram_kit.Prelude.Json.{Json}
use claude_code_telegram_kit.Prelude.Uuid.{is_uuid}
use claude_code_telegram_kit.Title.State.{
  Status, claimed, auto_applied, failed, user_locked, FailurePhase, FailureReason,
  SessionTitleState, is_retryable, is_title, plain_state, validate, canonical,
}

-- the file of a session; `unreadable` is one that is no safe file, or that holds no JSON object
pub data Leaf : Type 0 where
  missing unreadable : Leaf
  holds : JsMap Json → Leaf

pub data Outcome : Type 0 where
  thrown : Outcome
  returned : Bool → Outcome

pub data Read : Type 0 where
  refused nothing : Read
  found : SessionTitleState → Read

unfoldable pub validated : Option SessionTitleState → Read
validated none = refused
validated (some s) = found s

unfoldable pub read_leaf : Leaf → String → Read
read_leaf missing session_id = nothing
read_leaf unreadable session_id = refused
read_leaf (holds f) session_id = validated (validate f session_id)

-- `readSessionTitleState`; none is an error
unfoldable pub read_state : String → Leaf → Option (Option SessionTitleState)
read_state session_id leaf =
    if not (is_uuid session_id) then none else elim (read_leaf leaf session_id) [
      | refused ↦ none
      | nothing ↦ some none
      | found s ↦ some (some s)
    ]

-- an operation that reads the file and either leaves it or writes the next state
unfoldable pub update :
    String → (SessionTitleState → Option SessionTitleState) → Leaf → Leaf × Outcome
update session_id next leaf =
    if not (is_uuid session_id) then (leaf, thrown) else elim (read_leaf leaf session_id) [
      | refused ↦ (leaf, thrown)
      | nothing ↦ (leaf, returned false)
      | found s ↦ elim (next s) [
        | none ↦ (leaf, returned false)
        | some s' ↦ (holds (canonical s'), returned true)
      ]
    ]

-- `claimAutoTitle`: the file is created, or it exists
unfoldable pub claim : String → ℕ → Leaf → Leaf × Outcome
claim session_id now leaf = if not (is_uuid session_id) then (leaf, thrown) else elim leaf [
  | missing ↦ (holds (canonical (plain_state session_id claimed 1 now)), returned true)
  | unreadable ↦ (unreadable, returned false)
  | holds f ↦ (holds f, returned false)
]

pub record Failure : Type 0 where
  pub phase : Option FailurePhase
  pub reason : Option FailureReason
  pub retry_at : Option ℕ

unfoldable pub is_claimed : Status → Bool
is_claimed claimed = true
is_claimed _ = false

unfoldable pub is_failed : Status → Bool
is_failed failed = true
is_failed _ = false

unfoldable pub completed : String → ℕ → SessionTitleState → Option SessionTitleState
completed title now s =
    if is_claimed s.status
    then some (record (plain_state s.session_id auto_applied s.attempts now) { title = some title })
    else none

-- `completeAutoTitle`
unfoldable pub complete : String → String → ℕ → Leaf → Leaf × Outcome
complete session_id title now leaf =
    if is_title title then update session_id (completed title now) leaf else (leaf, thrown)

unfoldable pub describe_failure : ℕ → Failure → SessionTitleState → SessionTitleState
describe_failure attempts failure s =
    if is_some failure.phase && is_some failure.reason
    then record s {
      phase = failure.phase;
      reason = failure.reason;
      retry_at = if attempts == 1 then failure.retry_at else none;
    }
    else s

unfoldable pub failed_with : Failure → ℕ → SessionTitleState → Option SessionTitleState
failed_with failure now s =
    if is_claimed s.status
    then some (describe_failure s.attempts failure (plain_state s.session_id failed s.attempts now))
    else none

-- `failAutoTitle`
unfoldable pub fail : String → Failure → ℕ → Leaf → Leaf × Outcome
fail session_id failure now leaf = update session_id (failed_with failure now) leaf

unfoldable pub retry_is_due : Option FailurePhase → Option FailureReason → Option ℕ → ℕ → Bool
retry_is_due (some phase) (some reason) (some retry_at) now =
    is_retryable phase reason && leb retry_at now
retry_is_due _ _ _ now = false

unfoldable pub retried : ℕ → ℕ → SessionTitleState → Option SessionTitleState
retried due now s =
    if is_failed s.status && s.attempts == 1 && retry_is_due s.phase s.reason s.retry_at due
    then some (plain_state s.session_id claimed 2 now)
    else none

-- `retryAutoTitle`, whose test of the time and whose mark read the clock one after the other
unfoldable pub retry : String → ℕ → ℕ → Leaf → Leaf × Outcome
retry session_id due now leaf = update session_id (retried due now) leaf

abbrev pub locked : String → String → ℕ → SessionTitleState
locked session_id title now = record (plain_state session_id user_locked 1 now) {
  title = some title;
}

-- `lockUserTitle`
unfoldable pub lock_title : String → String → ℕ → Leaf → Leaf × Outcome
lock_title session_id title now leaf =
    if not (is_title title)
    then (leaf, thrown)
    else if not (is_uuid session_id)
    then (leaf, thrown)
    else elim (read_leaf leaf session_id) [
      | refused ↦ (leaf, thrown)
      | nothing ↦ (holds (canonical (locked session_id title now)), returned true)
      | found s ↦ (holds (canonical (locked session_id title now)), returned true)
    ]
