-- ===== src/Title/State.antt =====
-- packages/session-control-mcp/src/session-title-state.ts: the record of a title and its check.
mod Words
pub mod Store
pub mod Roundtrip
pub mod Soundness
pub mod Machine
unfoldable pub use Words.*
use claude_code_telegram_kit.Prelude.{
  ℕ, zero, suc, ◌+◌, ◌-◌, ◌*◌, ◌/◌, ◌%◌, ◌^◌, ◌≤◌, ◌<◌, String, Option, none, some, Bool, true,
  false, not, ◌&&◌, ◌||◌, ◌≡◌, ◌≢◌, ◌⊎◌, ◌↔◌, refl, sym, ap, ◌∙◌, inl, inr, List, [], ◌∷◌, ◌++◌,
  map, append-nil, append_assoc, arith, str_eq, eq_iff, eq_refl, if◌then◌else◌, ltb, leb, ◌==◌,
  Bool-cases, Option-cases, length, length-append, length-map, is_some, any, all, All, get_elem?,
  utf16_length, utf16_length-append, utf16_length-join_lines, utf16_length-decimal, joined_length,
  joined_length-append, join_lines, decimal, ◌<>◌, max, min,
}
use claude_code_telegram_kit.Prelude.JsMap
use claude_code_telegram_kit.Prelude.JsMap.{JsMap}
use claude_code_telegram_kit.Prelude.JsSet
use claude_code_telegram_kit.Prelude.Json.{
  Json, null_value, other_number, composite, boolean, number, text, max_safe_integer, text_of,
  safe_of, text_field,
}
use claude_code_telegram_kit.Prelude.Uuid.{
  codes, Class, hex, dash, four, variant, in_class, matches, is_uuid,
}

abbrev pub base_keys : List String
base_keys = "version" ∷ "sessionId" ∷ "status" ∷ "attempts" ∷ []

-- `allowed`, by the status that the record names
unfoldable pub allowed_keys : Option Status → List String
allowed_keys (some auto_applied) = base_keys ++ "title" ∷ "updatedAt" ∷ []
allowed_keys (some user_locked) = base_keys ++ "title" ∷ "updatedAt" ∷ []
allowed_keys (some failed) = base_keys ++ "phase" ∷ "reason" ∷ "retryAt" ∷ "updatedAt" ∷ []
allowed_keys _ = base_keys ++ "updatedAt" ∷ []

-- one of the keys that describe a failure is there
unfoldable pub has_diagnostics : JsMap Json → Bool
has_diagnostics f = JsMap.has f "phase" || JsMap.has f "reason" || JsMap.has f "retryAt"

unfoldable pub required_keys : Option Status → Bool → List String
required_keys (some failed) true = base_keys ++ "phase" ∷ "reason" ∷ "updatedAt" ∷ []
required_keys (some failed) false = base_keys ++ "updatedAt" ∷ []
required_keys status diagnostics = allowed_keys status

unfoldable pub keys_fit : Option Status → JsMap Json → Bool
keys_fit status f =
    all (JsSet.has (allowed_keys status)) (JsMap.keys f)
    && all (JsMap.has f) (required_keys status (has_diagnostics f))

-- `record.attempts`, which is 1 or 2
unfoldable pub attempts_from : Option Json → Option ℕ
attempts_from (some (number n)) = if n == 1 || n == 2 then some n else none
attempts_from _ = none

unfoldable pub is_version : Option Json → Bool
is_version (some (number n)) = n == 1
is_version _ = false

unfoldable pub is_text : Option String → String → Bool
is_text none s = false
is_text (some t) s = str_eq t s

abbrev pub plain_state : String → Status → ℕ → ℕ → SessionTitleState
plain_state session_id status attempts updated_at = record {
  session_id = session_id;
  status = status;
  attempts = attempts;
  title = none;
  phase = none;
  reason = none;
  retry_at = none;
  updated_at = updated_at;
}

-- the part for the statuses with a title
unfoldable pub with_title : SessionTitleState → Option String → Option SessionTitleState
with_title s none = none
with_title s (some title) = if is_title title then some (record s { title = some title }) else none

-- the part for a failure with a phase and a reason, and the time of a retry
unfoldable pub with_failure :
    SessionTitleState
    → Option FailurePhase
    → Option FailureReason
    → Option Json
    → Option SessionTitleState
with_failure s (some phase) (some reason) none =
    if is_valid_tuple phase reason
    then some (record s { phase = some phase; reason = some reason })
    else none
with_failure s (some phase) (some reason) (some at) = elim (safe_of (some at)) [
  | none ↦ none
  | some ms ↦
      if is_valid_tuple phase reason && is_retryable phase reason && not (s.attempts == 2)
      then some (record s { phase = some phase; reason = some reason; retry_at = some ms })
      else none
]
with_failure s _ _ _ = none

unfoldable pub phase_field : Option String → Option FailurePhase
phase_field none = none
phase_field (some t) = phase_from t

unfoldable pub reason_field : Option String → Option FailureReason
reason_field none = none
reason_field (some t) = reason_from t

unfoldable pub status_field : Option String → Option Status
status_field none = none
status_field (some t) = status_from t

-- the checks that depend on the status
unfoldable pub validate_details : SessionTitleState → JsMap Json → Option SessionTitleState
validate_details s f = elim s.status [
  | claimed ↦ some s
  | auto_applied ↦ with_title s (text_field f "title")
  | user_locked ↦ with_title s (text_field f "title")
  | failed ↦
      if has_diagnostics f
      then with_failure s (phase_field (text_field f "phase"))
          (reason_field (text_field f "reason")) (JsMap.get f "retryAt")
      else some s
]

-- the checks of the common fields, once the keys fit
unfoldable pub validate_common :
    Option Status → Option ℕ → Option ℕ → String → JsMap Json → Option SessionTitleState
validate_common (some status) (some attempts) (some updated_at) session_id f =
    if is_version (JsMap.get f "version") && is_text (text_field f "sessionId") session_id
    then validate_details (plain_state session_id status attempts updated_at) f
    else none
validate_common _ _ _ session_id f = none

-- `validateState` on an object; an error is none
unfoldable pub validate : JsMap Json → String → Option SessionTitleState
validate f session_id =
    let status = status_field (text_field f "status") in
    if keys_fit status f
    then validate_common status (attempts_from (JsMap.get f "attempts"))
        (safe_of (JsMap.get f "updatedAt")) session_id f
    else none

unfoldable pub field {ℓ} : {A : Type ℓ} → String → (A → Json) → Option A → JsMap Json
field key write none = []
field key write (some a) = (key, write a) ∷ []

-- `canonicalState`, before it is printed
unfoldable pub canonical : SessionTitleState → JsMap Json
canonical s =
    ("version", number 1)
      ∷ ("sessionId", text s.session_id)
      ∷ ("status", text (status_text s.status))
      ∷ ("attempts", number s.attempts)
      ∷ field "title" text s.title
    ++ field "phase" (λ p. text (phase_text p)) s.phase
    ++ field "reason" (λ r. text (reason_text r)) s.reason
    ++ field "retryAt" number s.retry_at
    ++ ("updatedAt", number s.updated_at) ∷ []
