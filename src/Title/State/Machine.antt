-- ===== src/Title/State/Machine.antt =====
-- Sequences of operations on the file of one session.
pub mod Updates
pub mod Steps
pub mod Runs
use claude_code_telegram_kit.Prelude.{
  ℕ, zero, suc, ◌+◌, ◌-◌, ◌*◌, ◌/◌, ◌%◌, ◌^◌, ◌≤◌, ◌<◌, String, Option, none, some, Bool, true,
  false, not, ◌&&◌, ◌||◌, ◌≡◌, ◌≢◌, ◌⊎◌, ◌↔◌, refl, sym, ap, ◌∙◌, inl, inr, List, [], ◌∷◌, ◌++◌,
  map, append-nil, append_assoc, arith, str_eq, eq_iff, eq_refl, if◌then◌else◌, ltb, leb, ◌==◌,
  Bool-cases, Option-cases, length, length-append, length-map, is_some, any, all, All, get_elem?,
  utf16_length, utf16_length-append, utf16_length-join_lines, utf16_length-decimal, joined_length,
  joined_length-append, join_lines, decimal, ◌<>◌, max, min,
}
use claude_code_telegram_kit.Prelude.JsMap
use claude_code_telegram_kit.Prelude.JsMap.{JsMap}
use claude_code_telegram_kit.Prelude.Json.{
  Json, null_value, other_number, composite, boolean, number, text, max_safe_integer, text_of,
  safe_of, text_field,
}
use claude_code_telegram_kit.Prelude.Uuid.{
  codes, Class, hex, dash, four, variant, in_class, matches, is_uuid,
}
use claude_code_telegram_kit.Title.State.{
  max_title_chars, Status, claimed, auto_applied, failed, user_locked, FailurePhase, generate,
  parse, rename, readback, lock, FailureReason, timeout, command_failed, invalid_output,
  rename_failed, readback_failed, lock_failed, state_failed, SessionTitleState, is_retryable,
  is_valid_tuple, is_control, is_title, status_text, status_from, phase_text, phase_from,
  reason_text, reason_from, base_keys, allowed_keys, has_diagnostics, required_keys, keys_fit,
  attempts_from, is_version, is_text, plain_state, with_title, with_failure, phase_field,
  reason_field, status_field, validate_details, validate_common, validate, field, canonical,
}
use claude_code_telegram_kit.Title.State.Store.{
  Leaf, missing, unreadable, holds, Outcome, thrown, returned, Read, refused, nothing, found,
  validated, read_leaf, read_state, update, claim, Failure, is_claimed, is_failed, completed,
  complete, describe_failure, failed_with, fail, retry_is_due, retried, retry, locked, lock_title,
}
use claude_code_telegram_kit.Title.State.Roundtrip.{HasDetails, IsValid, validate-canonical}

-- the operations, with the times that they read
pub data TitleEvent : Type 0 where
  claims : ℕ → TitleEvent
  completes : String → ℕ → TitleEvent
  fails : Failure → ℕ → TitleEvent
  retries : ℕ → ℕ → TitleEvent
  locks : String → ℕ → TitleEvent

unfoldable pub apply : String → TitleEvent → Leaf → Leaf × Outcome
apply id (claims now) leaf = claim id now leaf
apply id (completes title now) leaf = complete id title now leaf
apply id (fails failure now) leaf = fail id failure now leaf
apply id (retries due now) leaf = retry id due now leaf
apply id (locks title now) leaf = lock_title id title now leaf

-- the event gives the right to generate a title
unfoldable pub grants : TitleEvent → Outcome → ℕ
grants (claims now) (returned true) = 1
grants (retries due now) (returned true) = 1
grants _ _ = 0

-- a run counts the rights that it gives
unfoldable pub run : String → List TitleEvent → Leaf × ℕ → Leaf × ℕ
run id [] state = state
run id (e ∷ es) (leaf, n) = let after = apply id e leaf in run id es (after.0, n + grants e after.1)

-- what a failure may say, and when a retry may be asked for
abbrev pub IsSane : Failure → Type 0
IsSane f = HasDetails failed none f.phase f.reason f.retry_at 1

abbrev pub IsTimely : TitleEvent → Type 0
IsTimely (claims now) = now ≤ max_safe_integer
IsTimely (completes title now) = now ≤ max_safe_integer
IsTimely (fails failure now) = (now ≤ max_safe_integer) × IsSane failure
IsTimely (retries due now) = now ≤ max_safe_integer
IsTimely (locks title now) = now ≤ max_safe_integer

-- the rights that a record stands for
unfoldable pub Spent : Status → ℕ → ℕ → Type 0
Spent user_locked attempts n = n ≤ 2
Spent _ attempts n = n ≡ attempts

-- the file is missing, or holds a valid record of the session
pub data IsKept (id : String) : Leaf → ℕ → Type 0 where
  fresh : IsKept id missing 0
  kept :
      (s : SessionTitleState) (n : ℕ)
      → IsValid s
      → s.session_id ≡ id
      → Spent s.status s.attempts n
      → IsKept id (holds (canonical s)) n
