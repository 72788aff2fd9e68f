-- ===== src/Control/Tests.antt =====
-- The theorems on challenges at concrete inputs.
use claude_code_telegram_kit.Prelude.{
  ℕ, zero, suc, ◌+◌, ◌-◌, ◌*◌, ◌/◌, ◌%◌, ◌^◌, ◌≤◌, ◌<◌, String, Option, none, some, Bool, true,
  false, not, ◌&&◌, ◌||◌, ◌≡◌, ◌≢◌, ◌⊎◌, ◌↔◌, refl, sym, ap, ◌∙◌, inl, inr, List, [], ◌∷◌, ◌++◌,
  map, append-nil, append_assoc, arith, str_eq, eq_iff, eq_refl, if◌then◌else◌, ltb, leb, ◌==◌,
  Bool-cases, Option-cases, length, length-append, length-map, is_some, any, all, All, get_elem?,
  utf16_length, utf16_length-append, utf16_length-join_lines, utf16_length-decimal, joined_length,
  joined_length-append, join_lines, decimal, ◌<>◌, max, min,
}
use claude_code_telegram_kit.Prelude.JsMap
use claude_code_telegram_kit.Control.Challenge.{
  confirmation_code_length, control_challenge_ttl_ms, control_chat_id_max_length, code_alphabet,
  ControlAction, reset, resume, ConfirmationAction, ConfirmationChallenge, Store, same_action,
  contains, in_alphabet, is_code, is_chat_id, is_valid_index, is_valid_action, char_at, symbol,
  code_of, challenge_of, issue_code, issue, Consumed, threw, nothing, confirmed, action_of,
  has_index, is_answered, consume_found, consume,
}
use claude_code_telegram_kit.Control.Challenge.Confirmed.{consume-issue}
use claude_code_telegram_kit.Control.Challenge.Once.{Event, issues, consumes, Counts, run, run_once}

abbrev wish : ConfirmationAction
wish = record {
  action = resume;
  index = some 3;
  session_id = "00000000-0000-4000-8000-000000000001";
}

abbrev bytes : List ℕ
bytes = 0 ∷ 1 ∷ 2 ∷ 33 ∷ 34 ∷ 255 ∷ []

abbrev asked : Store × Option ConfirmationChallenge
asked = issue [] "42" wish bytes 1000

abbrev challenge : ConfirmationChallenge
challenge = record {
  action = resume;
  index = some 3;
  session_id = "00000000-0000-4000-8000-000000000001";
  code = "23434Z";
  expires_at = 61000;
}

abbrev events : List Event
events =
    issues "42" wish bytes 1000
    ∷ consumes "42" resume "23434Z" wish.session_id none 2000
    ∷ consumes "42" resume "23434Z" wish.session_id none 2001
    ∷ []

runs_test :
    (asked.1 ≡ some challenge)
    × ((run "42" [] events).confirmations ≡ 1)
    × ((run "42" [] events).challenges ≡ 1)
unfolding claude_code_telegram_kit.Prelude.JsMap.get claude_code_telegram_kit.Prelude.JsMap.put
    claude_code_telegram_kit.Prelude.JsMap.delete claude_code_telegram_kit.Prelude.Uuid.codes
    claude_code_telegram_kit.Prelude.Uuid.in_class claude_code_telegram_kit.Prelude.Uuid.matches
    claude_code_telegram_kit.Prelude.Uuid.is_uuid
    claude_code_telegram_kit.Control.Challenge.same_action
    claude_code_telegram_kit.Control.Challenge.contains
    claude_code_telegram_kit.Control.Challenge.in_alphabet
    claude_code_telegram_kit.Control.Challenge.is_code
    claude_code_telegram_kit.Control.Challenge.is_chat_id
    claude_code_telegram_kit.Control.Challenge.is_valid_index
    claude_code_telegram_kit.Control.Challenge.is_valid_action
    claude_code_telegram_kit.Control.Challenge.char_at
    claude_code_telegram_kit.Control.Challenge.code_of
    claude_code_telegram_kit.Control.Challenge.challenge_of
    claude_code_telegram_kit.Control.Challenge.issue_code
    claude_code_telegram_kit.Control.Challenge.issue
    claude_code_telegram_kit.Control.Challenge.action_of
    claude_code_telegram_kit.Control.Challenge.has_index
    claude_code_telegram_kit.Control.Challenge.is_answered
    claude_code_telegram_kit.Control.Challenge.consume_found
    claude_code_telegram_kit.Control.Challenge.consume
    claude_code_telegram_kit.Control.Challenge.Once.step run utf16_length
runs_test = (refl, refl, refl)

consume-issue_example :
    ((consume asked.0 "42" resume challenge.code wish.session_id wish.index 60999).1
      ≡ confirmed wish)
    × (JsMap.get
          (consume asked.0 "42" resume challenge.code wish.session_id wish.index 60999).0
          "42"
        ≡ none)
consume-issue_example =
    consume-issue [] "42" wish bytes 1000 60999 challenge (runs_test.0) (omega arith)

run_once_example : (run "42" [] events).confirmations ≤ (run "42" [] events).challenges
run_once_example = run_once "42" events
