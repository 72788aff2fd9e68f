-- ===== src/Title/Tests.antt =====
-- The theorems on titles at concrete inputs.
use claude_code_telegram_kit.Prelude.{
  ◌≤◌, String, none, some, true, ◌≡◌, ◌≢◌, refl, inl, List, [], ◌∷◌, arith,
}
use claude_code_telegram_kit.Prelude.Uuid.{codes, is_uuid}
use claude_code_telegram_kit.Title.State.{
  failed, generate, timeout, SessionTitleState, is_retryable, is_valid_tuple, is_control, is_title,
  validate, canonical,
}
use claude_code_telegram_kit.Title.State.Store.{missing, holds, read_state, Failure, locked}
use claude_code_telegram_kit.Title.State.Roundtrip.{IsValid, validate-canonical}
use claude_code_telegram_kit.Title.State.Soundness.{validate-IsValid}
use claude_code_telegram_kit.Title.State.Machine.{TitleEvent, claims, fails, retries, run}
use claude_code_telegram_kit.Title.State.Machine.Runs.{run_lem, run_of_locked}

abbrev id : String
id = "11111111-1111-4111-8111-111111111111"

abbrev timed_out : SessionTitleState
timed_out = record {
  session_id = id;
  status = failed;
  attempts = 1;
  title = none;
  phase = some generate;
  reason = some timeout;
  retry_at = some 2000;
  updated_at = 1000;
}

abbrev named : SessionTitleState
named = locked id "Notes" 1000

timed_out-IsValid : IsValid timed_out
unfolding is_valid_tuple is_retryable
timed_out-IsValid = record {
  tries = inl refl;
  clock = omega arith;
  details = (refl, refl, omega arith, refl);
}

named-IsValid : IsValid named
unfolding is_title is_control codes
named-IsValid = record { tries = inl refl; clock = omega arith; details = refl }

validate-canonical_example : validate (canonical timed_out) id ≡ some timed_out
validate-canonical_example = validate-canonical timed_out timed_out-IsValid

validate-IsValid_example : IsValid timed_out × (timed_out.session_id ≡ id)
validate-IsValid_example =
    validate-IsValid (canonical timed_out) id timed_out
      (validate-canonical timed_out timed_out-IsValid)

abbrev time_out : Failure
time_out = record { phase = some generate; reason = some timeout; retry_at = some 2000 }

abbrev events : List TitleEvent
events = claims 1000 ∷ fails time_out 1500 ∷ retries 2500 2501 ∷ claims 3000 ∷ []

id-is_uuid : is_uuid id ≡ true
unfolding is_uuid
id-is_uuid = refl

run_lem_example :
    ((run id events (missing, 0)).1 ≤ 2) × (read_state id (run id events (missing, 0)).0 ≢ none)
unfolding is_valid_tuple is_retryable
run_lem_example = run_lem id events id-is_uuid (
  omega arith,
  ((omega arith, (refl, refl, omega arith, refl)), (omega arith, (omega arith, tt))),
)

run_of_locked_example : (run id events (holds (canonical named), 0)).0 ≡ holds (canonical named)
run_of_locked_example =
    run_of_locked id events named 0 named-IsValid refl refl (tt, (tt, (tt, (tt, tt))))
