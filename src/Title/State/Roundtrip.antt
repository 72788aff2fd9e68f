-- ===== src/Title/State/Roundtrip.antt =====
-- A record of a title is written and read back as it was.
use claude_code_telegram_kit.Prelude.{
  ℕ, ◌≤◌, String, Option, none, some, true, ◌≡◌, ◌⊎◌, refl, arith, eq_refl, leb,
}
use claude_code_telegram_kit.Prelude.JsMap
use claude_code_telegram_kit.Prelude.JsMap.{JsMap}
use claude_code_telegram_kit.Prelude.JsSet
use claude_code_telegram_kit.Prelude.Json.{number, max_safe_integer, text_of, safe_of, text_field}
use claude_code_telegram_kit.Title.State.{
  Status, claimed, auto_applied, failed, user_locked, FailurePhase, generate, parse, rename,
  readback, lock, FailureReason, timeout, command_failed, invalid_output, rename_failed,
  readback_failed, lock_failed, state_failed, SessionTitleState, is_retryable, is_valid_tuple,
  is_title, status_text, status_from, phase_text, phase_from, reason_text, reason_from,
  allowed_keys, has_diagnostics, required_keys, keys_fit, attempts_from, is_version, is_text,
  with_title, with_failure, phase_field, reason_field, status_field, validate_details,
  validate_common, validate, field, canonical,
}

abbrev IsSafe : Option ℕ → Type 0
IsSafe none = Unit
IsSafe (some n) = n ≤ max_safe_integer

-- which details a status has
abbrev pub HasDetails :
    Status → Option String → Option FailurePhase → Option FailureReason → Option ℕ → ℕ → Type 0
HasDetails claimed none none none none n = Unit
HasDetails auto_applied (some title) none none none n = is_title title ≡ true
HasDetails user_locked (some title) none none none n = is_title title ≡ true
HasDetails failed none none none none n = Unit
HasDetails failed none (some phase) (some reason) none n = is_valid_tuple phase reason ≡ true
HasDetails failed none (some phase) (some reason) (some at) n =
    (is_valid_tuple phase reason ≡ true)
    × (is_retryable phase reason ≡ true)
    × (at ≤ max_safe_integer)
    × (n ≡ 1)
HasDetails _ _ _ _ _ n = ⊥

pub record IsValid (s : SessionTitleState) : Type 0 where
  pub tries : (s.attempts ≡ 1) ⊎ (s.attempts ≡ 2)
  pub clock : s.updated_at ≤ max_safe_integer
  pub details : HasDetails s.status s.title s.phase s.reason s.retry_at s.attempts

le→leb : (a b : ℕ) → a ≤ b → leb a b ≡ true
le→leb a b h = ground arith

attempts_lem : (n : ℕ) → (n ≡ 1) ⊎ (n ≡ 2) → attempts_from (some (number n)) ≡ some n
unfolding attempts_from
attempts_lem n h = ground arith

phase_from-text : (p : FailurePhase) → phase_from (phase_text p) ≡ some p
unfolding phase_from phase_text
phase_from-text generate = refl
phase_from-text parse = refl
phase_from-text rename = refl
phase_from-text readback = refl
phase_from-text lock = refl

reason_from-text : (r : FailureReason) → reason_from (reason_text r) ≡ some r
unfolding reason_from reason_text
reason_from-text timeout = refl
reason_from-text command_failed = refl
reason_from-text invalid_output = refl
reason_from-text rename_failed = refl
reason_from-text readback_failed = refl
reason_from-text lock_failed = refl
reason_from-text state_failed = refl

write-read :
    (id : String) (status : Status) (n : ℕ) (title : Option String) (phase : Option FailurePhase)
    (reason : Option FailureReason) (at : Option ℕ) (now : ℕ)
    → attempts_from (some (number n)) ≡ some n
    → leb now max_safe_integer ≡ true
    → HasDetails status title phase reason at n
    → validate
        (canonical (record {
          session_id = id;
          status = status;
          attempts = n;
          title = title;
          phase = phase;
          reason = reason;
          retry_at = at;
          updated_at = now;
        }))
        id
      ≡ some (record {
        session_id = id;
        status = status;
        attempts = n;
        title = title;
        phase = phase;
        reason = reason;
        retry_at = at;
        updated_at = now;
      })
unfolding validate canonical keys_fit validate_common validate_details text_field text_of
    status_field status_from status_text allowed_keys required_keys has_diagnostics JsMap.get
    JsMap.keys JsSet.has field safe_of is_version is_text with_title with_failure phase_field
    reason_field
write-read id claimed n none none none none now a c d = rw (a, c, eq_refl id) refl
write-read id auto_applied n (some title) none none none now a c d = rw (a, c, eq_refl id, d) refl
write-read id user_locked n (some title) none none none now a c d = rw (a, c, eq_refl id, d) refl
write-read id failed n none none none none now a c d = rw (a, c, eq_refl id) refl
write-read id failed n none (some phase) (some reason) none now a c d =
    rw (a, c, eq_refl id, phase_from-text phase, reason_from-text reason, d) refl
write-read id failed n none (some phase) (some reason) (some at) now a c (t, r, m, one) =
    rw (a, c, eq_refl id, phase_from-text phase, reason_from-text reason)
      (rw (le→leb at max_safe_integer m, t, r, one, with_failure) refl)
write-read id claimed n none none none (some at) now a c d = elim d [ ]
write-read id claimed n none none (some reason) at now a c d = elim d [ ]
write-read id claimed n none (some phase) reason at now a c d = elim d [ ]
write-read id claimed n (some title) phase reason at now a c d = elim d [ ]
write-read id auto_applied n none phase reason at now a c d = elim d [ ]
write-read id auto_applied n (some title) none none (some at) now a c d = elim d [ ]
write-read id auto_applied n (some title) none (some reason) at now a c d = elim d [ ]
write-read id auto_applied n (some title) (some phase) reason at now a c d = elim d [ ]
write-read id failed n none none none (some at) now a c d = elim d [ ]
write-read id failed n none none (some reason) at now a c d = elim d [ ]
write-read id failed n none (some phase) none at now a c d = elim d [ ]
write-read id failed n (some title) phase reason at now a c d = elim d [ ]
write-read id user_locked n none phase reason at now a c d = elim d [ ]
write-read id user_locked n (some title) none none (some at) now a c d = elim d [ ]
write-read id user_locked n (some title) none (some reason) at now a c d = elim d [ ]
write-read id user_locked n (some title) (some phase) reason at now a c d = elim d [ ]

-- A valid record that is written as JSON is accepted for its session and read back as it was.
pub validate-canonical :
    (s : SessionTitleState) → IsValid s → validate (canonical s) s.session_id ≡ some s
validate-canonical s v =
    write-read s.session_id s.status s.attempts s.title s.phase s.reason s.retry_at s.updated_at
      (attempts_lem s.attempts v.tries) (le→leb s.updated_at max_safe_integer v.clock) v.details
