-- ===== src/Title/State/Soundness.antt =====
-- Only valid records are accepted.
use claude_code_telegram_kit.Prelude.{
  ℕ, ◌≤◌, String, Option, none, some, not, ◌&&◌, ◌≡◌, ◌⊎◌, refl, inl, inr, arith, ◌==◌, Bool-cases,
}
use claude_code_telegram_kit.Prelude.JsMap
use claude_code_telegram_kit.Prelude.JsMap.{JsMap}
use claude_code_telegram_kit.Prelude.Json.{Json, max_safe_integer, safe_of, text_field}
use claude_code_telegram_kit.Title.State.{
  Status, claimed, auto_applied, failed, user_locked, FailurePhase, FailureReason,
  SessionTitleState, is_retryable, is_valid_tuple, is_title, has_diagnostics, keys_fit,
  attempts_from, is_version, is_text, plain_state, with_title, with_failure, phase_field,
  reason_field, status_field, validate_details, validate_common, validate,
}
use claude_code_telegram_kit.Title.State.Roundtrip.{IsValid}

attempts_tries : (v : Option Json) (n : ℕ) → attempts_from v ≡ some n → (n ≡ 1) ⊎ (n ≡ 2)
unfolding attempts_from
attempts_tries v n h = ground arith

safe_bound : (v : Option Json) (n : ℕ) → safe_of v ≡ some n → n ≤ max_safe_integer
unfolding safe_of
safe_bound v n h = ground arith

-- a result that is valid and for the session, if there is one
abbrev IsSound : String → Option SessionTitleState → Type 0
IsSound id none = Unit
IsSound id (some s) = IsValid s × (s.session_id ≡ id)

module _ (id : String) (n now : ℕ) (t : (n ≡ 1) ⊎ (n ≡ 2)) (c : now ≤ max_safe_integer) where
  applied-IsSound :
      (title : Option String) → IsSound id (with_title (plain_state id auto_applied n now) title)
  unfolding with_title
  applied-IsSound none = tt
  applied-IsSound (some title) = elim (Bool-cases (is_title title)) [
    | inl good ↦ rw good (record { tries = t; clock = c; details = good }, refl)
    | inr bad ↦ rw bad tt
  ]

  locked-IsSound :
      (title : Option String) → IsSound id (with_title (plain_state id user_locked n now) title)
  unfolding with_title
  locked-IsSound none = tt
  locked-IsSound (some title) = elim (Bool-cases (is_title title)) [
    | inl good ↦ rw good (record { tries = t; clock = c; details = good }, refl)
    | inr bad ↦ rw bad tt
  ]

  retry-IsSound :
      (phase : FailurePhase) (reason : FailureReason) (at : Option ℕ) (v : Json)
      → safe_of (some v) ≡ at
      → IsSound id (with_failure (plain_state id failed n now) (some phase) (some reason) (some v))
  unfolding with_failure
  retry-IsSound phase reason none v e = rw (e, with_failure) tt
  retry-IsSound phase reason (some ms) v e =
      let ok = is_valid_tuple phase reason && is_retryable phase reason && not (n == 2) in
      rw (e, with_failure)
        (elim (Bool-cases ok) [
          | inl good ↦ rw good (
            record {
              tries = t;
              clock = c;
              details = (ground arith, ground arith, safe_bound (some v) ms e, ground arith);
            },
            refl,
          )
          | inr bad ↦ rw bad tt
        ])

  failure-IsSound :
      (phase : Option FailurePhase) (reason : Option FailureReason) (at : Option Json)
      → IsSound id (with_failure (plain_state id failed n now) phase reason at)
  unfolding with_failure
  failure-IsSound none reason at = tt
  failure-IsSound (some phase) none at = tt
  failure-IsSound (some phase) (some reason) none =
      elim (Bool-cases (is_valid_tuple phase reason)) [
        | inl good ↦ rw good (record { tries = t; clock = c; details = good }, refl)
        | inr bad ↦ rw bad tt
      ]
  failure-IsSound (some phase) (some reason) (some v) =
      retry-IsSound phase reason (safe_of (some v)) v refl

  details-IsSound :
      (status : Status) (f : JsMap Json)
      → IsSound id (validate_details (plain_state id status n now) f)
  unfolding validate_details
  details-IsSound claimed f = (record { tries = t; clock = c; details = tt }, refl)
  details-IsSound auto_applied f = applied-IsSound (text_field f "title")
  details-IsSound user_locked f = locked-IsSound (text_field f "title")
  details-IsSound failed f = elim (Bool-cases (has_diagnostics f)) [
    | inl described ↦ rw described (
        failure-IsSound (phase_field (text_field f "phase")) (reason_field (text_field f "reason"))
          (JsMap.get f "retryAt"))
    | inr bare ↦ rw bare (record { tries = t; clock = c; details = tt }, refl)
  ]

common-IsSound :
    (status : Option Status) (attempts updated_at : Option ℕ) (id : String) (f : JsMap Json)
    → ((n : ℕ) → attempts ≡ some n → (n ≡ 1) ⊎ (n ≡ 2))
    → ((n : ℕ) → updated_at ≡ some n → n ≤ max_safe_integer)
    → IsSound id (validate_common status attempts updated_at id f)
unfolding validate_common
common-IsSound none attempts updated_at id f t c = tt
common-IsSound (some status) none updated_at id f t c = tt
common-IsSound (some status) (some n) none id f t c = tt
common-IsSound (some status) (some n) (some now) id f t c =
    elim (Bool-cases
      (is_version (JsMap.get f "version") && is_text (text_field f "sessionId") id)) [
        | inl good ↦ rw good (details-IsSound id n now (t n refl) (c now refl) status f)
        | inr bad ↦ rw bad tt
      ]

validate-IsSound : (f : JsMap Json) (id : String) → IsSound id (validate f id)
unfolding validate
validate-IsSound f id =
    let status = status_field (text_field f "status") in
    elim (Bool-cases (keys_fit status f)) [
      | inl good ↦ rw good (
          common-IsSound status (attempts_from (JsMap.get f "attempts"))
            (safe_of (JsMap.get f "updatedAt")) id f (attempts_tries (JsMap.get f "attempts"))
            (safe_bound (JsMap.get f "updatedAt")))
      | inr bad ↦ rw bad tt
    ]

-- Whatever object is read, a record that is accepted is valid and belongs to the session: it has
-- one or two attempts, the details of its status and no others, and a retry only for a first
-- attempt that failed in a way that may be repeated.
pub validate-IsValid :
    (f : JsMap Json) (id : String) (s : SessionTitleState)
    → validate f id ≡ some s
    → IsValid s × (s.session_id ≡ id)
validate-IsValid f id s e = rw e at (validate-IsSound f id)
