-- ===== src/Title/State/Machine/Steps.antt =====
-- Each operation keeps the file of a session in order and spends no more rights than it gives.
use claude_code_telegram_kit.Prelude.{
  ℕ, ◌+◌, ◌≤◌, String, Option, none, some, true, false, ◌&&◌, ◌≡◌, ◌⊎◌, refl, ◌∙◌, inl, inr, arith,
  ◌==◌, Bool-cases,
}
use claude_code_telegram_kit.Prelude.Json.{max_safe_integer}
use claude_code_telegram_kit.Prelude.Uuid.{is_uuid}
use claude_code_telegram_kit.Title.State.{
  claimed, failed, FailurePhase, FailureReason, SessionTitleState, is_title, plain_state, canonical,
}
use claude_code_telegram_kit.Title.State.Store.{
  Leaf, holds, Outcome, thrown, returned, read_leaf, update, claim, Failure, is_claimed, is_failed,
  completed, complete, describe_failure, failed_with, fail, retry_is_due, retried, retry, locked,
  lock_title,
}
use claude_code_telegram_kit.Title.State.Roundtrip.{HasDetails, IsValid}
use claude_code_telegram_kit.Title.State.Machine.{
  TitleEvent, claims, completes, fails, retries, locks, apply, grants, IsSane, IsTimely, Spent,
  IsKept, fresh, kept,
}
use claude_code_telegram_kit.Title.State.Machine.Updates.{
  read_kept, Keeps, gained, n_plus_0, update-IsKept,
}

completed-Keeps :
    (id title : String) (now n : ℕ) (s : SessionTitleState)
    → is_title title ≡ true
    → now ≤ max_safe_integer
    → IsValid s
    → s.session_id ≡ id
    → Spent s.status s.attempts n
    → Keeps id (completed title now s) 0 n
unfolding completed is_claimed Spent
completed-Keeps id title now n s good c v e g = elim (Bool-cases (is_claimed s.status)) [
  | inl holds_now ↦
      rw holds_now (record { tries = v.tries; clock = c; details = good }, e, ground arith)
  | inr fails_now ↦ rw fails_now tt
]

described-IsValid :
    (id : String) (n now : ℕ) (phase : Option FailurePhase) (reason : Option FailureReason)
    (at : Option ℕ)
    → (n ≡ 1) ⊎ (n ≡ 2)
    → now ≤ max_safe_integer
    → HasDetails failed none phase reason at 1
    → let f : Failure = record { phase = phase; reason = reason; retry_at = at } in
      let s = describe_failure n f (plain_state id failed n now) in
      IsValid s × (s.session_id ≡ id) × (s.status ≡ failed) × (s.attempts ≡ n)
unfolding describe_failure
described-IsValid id n now none none none t c d =
    (record { tries = t; clock = c; details = tt }, refl, refl, refl)
described-IsValid id n now none none (some at) t c d = elim d [ ]
described-IsValid id n now none (some reason) at t c d = elim d [ ]
described-IsValid id n now (some phase) none at t c d = elim d [ ]
described-IsValid id n now (some phase) (some reason) none t c d =
    (record { tries = t; clock = c; details = ground arith }, refl, refl, refl)
described-IsValid id n now (some phase) (some reason) (some at) (inl one) c (good, again, safe, _) =
    (
      record { tries = inl one; clock = c; details = rw one (good, again, safe, refl) },
      refl,
      refl,
      refl,
    )
described-IsValid id n now (some phase) (some reason) (some at) (inr two) c (good, again, safe, _) =
    (record { tries = inr two; clock = c; details = rw two good }, refl, refl, refl)

failed_with-Keeps :
    (id : String) (failure : Failure) (now n : ℕ) (s : SessionTitleState)
    → IsSane failure
    → now ≤ max_safe_integer
    → IsValid s
    → s.session_id ≡ id
    → Spent s.status s.attempts n
    → Keeps id (failed_with failure now s) 0 n
unfolding failed_with is_claimed Spent describe_failure
failed_with-Keeps id failure now n s sane c v e g =
    let (valid, same_id, is_failed_now, same_attempts) =
      described-IsValid s.session_id s.attempts now failure.phase failure.reason failure.retry_at
        v.tries c sane in
    elim (Bool-cases (is_claimed s.status)) [
      | inl holds_now ↦
          rw holds_now (valid, same_id ∙ e, rw (is_failed_now, same_attempts, Spent) (ground arith))
      | inr fails_now ↦ rw fails_now tt
    ]

retried-Keeps :
    (id : String) (due now n : ℕ) (s : SessionTitleState)
    → now ≤ max_safe_integer
    → IsValid s
    → s.session_id ≡ id
    → Spent s.status s.attempts n
    → Keeps id (retried due now s) 1 n
unfolding retried is_failed Spent
retried-Keeps id due now n s c v e g =
    let again =
      is_failed s.status && s.attempts == 1 && retry_is_due s.phase s.reason s.retry_at due in
    elim (Bool-cases again) [
      | inl holds_now ↦
          rw holds_now (record { tries = inr refl; clock = c; details = tt }, e, ground arith)
      | inr fails_now ↦ rw fails_now tt
    ]

gained_nothing : (o : Outcome) → gained 0 o ≡ 0
unfolding gained
gained_nothing thrown = refl
gained_nothing (returned true) = refl
gained_nothing (returned false) = refl

grants_retry : (due now : ℕ) (o : Outcome) → grants (retries due now) o ≡ gained 1 o
unfolding gained grants
grants_retry due now thrown = refl
grants_retry due now (returned true) = refl
grants_retry due now (returned false) = refl

claim-IsKept :
    (id : String) (now : ℕ) (leaf : Leaf) (n : ℕ)
    → now ≤ max_safe_integer
    → IsKept id leaf n
    → IsKept id (claim id now leaf).0 (n + grants (claims now) (claim id now leaf).1)
unfolding claim grants Spent
claim-IsKept id now _ _ c fresh = elim (Bool-cases (is_uuid id)) [
  | inl good ↦ rw good (
      kept (plain_state id claimed 1 now) 1 (record { tries = inl refl; clock = c; details = tt })
        refl refl)
  | inr bad ↦ rw bad fresh
]
claim-IsKept id now _ _ c (kept s n v e g) = elim (Bool-cases (is_uuid id)) [
  | inl good ↦ rw (good, n_plus_0 n) (kept s n v e g)
  | inr bad ↦ rw (bad, n_plus_0 n) (kept s n v e g)
]

pub Spent-bound : (s : SessionTitleState) (n : ℕ) → IsValid s → Spent s.status s.attempts n → n ≤ 2
unfolding Spent
Spent-bound s n v g = ground (arith, v.tries)

lock-IsKept :
    (id title : String) (now : ℕ) (leaf : Leaf) (n : ℕ)
    → now ≤ max_safe_integer
    → IsKept id leaf n
    → IsKept id (lock_title id title now leaf).0 n
unfolding lock_title Spent
lock-IsKept id title now leaf n c k = elim (Bool-cases (is_title title)) [
  | inr bad ↦ rw bad k
  | inl good ↦ elim (Bool-cases (is_uuid id)) [
    | inr wrong ↦ rw (good, wrong) k
    | inl right ↦ known good right leaf n k
  ]
]
  where
    replaced :
        is_title title ≡ true
        → (n : ℕ) → n ≤ 2
        → IsKept id (holds (canonical (locked id title now))) n
    replaced good n few =
        kept (locked id title now) n (record { tries = inl refl; clock = c; details = good }) refl
          few

    known :
        is_title title ≡ true
        → is_uuid id ≡ true
        → (leaf : Leaf) (n : ℕ) → IsKept id leaf n
        → IsKept id (lock_title id title now leaf).0 n
    known good u _ _ fresh = rw (good, u) (unfold read_leaf in replaced good 0 (omega arith))
    known good u _ _ (kept s n v e g) =
        rw (good, u, read_kept id s v e, lock_title) (replaced good n (Spent-bound s n v g))

pub apply-IsKept :
    (id : String) (event : TitleEvent) (leaf : Leaf) (n : ℕ)
    → IsTimely event
    → IsKept id leaf n
    → IsKept id (apply id event leaf).0 (n + grants event (apply id event leaf).1)
unfolding apply complete fail retry
apply-IsKept id (claims now) leaf n c k = claim-IsKept id now leaf n c k
apply-IsKept id (completes title now) leaf n c k = elim (Bool-cases (is_title title)) [
  | inl good ↦
      let o = update id (completed title now) leaf in
      let k' : IsKept id o.0 (n + gained 0 o.1) =
        update-IsKept id (completed title now) 0 leaf n
          (λ s v e g. completed-Keeps id title now n s good c v e g) k in
      rw good (unfold grants in rw (gained_nothing o.1) at k')
  | inr bad ↦ rw bad (unfold grants in rw (n_plus_0 n) k)
]
apply-IsKept id (fails failure now) leaf n (c, sane) k =
    let o = update id (failed_with failure now) leaf in
    let k' : IsKept id o.0 (n + gained 0 o.1) =
      update-IsKept id (failed_with failure now) 0 leaf n
        (λ s v e g. failed_with-Keeps id failure now n s sane c v e g) k in
    unfold grants in rw (gained_nothing o.1) at k'
apply-IsKept id (retries due now) leaf n c k = rw (grants_retry due now (retry id due now leaf).1) (
    update-IsKept id (retried due now) 1 leaf n (λ s v e g. retried-Keeps id due now n s c v e g) k)
apply-IsKept id (locks title now) leaf n c k =
    unfold grants in rw (n_plus_0 n) (lock-IsKept id title now leaf n c k)
