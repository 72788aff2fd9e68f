-- ===== src/Title/State/Machine/Runs.antt =====
-- What holds after any sequence of operations on the file of a session.
use claude_code_telegram_kit.Prelude.{
  ℕ, ◌+◌, ◌≤◌, String, Option, none, true, ◌≡◌, ◌≢◌, refl, inl, inr, List, [], ◌∷◌, arith,
  Bool-cases, All,
}
use claude_code_telegram_kit.Prelude.Uuid.{is_uuid}
use claude_code_telegram_kit.Title.State.{user_locked, SessionTitleState, is_title, canonical}
use claude_code_telegram_kit.Title.State.Store.{
  Leaf, missing, holds, read_leaf, read_state, update, claim, is_claimed, is_failed, completed,
  complete, failed_with, fail, retried, retry,
}
use claude_code_telegram_kit.Title.State.Roundtrip.{IsValid}
use claude_code_telegram_kit.Title.State.Machine.{
  TitleEvent, claims, completes, fails, retries, locks, apply, grants, run, IsTimely, IsKept, fresh,
  kept,
}
use claude_code_telegram_kit.Title.State.Machine.Updates.{read_kept}
use claude_code_telegram_kit.Title.State.Machine.Steps.{Spent-bound, apply-IsKept}

run-IsKept :
    (id : String) (es : List TitleEvent) (leaf : Leaf) (n : ℕ)
    → All IsTimely es
    → IsKept id leaf n
    → IsKept id (run id es (leaf, n)).0 (run id es (leaf, n)).1
unfolding run
run-IsKept id [] leaf n all_timely k = k
run-IsKept id (e ∷ es) leaf n (timely, all_timely) k =
    run-IsKept id es (apply id e leaf).0 (n + grants e (apply id e leaf).1) all_timely
      (apply-IsKept id e leaf n timely k)

kept_bound : (id : String) (leaf : Leaf) (n : ℕ) → IsKept id leaf n → n ≤ 2
kept_bound id _ _ fresh = omega arith
kept_bound id _ _ (kept s n v e g) = Spent-bound s n v g

kept_reads :
    (id : String) (leaf : Leaf) (n : ℕ)
    → is_uuid id ≡ true
    → IsKept id leaf n
    → read_state id leaf ≢ none
unfolding read_state read_leaf
kept_reads id _ _ u fresh = rw u (λ e. cc)
kept_reads id _ _ u (kept s n v e g) = rw (u, read_kept id s v e, read_state) (λ r. cc)

-- For a session id, from a missing file, whatever operations follow, if their times are safe
-- integers and each failure describes itself consistently: at most two of them give the right to
-- generate a title, and the file can be read afterwards.
pub run_lem :
    (id : String) (es : List TitleEvent)
    → is_uuid id ≡ true
    → All IsTimely es
    → ((run id es (missing, 0)).1 ≤ 2) × (read_state id (run id es (missing, 0)).0 ≢ none)
run_lem id es u timely =
    let k = run-IsKept id es missing 0 timely fresh in
    (
      kept_bound id (run id es (missing, 0)).0 (run id es (missing, 0)).1 k,
      kept_reads id (run id es (missing, 0)).0 (run id es (missing, 0)).1 u k,
    )

abbrev pub IsAutomatic : TitleEvent → Type 0
IsAutomatic (locks title now) = ⊥
IsAutomatic _ = Unit

update_stays :
    (id : String) (next : SessionTitleState → Option SessionTitleState) (s : SessionTitleState)
    → IsValid s
    → s.session_id ≡ id
    → next s ≡ none
    → (update id next (holds (canonical s))).0 ≡ holds (canonical s)
unfolding update
update_stays id next s v e stays = elim (Bool-cases (is_uuid id)) [
  | inl good ↦ rw (good, read_kept id s v e, update) (rw stays refl)
  | inr bad ↦ rw bad refl
]

apply_of_locked :
    (id : String) (event : TitleEvent) (s : SessionTitleState)
    → IsValid s
    → s.session_id ≡ id
    → s.status ≡ user_locked
    → IsAutomatic event
    → (apply id event (holds (canonical s))).0 ≡ holds (canonical s)
unfolding apply claim complete fail retry completed failed_with retried is_claimed is_failed
apply_of_locked id (claims now) s v e l a = elim (Bool-cases (is_uuid id)) [
  | inl good ↦ rw good refl
  | inr bad ↦ rw bad refl
]
apply_of_locked id (completes title now) s v e l a = elim (Bool-cases (is_title title)) [
  | inl good ↦ rw good (update_stays id (completed title now) s v e (rw l refl))
  | inr bad ↦ rw bad refl
]
apply_of_locked id (fails failure now) s v e l a =
    update_stays id (failed_with failure now) s v e (rw l refl)
apply_of_locked id (retries due now) s v e l a = update_stays id (retried due now) s v e (rw l refl)
apply_of_locked id (locks title now) s v e l a = elim a [ ]

-- Once the file holds a valid record that the user has locked, no automatic operation changes it.
pub run_of_locked :
    (id : String) (es : List TitleEvent) (s : SessionTitleState) (n : ℕ)
    → IsValid s
    → s.session_id ≡ id
    → s.status ≡ user_locked
    → All IsAutomatic es
    → (run id es (holds (canonical s), n)).0 ≡ holds (canonical s)
unfolding run
run_of_locked id [] s n v e l a = refl
run_of_locked id (event ∷ es) s n v e l (a, rest) =
    rw (apply_of_locked id event s v e l a, run)
      (run_of_locked id es s (n + grants event (apply id event (holds (canonical s))).1) v e l rest)
