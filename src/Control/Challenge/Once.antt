-- ===== src/Control/Challenge/Once.antt =====
-- A chat confirms no more than it was asked to.
use claude_code_telegram_kit.Prelude.{
  ℕ, ◌+◌, ◌≤◌, String, Option, none, some, Bool, true, false, not, ◌&&◌, ◌≡◌, ◌⊎◌, refl, sym, inl,
  inr, List, [], ◌∷◌, arith, str_eq, eq_iff, if◌then◌else◌, leb, Bool-cases, Option-cases, is_some,
}
use claude_code_telegram_kit.Prelude.JsMap
use claude_code_telegram_kit.Prelude.JsMap.{JsMap}
use claude_code_telegram_kit.Control.Challenge.{
  confirmation_code_length, ControlAction, ConfirmationAction, ConfirmationChallenge, Store,
  is_code, is_chat_id, is_valid_action, code_of, challenge_of, issue_code, issue, Consumed, threw,
  nothing, confirmed, has_index, is_answered, consume_found, consume,
}

pub data Event : Type 0 where
  issues : String → ConfirmationAction → List ℕ → ℕ → Event
  consumes : String → ControlAction → String → String → Option ℕ → ℕ → Event

abbrev pub is_confirmed : Consumed → Bool
is_confirmed threw = false
is_confirmed nothing = false
is_confirmed (confirmed a) = true

-- the confirmations and the challenges of one chat
pub record Counts : Type 0 where
  pub confirmations : ℕ
  pub challenges : ℕ

abbrev one_if : Bool → ℕ
one_if true = 1
one_if false = 0

abbrev issued_by : String → String → Store × Option ConfirmationChallenge → Store × Counts
issued_by key chat_id r =
    (r.0, record { confirmations = 0; challenges = one_if (str_eq chat_id key && is_some r.1) })

abbrev confirmed_by : String → String → Store × Consumed → Store × Counts
confirmed_by key chat_id r = (
  r.0,
  record { confirmations = one_if (str_eq chat_id key && is_confirmed r.1); challenges = 0 },
)

unfoldable pub step : String → Store → Event → Store × Counts
step key m (issues chat_id a bytes now) = issued_by key chat_id (issue m chat_id a bytes now)
step key m (consumes chat_id action code session_id index now) =
    confirmed_by key chat_id (consume m chat_id action code session_id index now)

unfoldable pub run : String → Store → List Event → Counts
run key m [] = record { confirmations = 0; challenges = 0 }
run key m (e ∷ events) =
    let one = step key m e in
    let rest = run key one.0 events in
    record {
      confirmations = one.1.confirmations + rest.confirmations;
      challenges = one.1.challenges + rest.challenges;
    }

abbrev waiting : Store → String → ℕ
waiting m key = one_if (is_some (JsMap.get m key))

issue_cases :
    (m : Store) (chat_id : String) (a : ConfirmationAction) (bytes : List ℕ) (now : ℕ)
    → (issue m chat_id a bytes now ≡ (m, none))
      ⊎ ((is_some (issue m chat_id a bytes now).1 ≡ true)
          × ((key : String)
              → waiting (issue m chat_id a bytes now).0 key
                ≡ (if str_eq chat_id key then 1 else waiting m key)))
unfolding issue issue_code
issue_cases m chat_id a bytes now = elim (Bool-cases (is_chat_id chat_id && is_valid_action a)) [
  | inr bad ↦ rw bad (inl refl)
  | inl good ↦ elim (Option-cases (code_of confirmation_code_length bytes)) [
    | inl few ↦ rw (good, few) (inl refl)
    | inr (text, found) ↦
        rw (good, found)
          (inr (
            refl,
            λ key. rw (JsMap.get-put m chat_id key (challenge_of a text now)) (ground arith),
          ))
  ]
]

consume_found_cases :
    (m : Store) (chat_id : String) (action : ControlAction) (code session_id : String)
    (index : Option ℕ) (now : ℕ) (found : Option ConfirmationChallenge)
    → ((consume_found m chat_id action code session_id index now found).0 ≡ m)
        × (is_confirmed (consume_found m chat_id action code session_id index now found).1 ≡ false)
      ⊎ ((consume_found m chat_id action code session_id index now found).0
          ≡ JsMap.delete m chat_id)
        × (is_some found ≡ true)
unfolding consume_found
consume_found_cases m chat_id action code session_id index now none = inl (refl, refl)
consume_found_cases m chat_id action code session_id index now (some c) =
    elim (Bool-cases (leb c.expires_at now)) [
      | inl over ↦ rw over (inr (refl, refl))
      | inr live ↦ elim (Bool-cases (not (is_answered c action code session_id))) [
        | inl other ↦ rw (live, other) (inl (refl, refl))
        | inr own ↦ elim (Bool-cases (has_index action index)) [
          | inl indexed ↦ rw (live, own, indexed) (inl (refl, refl))
          | inr plain ↦ rw (live, own, plain) (inr (refl, refl))
        ]
      ]
    ]

consume_cases :
    (m : Store) (chat_id : String) (action : ControlAction) (code session_id : String)
    (index : Option ℕ) (now : ℕ)
    → ((consume m chat_id action code session_id index now).0 ≡ m)
        × (is_confirmed (consume m chat_id action code session_id index now).1 ≡ false)
      ⊎ ((consume m chat_id action code session_id index now).0 ≡ JsMap.delete m chat_id)
        × (is_some (JsMap.get m chat_id) ≡ true)
unfolding consume
consume_cases m chat_id action code session_id index now = elim (Bool-cases (is_chat_id chat_id)) [
  | inr bad ↦ rw bad (inl (refl, refl))
  | inl chat ↦ elim (Bool-cases (is_code code)) [
    | inr bad ↦ rw (chat, bad) (inl (refl, refl))
    | inl good ↦
        rw (chat, good)
          (consume_found_cases m chat_id action code session_id index now (JsMap.get m chat_id))
  ]
]

one_if_le : (b : Bool) → one_if b ≤ 1
one_if_le true = omega arith
one_if_le false = omega arith

counted : (here : Bool) (n : ℕ) → 0 + (if here then 1 else n) ≤ n + one_if (here && true)
counted true n = omega arith
counted false n = omega arith

answered :
    (m : Store) (chat_id key : String) (action : ControlAction) (code session_id : String)
    (index : Option ℕ) (now : ℕ)
    → is_some (JsMap.get m chat_id) ≡ true
    → one_if (
          str_eq chat_id key && is_confirmed (consume m chat_id action code session_id index now).1)
        + one_if (is_some (if str_eq chat_id key then none else JsMap.get m key))
      ≤ waiting m key + 0
answered m chat_id key action code session_id index now there =
    elim (Bool-cases (str_eq chat_id key)) [
      | inr other ↦ rw other (omega arith)
      | inl same ↦
          let here : is_some (JsMap.get m key) ≡ true =
            rw (sym ((eq_iff chat_id key).0 same)) there in
          rw (same, here)
            (omega (
              arith,
              one_if_le (is_confirmed (consume m chat_id action code session_id index now).1),
            ))
    ]

step_bound :
    (key : String) (m : Store) (e : Event)
    → (step key m e).1.confirmations + waiting (step key m e).0 key
      ≤ waiting m key + (step key m e).1.challenges
unfolding step
step_bound key m (issues chat_id a bytes now) = elim (issue_cases m chat_id a bytes now) [
  | inl same ↦ rw same (ground arith)
  | inr (there, then_) ↦ rw (then_ key, there) (counted (str_eq chat_id key) (waiting m key))
]
step_bound key m (consumes chat_id action code session_id index now) =
    elim (consume_cases m chat_id action code session_id index now) [
      | inl (same, plain) ↦ rw (same, plain) (ground arith)
      | inr (gone, there) ↦
          rw (gone, JsMap.get-delete m chat_id key)
            (answered m chat_id key action code session_id index now there)
    ]

run_bound :
    (key : String) (m : Store) (events : List Event)
    → (run key m events).confirmations ≤ waiting m key + (run key m events).challenges
unfolding run
run_bound key m [] = omega arith
run_bound key m (e ∷ events) =
    omega (arith, step_bound key m e, run_bound key (step key m e).0 events)

-- In any sequence of challenges and answers, from the empty store, a chat has at most as many
-- confirmations as challenges were issued to it.
pub run_once :
    (key : String) (events : List Event)
    → (run key [] events).confirmations ≤ (run key [] events).challenges
unfolding JsMap.get
run_once key events = omega (arith, run_bound key [] events)
