-- ===== src/Disclosure/Transport.antt =====
-- packages/telegram-renderer-mcp/src/progress-transport.ts: how the answer to a call of Telegram is
-- read. An answer is none where the call failed or its body could not be read; a description comes in
-- lower case. Building the request and the call itself are not modelled.
use claude_code_telegram_kit.Prelude.{
  ℕ, String, Option, none, some, Bool, true, false, ◌&&◌, ◌||◌, ◌≡◌, ◌⊎◌, ◌↔◌, ◌≤◌, ◌<◌, ◌≢◌, refl,
  inl, inr, List, [], ◌∷◌, arith, if◌then◌else◌, ltb, leb, ◌==◌, Option-cases, is_some, any,
}
use claude_code_telegram_kit.Prelude.Json.{Json, number, safe_of, max_safe_integer}
use claude_code_telegram_kit.Prelude.Uuid.{codes}
use claude_code_telegram_kit.Disclosure.Bubble.{
  ProgressSendOutcome, sent, uncertain, rejected, ProgressEditOutcome, edited, unchanged, transient,
  throttled, gone, refused, send, Flow, FlowEvent, send_ends, step, run,
}
use claude_code_telegram_kit.Disclosure.Bubble.Final.{last_send}

-- `result`, as far as it is looked into
pub data Result : Type 0 where
  yes_result other_result : Result
  message : Option Json → Result

pub record Answer : Type 0 where
  pub status : ℕ
  pub ok : Bool
  pub result : Result
  pub description : String

unfoldable pub is_prefix : List ℕ → List ℕ → Bool
is_prefix [] cs = true
is_prefix (p ∷ ps) [] = false
is_prefix (p ∷ ps) (c ∷ cs) = p == c && is_prefix ps cs

unfoldable pub includes_from : List ℕ → List ℕ → Bool
includes_from [] ps = is_prefix ps []
includes_from (c ∷ cs) ps = is_prefix ps (c ∷ cs) || includes_from cs ps

-- s.includes(part)
unfoldable pub includes : String → String → Bool
includes s part = includes_from (codes s) (codes part)

abbrev pub gone_descriptions : List String
gone_descriptions =
    "message to edit not found" ∷ "message can't be edited" ∷ "message_id_invalid"
    ∷ "message identifier is not specified" ∷ "message to be edited was not found" ∷ []

unfoldable pub positive_message_id : Option Json → Option ℕ
positive_message_id v = elim (safe_of v) [ none ↦ none | some n ↦ if ltb n 1 then none else some n ]

unfoldable pub message_id_of : Result → Option ℕ
message_id_of (message id) = positive_message_id id
message_id_of _ = none

unfoldable pub is_yes : Result → Bool
is_yes yes_result = true
is_yes _ = false

pub data TypingOutcome : Type 0 where
  typing_sent typing_throttled typing_transient typing_rejected : TypingOutcome

-- the end of `sendTypingAction`
unfoldable pub typing_outcome : Option Answer → TypingOutcome
typing_outcome none = typing_transient
typing_outcome (some a) =
    if a.ok && is_yes a.result
    then typing_sent
    else if a.status == 429
    then typing_throttled
    else if leb 400 a.status && ltb a.status 500
    then typing_rejected
    else typing_transient

unfoldable pub refused_or_lost : ℕ → ProgressSendOutcome
refused_or_lost status = if status == 400 then rejected else uncertain

-- the end of `sendProgressBubble`
unfoldable pub send_outcome : Option Answer → ProgressSendOutcome
send_outcome none = uncertain
send_outcome (some a) = elim (message_id_of a.result) [
  | none ↦ refused_or_lost a.status
  | some id ↦ if a.ok then sent id else refused_or_lost a.status
]

unfoldable pub is_gone : Answer → Bool
is_gone a = any (includes a.description) gone_descriptions

-- the end of `editProgressBubble`
unfoldable pub edit_outcome : Option Answer → ProgressEditOutcome
edit_outcome none = transient
edit_outcome (some a) =
    if a.ok
    then (if is_yes a.result || is_some (message_id_of a.result) then edited else transient)
    else if a.status == 400 && includes a.description "message is not modified"
    then unchanged
    else if a.status == 429
    then throttled
    else if a.status == 404
    then gone
    else if a.status == 400 && is_gone a
    then gone
    else if a.status == 400
    then refused
    else transient

-- an answer that confirms a message with an id: one that is a safe integer and positive
abbrev pub Confirms : Option Answer → ℕ → Type 0
Confirms none id = ⊥
Confirms (some a) id =
    (a.ok ≡ true) × (a.result ≡ message (some (number id))) × (0 < id) × (id ≤ max_safe_integer)

positive_message_id_iff :
    (v : Option Json) (id : ℕ)
    → (positive_message_id v ≡ some id)
      ↔ ((v ≡ some (number id)) × (0 < id) × (id ≤ max_safe_integer))
unfolding positive_message_id safe_of
positive_message_id_iff v id = (ground arith, ground arith)

message_id_of_iff :
    (r : Result) (id : ℕ)
    → (message_id_of r ≡ some id)
      ↔ ((r ≡ message (some (number id))) × (0 < id) × (id ≤ max_safe_integer))
unfolding message_id_of
message_id_of_iff yes_result id = (ground arith, ground arith)
message_id_of_iff other_result id = (ground arith, ground arith)
message_id_of_iff (message v) id =
    (ground (arith, positive_message_id_iff v id), ground (arith, positive_message_id_iff v id))

sent_iff :
    (a : Answer) (id : ℕ)
    → (send_outcome (some a) ≡ sent id) ↔ ((a.ok ≡ true) × (message_id_of a.result ≡ some id))
unfolding send_outcome refused_or_lost
sent_iff a id = elim (Option-cases (message_id_of a.result)) [
  | inl missing ↦ rw (missing, send_outcome) (ground arith, ground arith)
  | inr (n, there) ↦ rw (there, send_outcome) (ground arith, ground arith)
]

-- A send is known to have created a message exactly on an answer that confirms it.
send_outcome_lem :
    (answer : Option Answer) (id : ℕ) → (send_outcome answer ≡ sent id) ↔ Confirms answer id
unfolding send_outcome
send_outcome_lem none id = (ground arith, λ h. absurd h)
send_outcome_lem (some a) id = (
  ground (arith, sent_iff a id, message_id_of_iff a.result id),
  ground (arith, sent_iff a id, message_id_of_iff a.result id),
)

not_sent-cases :
    (o : ProgressSendOutcome) → ((id : ℕ) → o ≢ sent id) → (o ≡ uncertain) ⊎ (o ≡ rejected)
not_sent-cases (sent id) h = absurd (h id refl)
not_sent-cases uncertain h = inl refl
not_sent-cases rejected h = inr refl

-- After a send of the bubble that got no answer, or one that confirms no message with a positive safe
-- id, whatever its status, no later event leads to a further call, unless the turn goes over to
-- showing its background agents.
pub unconfirmed_is_last :
    (f : Flow) (text : String) (attempt : ℕ) (answer : Option Answer) (es : List FlowEvent)
    → f.flight ≡ some (send text attempt)
    → ((id : ℕ) → ¬ Confirms answer id)
    → (run (step f (send_ends (send_outcome answer))) es).agents ≡ f.agents
    → ((run (step f (send_ends (send_outcome answer))) es).flight ≡ none)
      × ((run (step f (send_ends (send_outcome answer))) es).sends ≡ f.sends)
unconfirmed_is_last f text attempt answer es e h s =
    last_send f (send_outcome answer) text attempt es e
      (not_sent-cases (send_outcome answer) (λ id o. h id ((send_outcome_lem answer id).0 o))) s
