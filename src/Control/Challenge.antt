-- ===== src/Control/Challenge.antt =====
-- packages/session-control-mcp/src/control-command.ts: the challenges that a chat confirms before its
-- session is reset or another is resumed. The clock and the random bytes come as inputs.
pub mod Confirmed
pub mod Once
use claude_code_telegram_kit.Prelude.{
  ℕ, zero, suc, ◌+◌, ◌-◌, ◌*◌, ◌/◌, ◌%◌, ◌^◌, ◌≤◌, ◌<◌, String, Option, none, some, Bool, true,
  false, not, ◌&&◌, ◌||◌, ◌≡◌, ◌≢◌, ◌⊎◌, ◌↔◌, refl, sym, ap, ◌∙◌, inl, inr, List, [], ◌∷◌, ◌++◌,
  map, append-nil, append_assoc, arith, str_eq, eq_iff, eq_refl, if◌then◌else◌, ltb, leb, ◌==◌,
  Bool-cases, Option-cases, length, length-append, length-map, is_some, any, all, All, get_elem?,
  utf16_length, utf16_length-append, utf16_length-join_lines, utf16_length-decimal, joined_length,
  joined_length-append, join_lines, decimal, ◌<>◌, max, min,
}
use claude_code_telegram_kit.Prelude.JsMap
use claude_code_telegram_kit.Prelude.JsMap.{JsMap}
use claude_code_telegram_kit.Prelude.Uuid.{codes, is_uuid}

abbrev pub confirmation_code_length : ℕ
confirmation_code_length = 6

abbrev pub control_challenge_ttl_ms : ℕ
control_challenge_ttl_ms = 60000

abbrev pub control_chat_id_max_length : ℕ
control_chat_id_max_length = 128

abbrev pub code_alphabet : String
code_alphabet = "23456789ABCDEFGHJKLMNPQRSTUVWXYZ"

pub data ControlAction : Type 0 where
  reset resume : ControlAction

pub record ConfirmationAction : Type 0 where
  pub action : ControlAction
  pub index : Option ℕ
  pub session_id : String

pub record ConfirmationChallenge : Type 0 where
  pub action : ControlAction
  pub index : Option ℕ
  pub session_id : String
  pub code : String
  pub expires_at : ℕ

-- the `challenges` of the store
abbrev pub Store : Type 0
Store = JsMap ConfirmationChallenge

unfoldable pub same_action : ControlAction → ControlAction → Bool
same_action reset reset = true
same_action resume resume = true
same_action _ _ = false

unfoldable pub contains : ℕ → List ℕ → Bool
contains c [] = false
contains c (d ∷ ds) = c == d || contains c ds

unfoldable pub in_alphabet : ℕ → Bool
in_alphabet c = contains c (codes code_alphabet)

-- `CODE_PATTERN`
unfoldable pub is_code : String → Bool
is_code s = length (codes s) == confirmation_code_length && all in_alphabet (codes s)

-- `validateChatId`
unfoldable pub is_chat_id : String → Bool
is_chat_id s = leb 1 (utf16_length s) && leb (utf16_length s) control_chat_id_max_length

unfoldable pub is_valid_index : ControlAction → Option ℕ → Bool
is_valid_index reset none = true
is_valid_index reset (some n) = false
is_valid_index resume none = false
is_valid_index resume (some n) = leb 1 n && leb n 10

-- `validateAction`
unfoldable pub is_valid_action : ConfirmationAction → Bool
is_valid_action a = is_valid_index a.action a.index && is_uuid a.session_id

-- the character at a place, as a text
unfoldable pub char_at : String → ℕ → String
char_at String.[] n = ""
char_at (String.◌∷◌ c s) zero = String.◌∷◌ c ""
char_at (String.◌∷◌ c s) (suc n) = char_at s n

abbrev pub symbol : ℕ → String
symbol byte = char_at code_alphabet (byte % 32)

-- the code of the first bytes; none where there are too few
unfoldable pub code_of : ℕ → List ℕ → Option String
code_of zero bytes = some ""
code_of (suc n) [] = none
code_of (suc n) (b ∷ bytes) = elim (code_of n bytes) [
  | none ↦ none
  | some rest ↦ some (symbol b <> rest)
]

unfoldable pub challenge_of : ConfirmationAction → String → ℕ → ConfirmationChallenge
challenge_of a code now = record {
  action = a.action;
  index = a.index;
  session_id = a.session_id;
  code = code;
  expires_at = now + control_challenge_ttl_ms;
}

unfoldable pub issue_code :
    Store → String → ConfirmationAction → ℕ → Option String → Store × Option ConfirmationChallenge
issue_code m chat_id a now none = (m, none)
issue_code m chat_id a now (some code) =
    (JsMap.put m chat_id (challenge_of a code now), some (challenge_of a code now))

-- `issue`; none is a throw
unfoldable pub issue :
    Store → String → ConfirmationAction → List ℕ → ℕ → Store × Option ConfirmationChallenge
issue m chat_id a bytes now =
    if is_chat_id chat_id && is_valid_action a
    then issue_code m chat_id a now (code_of confirmation_code_length bytes)
    else (m, none)

pub data Consumed : Type 0 where
  threw nothing : Consumed
  confirmed : ConfirmationAction → Consumed

unfoldable pub action_of : ConfirmationChallenge → ConfirmationAction
action_of c = record { action = c.action; index = c.index; session_id = c.session_id }

unfoldable pub has_index : ControlAction → Option ℕ → Bool
has_index reset index = is_some index
has_index resume index = false

unfoldable pub is_answered : ConfirmationChallenge → ControlAction → String → String → Bool
is_answered c action code session_id =
    same_action c.action action && str_eq c.code code && str_eq c.session_id session_id

unfoldable pub consume_found :
    Store
    → String
    → ControlAction
    → String
    → String
    → Option ℕ
    → ℕ
    → Option ConfirmationChallenge
    → Store × Consumed
consume_found m chat_id action code session_id index now none = (m, nothing)
consume_found m chat_id action code session_id index now (some c) =
    if leb c.expires_at now
    then (JsMap.delete m chat_id, nothing)
    else if not (is_answered c action code session_id)
    then (m, nothing)
    else if has_index action index
    then (m, nothing)
    else (JsMap.delete m chat_id, confirmed (action_of c))

-- `consume`; the index that is asked for is looked at for a reset only
unfoldable pub consume :
    Store → String → ControlAction → String → String → Option ℕ → ℕ → Store × Consumed
consume m chat_id action code session_id index now =
    if not (is_chat_id chat_id)
    then (m, threw)
    else if not (is_code code)
    then (m, nothing)
    else consume_found m chat_id action code session_id index now (JsMap.get m chat_id)
