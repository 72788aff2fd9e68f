-- ===== src/Control/Challenge/Confirmed.antt =====
-- A challenge is confirmed by its own code, in its time, and once.
use Prim.Native.Char.{code}
use mathlib.Core.Path.{subst}
use claude_code_telegram_kit.Prelude.{
  ℕ, zero, suc, ◌+◌, ◌%◌, ◌<◌, String, Option, none, some, Bool, true, false, ◌&&◌, ◌≡◌, refl, sym,
  ap, ◌∙◌, inl, inr, List, [], ◌∷◌, ◌++◌, arith, eq_refl, leb, Bool-cases, Option-cases, length,
  length-append, all, ◌<>◌,
}
use claude_code_telegram_kit.Prelude.JsMap
use claude_code_telegram_kit.Prelude.JsMap.{JsMap}
use claude_code_telegram_kit.Prelude.Uuid.{codes, codes-append}
use claude_code_telegram_kit.Control.Challenge.{
  confirmation_code_length, control_challenge_ttl_ms, code_alphabet, ControlAction, reset, resume,
  ConfirmationAction, ConfirmationChallenge, Store, same_action, contains, in_alphabet, is_code,
  is_chat_id, is_valid_index, is_valid_action, char_at, symbol, code_of, challenge_of, issue_code,
  issue, confirmed, action_of, has_index, is_answered, consume_found, consume,
}

all-append : (p : ℕ → Bool) (xs ys : List ℕ) → all p (xs ++ ys) ≡ (all p xs && all p ys)
all-append p [] ys = refl
all-append p (x ∷ xs) ys = ground (arith, all-append p xs ys)

all_weaker :
    (d : ℕ) (ds cs : List ℕ)
    → all (λ c. contains c ds) cs ≡ true
    → all (λ c. contains c (d ∷ ds)) cs ≡ true
unfolding contains
all_weaker d ds [] h = refl
all_weaker d ds (c ∷ cs) h = ground (arith, all_weaker d ds cs)

codes-char_at :
    (s : String) (n : ℕ)
    → n < length (codes s)
    → (length (codes (char_at s n)) ≡ 1)
      × (all (λ c. contains c (codes s)) (codes (char_at s n)) ≡ true)
unfolding codes char_at contains
codes-char_at String.[] n h = ground arith
codes-char_at (String.◌∷◌ c s) zero h = (refl, ground arith)
codes-char_at (String.◌∷◌ c s) (suc n) h =
    let rest = codes-char_at s n (omega (arith, h)) in
    (rest.0, all_weaker (code c) (codes s) (codes (char_at s n)) (rest.1))

codes-symbol :
    (b : ℕ) → (length (codes (symbol b)) ≡ 1) × (all in_alphabet (codes (symbol b)) ≡ true)
unfolding in_alphabet codes
codes-symbol b = codes-char_at code_alphabet (b % 32) (omega arith)

pub code_of-is_code :
    (n : ℕ) (bytes : List ℕ) (text : String)
    → code_of n bytes ≡ some text
    → (length (codes text) ≡ n) × (all in_alphabet (codes text) ≡ true)
unfolding code_of codes
code_of-is_code zero bytes text h =
    let same : text ≡ "" = ground arith in (rw same refl, rw same refl)
code_of-is_code (suc n) [] text h = ground arith
code_of-is_code (suc n) (b ∷ bytes) text h = elim (Option-cases (code_of n bytes)) [
  | inl few ↦ ground arith
  | inr (rest, found) ↦
      let same : text ≡ symbol b <> rest = ground arith in
      let one = codes-symbol b in
      let more = code_of-is_code n bytes rest found in
      (
        rw (same, codes-append (symbol b) rest, length-append (codes (symbol b)) (codes rest))
            (omega (arith, one.0, more.0)),
        rw
            (
              same,
              codes-append (symbol b) rest,
              all-append in_alphabet (codes (symbol b)) (codes rest),
            )
            (ground (arith, one.1, more.1)),
      )
]

same_action_refl : (a : ControlAction) → same_action a a ≡ true
unfolding same_action
same_action_refl reset = refl
same_action_refl resume = refl

-- a challenge in the store is confirmed by its own code
consume_own :
    (m : Store) (chat_id : String) (c : ConfirmationChallenge) (index : Option ℕ) (later : ℕ)
    → JsMap.get m chat_id ≡ some c
    → is_chat_id chat_id ≡ true
    → is_code c.code ≡ true
    → later < c.expires_at
    → has_index c.action index ≡ false
    → consume m chat_id c.action c.code c.session_id index later
      ≡ (JsMap.delete m chat_id, confirmed (action_of c))
unfolding consume consume_found is_answered
consume_own m chat_id c index later there chat own soon plain =
    let live : leb c.expires_at later ≡ false = ground arith in
    rw
      (
        chat,
        own,
        there,
        live,
        same_action_refl c.action,
        eq_refl c.code,
        eq_refl c.session_id,
        plain,
      )
      refl

valid_index-has_index :
    (action : ControlAction) (index : Option ℕ)
    → is_valid_index action index ≡ true
    → has_index action index ≡ false
unfolding is_valid_index has_index
valid_index-has_index reset none h = refl
valid_index-has_index reset (some n) h = ground arith
valid_index-has_index resume index h = refl

-- what an issued challenge is
record IsIssued (m : Store) (chat_id : String) (a : ConfirmationAction) (now : ℕ)
    (challenge : ConfirmationChallenge) (after : Store) : Type 0 where
  chat : is_chat_id chat_id ≡ true
  plain : has_index a.action a.index ≡ false
  own : is_code challenge.code ≡ true
  action : action_of challenge ≡ a
  until : challenge.expires_at ≡ now + control_challenge_ttl_ms
  store : after ≡ JsMap.put m chat_id challenge

issue-IsIssued :
    (m : Store) (chat_id : String) (a : ConfirmationAction) (bytes : List ℕ) (now : ℕ)
    (challenge : ConfirmationChallenge)
    → (issue m chat_id a bytes now).1 ≡ some challenge
    → IsIssued m chat_id a now challenge (issue m chat_id a bytes now).0
unfolding issue issue_code is_valid_action is_code challenge_of action_of
issue-IsIssued m chat_id a bytes now challenge h =
    elim (Bool-cases (is_chat_id chat_id && is_valid_action a)) [
      | inr bad ↦ ground arith
      | inl good ↦ elim (Option-cases (code_of confirmation_code_length bytes)) [
        | inl few ↦ ground arith
        | inr (text, found) ↦
            let made : challenge ≡ challenge_of a text now = ground arith in
            let parts = code_of-is_code 6 bytes text found in
            record {
              chat = ground arith;
              plain = valid_index-has_index a.action a.index (ground arith);
              own = rw made (ground (arith, parts.0, parts.1));
              action = ap action_of made;
              until = ap (λ c. c.expires_at) made;
              store = rw (good, found, made) refl;
            }
      ]
    ]

-- A challenge that is issued is confirmed by its own code, for its session and its action, at any time
-- before its minute is over, and then no longer there.
pub consume-issue :
    (m : Store) (chat_id : String) (a : ConfirmationAction) (bytes : List ℕ) (now later : ℕ)
    (challenge : ConfirmationChallenge)
    → (issue m chat_id a bytes now).1 ≡ some challenge
    → later < now + control_challenge_ttl_ms
    → ((consume
          (issue m chat_id a bytes now).0
          chat_id
          a.action
          challenge.code
          a.session_id
          a.index
          later).1
        ≡ confirmed a)
      × (JsMap.get
            (consume
              (issue m chat_id a bytes now).0
              chat_id
              a.action
              challenge.code
              a.session_id
              a.index
              later).0
            chat_id
          ≡ none)
unfolding action_of
consume-issue m chat_id a bytes now later challenge h soon =
    let after = (issue m chat_id a bytes now).0 in
    let issued = issue-IsIssued m chat_id a bytes now challenge h in
    let there : JsMap.get after chat_id ≡ some challenge =
      rw (issued.store, JsMap.get-put m chat_id chat_id challenge, eq_refl chat_id) refl in
    let plain : has_index challenge.action a.index ≡ false =
      subst (λ x. has_index x.action a.index ≡ false) (sym issued.action) issued.plain in
    let own =
      consume_own after chat_id challenge a.index later there issued.chat issued.own
        (rw issued.until soon) plain in
    let whole : consume after chat_id a.action challenge.code a.session_id a.index later
        ≡ (JsMap.delete after chat_id, confirmed a) =
      subst
        (λ x.
          consume after chat_id x.action challenge.code x.session_id a.index later
          ≡ (JsMap.delete after chat_id, confirmed x))
        issued.action own in
    (
      ap (λ r. r.1) whole,
      ap (λ r. JsMap.get r.0 chat_id) whole
          ∙ JsMap.get-delete after chat_id chat_id
          ∙ (rw (eq_refl chat_id) refl),
    )
