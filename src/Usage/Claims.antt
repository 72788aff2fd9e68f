-- ===== src/Usage/Claims.antt =====
-- packages/session-control-mcp/src/usage-queue-watcher.ts: `createControlMessageClaims`, which lets
-- each message through once.
use claude_code_telegram_kit.Prelude.{
  ℕ, ◌≤◌, String, Bool, true, false, not, ◌||◌, ◌≡◌, refl, inl, inr, List, [], ◌∷◌, arith, eq_iff,
  if◌then◌else◌, ltb, leb, Bool-cases, length, length-append, ◌<>◌,
}
use claude_code_telegram_kit.Prelude.JsSet

abbrev pub max_control_claims : ℕ
max_control_claims = 4096

-- `createControlMessageClaims` accepts the bound
unfoldable pub is_claim_bound : ℕ → Bool
is_claim_bound max_entries = not (ltb max_entries 1 || ltb max_control_claims max_entries)

unfoldable pub claim_key : String → String → String
claim_key chat_id message_id = chat_id <> "/" <> message_id

unfoldable pub claim : ℕ → String → List String → List String × Bool
claim max_entries key claimed =
    if JsSet.has claimed key
    then (claimed, false)
    else if leb max_entries (length claimed)
    then (claimed, false)
    else (JsSet.add claimed key, true)

-- the keys that are let through, in order
unfoldable pub claim_all : ℕ → List String → List String → List String × List String
claim_all max_entries [] claimed = (claimed, [])
claim_all max_entries (key ∷ keys) claimed =
    let first = claim max_entries key claimed in
    let rest = claim_all max_entries keys first.0 in
    (rest.0, if first.1 then key ∷ rest.1 else rest.1)

pub length-claim :
    (max_entries : ℕ) (key : String) (claimed : List String)
    → length claimed ≤ max_entries
    → length (claim max_entries key claimed).0 ≤ max_entries
unfolding claim JsSet.add
length-claim max_entries key claimed h = ground (arith, length-append claimed (key ∷ []))

pub has-claim :
    (max_entries : ℕ) (key k : String) (claimed : List String)
    → JsSet.has claimed k ≡ true
    → JsSet.has (claim max_entries key claimed).0 k ≡ true
unfolding claim JsSet.add
has-claim max_entries key k claimed h = ground (arith, JsSet.has-append claimed (key ∷ []) k)

pub claim_granted :
    (max_entries : ℕ) (key : String) (claimed : List String)
    → (claim max_entries key claimed).1 ≡ true
    → (JsSet.has claimed key ≡ false) × (JsSet.has (claim max_entries key claimed).0 key ≡ true)
unfolding claim JsSet.add JsSet.has
claim_granted max_entries key claimed h =
    ground (arith, JsSet.has-append claimed (key ∷ []) key, eq_iff key key)

claimed_is_refused :
    (max_entries : ℕ) (keys claimed : List String) (k : String)
    → JsSet.has claimed k ≡ true
    → JsSet.has (claim_all max_entries keys claimed).1 k ≡ false
unfolding claim_all JsSet.has
claimed_is_refused max_entries [] claimed k h = refl
claimed_is_refused max_entries (key ∷ keys) claimed k h = ground (
  arith,
  claimed_is_refused max_entries keys (claim max_entries key claimed).0 k,
  has-claim max_entries key k claimed,
  claim_granted max_entries key claimed,
  eq_iff key k,
)

length-claim_all :
    (max_entries : ℕ) (keys claimed : List String)
    → length claimed ≤ max_entries
    → length (claim_all max_entries keys claimed).0 ≤ max_entries
unfolding claim_all
length-claim_all max_entries [] claimed h = h
length-claim_all max_entries (key ∷ keys) claimed h =
    length-claim_all max_entries keys (claim max_entries key claimed).0
      (length-claim max_entries key claimed h)

granted-IsDistinct :
    (max_entries : ℕ) (keys claimed : List String)
    → JsSet.IsDistinct (claim_all max_entries keys claimed).1
unfolding claim_all
granted-IsDistinct max_entries [] claimed = tt
granted-IsDistinct max_entries (key ∷ keys) claimed =
    elim (Bool-cases (claim max_entries key claimed).1) [
      | inl granted ↦
          let after = (claim max_entries key claimed).0 in
          rw granted (
            claimed_is_refused max_entries keys after key
                (claim_granted max_entries key claimed granted).1,
            granted-IsDistinct max_entries keys after,
          )
      | inr refused ↦
          rw refused (granted-IsDistinct max_entries keys (claim max_entries key claimed).0)
    ]

-- From no claims, whatever messages are claimed in whatever order, no message is let through twice,
-- and no more claims are held than the bound.
pub claim_all_lem :
    (max_entries : ℕ) (keys : List String)
    → JsSet.IsDistinct (claim_all max_entries keys []).1
      × (length (claim_all max_entries keys []).0 ≤ max_entries)
claim_all_lem max_entries keys =
    (granted-IsDistinct max_entries keys [], length-claim_all max_entries keys [] (omega arith))
