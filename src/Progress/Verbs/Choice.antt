-- ===== src/Progress/Verbs/Choice.antt =====
-- The chosen verbs stand in the table.
use claude_code_telegram_kit.Prelude.{
  ℕ, zero, suc, ◌%◌, ◌≤◌, ◌<◌, String, List, [], ◌∷◌, arith, All, length, utf16_length, ◌<>◌,
}
use claude_code_telegram_kit.Progress.Verbs.{
  TurnVerbPair, turn_verb_pairs, nth_pair, hash_from, select_turn_verb_pair,
}

nth_pair-All :
    (P : TurnVerbPair → Type 0) (n : ℕ) (ps : List TurnVerbPair)
    → n < length ps
    → All P ps
    → P (nth_pair n ps)
unfolding nth_pair
nth_pair-All P n [] h a = absurd (omega arith)
nth_pair-All P zero (p ∷ ps) h a = a.0
nth_pair-All P (suc n) (p ∷ ps) h a = nth_pair-All P n ps (omega arith) a.1

-- What holds of every pair of the table holds of the chosen pair, whatever the ids.
pub select_turn_verb_pair-All :
    (P : TurnVerbPair → Type 0) (session_id prompt_id : String)
    → All P turn_verb_pairs
    → P (select_turn_verb_pair session_id prompt_id)
unfolding select_turn_verb_pair
select_turn_verb_pair-All P session_id prompt_id a =
    nth_pair-All P (hash_from 2166136261 (session_id <> "/" <> prompt_id) % 8) turn_verb_pairs
      (omega arith) a

abbrev IsShort : TurnVerbPair → Type 0
IsShort v = (utf16_length v.active ≤ 4000) × (utf16_length v.complete ≤ 4000)

pub select_turn_verb_pair-IsShort :
    (session_id prompt_id : String) → IsShort (select_turn_verb_pair session_id prompt_id)
select_turn_verb_pair-IsShort session_id prompt_id =
    select_turn_verb_pair-All IsShort session_id prompt_id table
  where
    table : All IsShort turn_verb_pairs
    table = unfold utf16_length in omega arith
