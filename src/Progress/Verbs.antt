-- ===== src/Progress/Verbs.antt =====
-- packages/telegram-renderer-mcp/src/progress-state.ts: the verbs of a turn and their choice by a
-- 32-bit FNV hash of the turn's key.
pub mod Choice
use Prim.Native.Nat.{bit_xor}
use Prim.Native.Char.{code}
use claude_code_telegram_kit.Prelude.{ℕ, zero, suc, ◌*◌, ◌%◌, ◌^◌, String, List, [], ◌∷◌, ◌<>◌}

pub record TurnVerbPair : Type 0 where
  pub active : String
  pub complete : String

abbrev pub turn_verb_pairs : List TurnVerbPair
turn_verb_pairs =
    record { active = "Baking…"; complete = "Baked" }
    ∷ record { active = "Brewing…"; complete = "Brewed" }
    ∷ record { active = "Churning…"; complete = "Churned" }
    ∷ record { active = "Cogitating…"; complete = "Cogitated" }
    ∷ record { active = "Cooking…"; complete = "Cooked" }
    ∷ record { active = "Crunching…"; complete = "Crunched" }
    ∷ record { active = "Sautéing…"; complete = "Sautéed" }
    ∷ record { active = "Tinkering…"; complete = "Tinkered" }
    ∷ []

-- `hash ^= code; hash = Math.imul(hash, 16777619)`, the 32 bits of the hash read as unsigned
unfoldable pub hash_from : ℕ → String → ℕ
hash_from hash String.[] = hash
hash_from hash (String.◌∷◌ c s) = hash_from (bit_xor hash (code c) * 16777619 % 2 ^ 32) s

unfoldable pub nth_pair : ℕ → List TurnVerbPair → TurnVerbPair
nth_pair n [] = record { active = ""; complete = "" }
nth_pair zero (p ∷ ps) = p
nth_pair (suc n) (p ∷ ps) = nth_pair n ps

-- An index into the table is always in range: the table has eight entries.
unfoldable pub select_turn_verb_pair : String → String → TurnVerbPair
unfolding hash_from nth_pair
select_turn_verb_pair session_id prompt_id =
    nth_pair (hash_from 2166136261 (session_id <> "/" <> prompt_id) % 8) turn_verb_pairs
