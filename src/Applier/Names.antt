-- ===== src/Applier/Names.antt =====
-- packages/shared/src/memory-applier-state.ts and memory-applier.ts: the patterns of names and keys.
pub mod Hyphens
use claude_code_telegram_kit.Prelude.{
  ℕ, zero, suc, ◌+◌, ◌-◌, ◌*◌, ◌/◌, ◌%◌, ◌^◌, ◌≤◌, ◌<◌, String, Option, none, some, Bool, true,
  false, not, ◌&&◌, ◌||◌, ◌≡◌, ◌≢◌, ◌⊎◌, ◌↔◌, refl, sym, ap, ◌∙◌, inl, inr, List, [], ◌∷◌, ◌++◌,
  map, append-nil, append_assoc, arith, str_eq, eq_iff, eq_refl, if◌then◌else◌, ltb, leb, ◌==◌,
  Bool-cases, Option-cases, length, length-append, length-map, is_some, any, all, All, get_elem?,
  utf16_length, utf16_length-append, utf16_length-join_lines, utf16_length-decimal, joined_length,
  joined_length-append, join_lines, decimal, ◌<>◌, max, min,
}
use claude_code_telegram_kit.Prelude.Uuid.{codes}

unfoldable pub is_lower : ℕ → Bool
is_lower c = leb 97 c && leb c 122

unfoldable pub is_digit : ℕ → Bool
is_digit c = leb 48 c && leb c 57

abbrev pub is_alnum : ℕ → Bool
is_alnum c = is_lower c || is_digit c

unfoldable pub is_hex_digit : ℕ → Bool
is_hex_digit c = is_digit c || (leb 97 c && leb c 102)

-- /^[0-9a-f]{n}$/
unfoldable pub is_hex : ℕ → String → Bool
is_hex n s = length (codes s) == n && all is_hex_digit (codes s)

abbrev pub is_digest : String → Bool
is_digest s = is_hex 64 s

abbrev pub is_release : String → Bool
is_release s = is_hex 40 s

unfoldable pub is_prompt_char : ℕ → Bool
is_prompt_char c = is_alnum c || (leb 65 c && leb c 90) || c == 46 || c == 95 || c == 45

-- /^[A-Za-z0-9._-]{1,128}$/
unfoldable pub is_prompt_id : String → Bool
is_prompt_id s =
    leb 1 (length (codes s)) && leb (length (codes s)) 128 && all is_prompt_char (codes s)

-- (?:-[a-z0-9]+)* up to the end: `fresh` is true just after a hyphen
unfoldable pub topic_tail : Bool → List ℕ → Bool
topic_tail fresh [] = not fresh
topic_tail fresh (c ∷ cs) =
    let word = topic_tail false cs in
    let next = topic_tail true cs in if is_alnum c then word else c == 45 && not fresh && next

-- /^[a-z][a-z0-9]*(?:-[a-z0-9]+)*$/
unfoldable pub is_topic_from : List ℕ → Bool
is_topic_from [] = false
is_topic_from (c ∷ cs) = is_lower c && topic_tail false cs

abbrev pub is_topic : String → Bool
is_topic s = is_topic_from (codes s)

unfoldable pub same_codes : List ℕ → List ℕ → Bool
same_codes [] [] = true
same_codes (a ∷ s) (b ∷ t) = a == b && same_codes s t
same_codes _ _ = false

-- `md`, after the dot
abbrev pub md : List ℕ
md = 109 ∷ 100 ∷ []

-- (?:-[a-z0-9]+)?\.md up to the end: `hyphen` is true while the one hyphen may come
unfoldable pub name_tail : Bool → Bool → List ℕ → Bool
name_tail hyphen fresh [] = false
name_tail hyphen fresh (c ∷ cs) =
    let word = name_tail hyphen false cs in
    let next = name_tail false true cs in
    if is_alnum c
    then word
    else if c == 46
    then not fresh && same_codes cs md
    else c == 45 && hyphen && next

unfoldable pub is_name_from : List ℕ → Bool
is_name_from [] = false
is_name_from (c ∷ cs) = is_lower c && name_tail true false cs

abbrev pub index_name : String
index_name = "MEMORY.md"

-- /^(?:MEMORY|[a-z][a-z0-9]*(?:-[a-z0-9]+)?)\.md$/
unfoldable pub is_memory_name : String → Bool
is_memory_name s = str_eq s index_name || is_name_from (codes s)

-- `${topic}.md`
unfoldable pub topic_file : String → String
topic_file topic = topic <> ".md"
