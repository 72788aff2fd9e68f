-- ===== src/Selection.antt =====
-- packages/session-control-mcp/src/session-selection.ts: the numbered list of sessions that a chat
-- was shown, kept in one file per chat.
pub mod Snapshots
mod Tests
use claude_code_telegram_kit.Prelude.{
  ℕ, zero, suc, ◌+◌, ◌-◌, ◌*◌, ◌/◌, ◌%◌, ◌^◌, ◌≤◌, ◌<◌, String, Option, none, some, Bool, true,
  false, not, ◌&&◌, ◌||◌, ◌≡◌, ◌≢◌, ◌⊎◌, ◌↔◌, refl, sym, ap, ◌∙◌, inl, inr, List, [], ◌∷◌, ◌++◌,
  map, append-nil, append_assoc, arith, str_eq, eq_iff, eq_refl, if◌then◌else◌, ltb, leb, ◌==◌,
  Bool-cases, Option-cases, length, length-append, length-map, is_some, any, all, All, get_elem?,
  utf16_length, utf16_length-append, utf16_length-join_lines, utf16_length-decimal, joined_length,
  joined_length-append, join_lines, decimal, ◌<>◌, max, min,
}
use claude_code_telegram_kit.Prelude.JsMap
use claude_code_telegram_kit.Prelude.JsMap.{JsMap}
use claude_code_telegram_kit.Prelude.Json.{
  Json, null_value, other_number, composite, boolean, number, text, max_safe_integer, text_of,
  safe_of, text_field,
}
use claude_code_telegram_kit.Prelude.Uuid.{
  codes, Class, hex, dash, four, variant, in_class, matches, is_uuid,
}

abbrev pub selection_ttl_ms : ℕ
selection_ttl_ms = 600000

abbrev pub max_selection_entries : ℕ
max_selection_entries = 10

abbrev pub max_clock_skew_ms : ℕ
max_clock_skew_ms = 300000

abbrev pub max_snapshot_bytes : ℕ
max_snapshot_bytes = 65536

pub record SelectionEntry : Type 0 where
  pub index : ℕ
  pub session_id : String

pub record SelectionSnapshot : Type 0 where
  pub chat_id : String
  pub session_id : String
  pub created_at : ℕ
  pub entries : List SelectionEntry

unfoldable pub entries_from : ℕ → List SelectionEntry → Bool
entries_from offset [] = true
entries_from offset (entry ∷ entries) =
    entry.index == offset + 1 && is_uuid entry.session_id && entries_from (offset + 1) entries

-- `validateEntries` does not throw
unfoldable pub are_valid : List SelectionEntry → Bool
are_valid entries =
    not (length entries == 0 || ltb max_selection_entries (length entries))
    && entries_from 0 entries

unfoldable pub is_digit : ℕ → Bool
is_digit c = leb 48 c && leb c 57

unfoldable pub are_digits : List ℕ → Bool
are_digits [] = false
are_digits (c ∷ cs) = all is_digit (c ∷ cs)

unfoldable pub after_sign : List ℕ → List ℕ
after_sign [] = []
after_sign (c ∷ cs) = if c == 45 then cs else c ∷ cs

-- /^-?\d+$/
unfoldable pub is_chat_id : String → Bool
is_chat_id s = are_digits (after_sign (codes s))

-- An element of `entries` as parsed: an object with its two fields, or another value.
pub data RawEntry : Type 0 where
  no_object : RawEntry
  object : Option Json → Option Json → RawEntry

-- The fields of a parsed file. `created_at` is none if it is no number; the times that are written
-- are whole milliseconds. `entries` is none if it is no array.
pub record Parsed : Type 0 where
  pub version : Option Json
  pub chat_id : Option Json
  pub session_id : Option Json
  pub created_at : Option ℕ
  pub entries : Option (List RawEntry)

-- a file as it is found, with its size in bytes; `unusable` is one that is no safe file or no JSON
pub data File : Type 0 where
  unusable : File
  parsed : ℕ → Parsed → File

abbrev quoted : String → String
quoted s = "\"" <> s <> "\""

unfoldable pub entry_text : SelectionEntry → String
entry_text entry =
    "{\"index\":" <> decimal entry.index <> ",\"session_id\":" <> quoted entry.session_id <> "}"

unfoldable pub entry_texts : List SelectionEntry → String
entry_texts [] = ""
entry_texts (entry ∷ []) = entry_text entry
entry_texts (entry ∷ next ∷ entries) = entry_text entry <> "," <> entry_texts (next ∷ entries)

-- the text that is written; a chat id and session ids that are valid need no escape
unfoldable pub payload : SelectionSnapshot → String
payload s =
    "{\"version\":1,\"chat_id\":"
    <> quoted s.chat_id
    <> ",\"session_id\":"
    <> quoted s.session_id
    <> ",\"created_at\":"
    <> decimal s.created_at
    <> ",\"entries\":["
    <> entry_texts s.entries
    <> "]}\n"

unfoldable pub print_entry : SelectionEntry → RawEntry
print_entry entry = object (some (number entry.index)) (some (text entry.session_id))

-- the payload as a file; it is ASCII, so that its units are its bytes
unfoldable pub print : SelectionSnapshot → File
print s = parsed (utf16_length (payload s)) (record {
  version = some (number 1);
  chat_id = some (text s.chat_id);
  session_id = some (text s.session_id);
  created_at = some s.created_at;
  entries = some (map print_entry s.entries);
})

-- An index that is no natural number equals none of the expected ones.
unfoldable pub entry_of : Option Json → Option Json → Option SelectionEntry
entry_of (some (number index)) (some (text session_id)) =
    some (record { index = index; session_id = session_id })
entry_of _ _ = none

-- the loop over `parsed.entries`
unfoldable pub parse_entries : List RawEntry → Option (List SelectionEntry)
parse_entries [] = some []
parse_entries (no_object ∷ raws) = none
parse_entries (object index session_id ∷ raws) = elim (entry_of index session_id) [
  | none ↦ none
  | some entry ↦ elim (parse_entries raws) [ none ↦ none | some entries ↦ some (entry ∷ entries) ]
]

unfoldable pub entries_field : Option (List RawEntry) → Option (List SelectionEntry)
entries_field none = none
entries_field (some raws) = elim (parse_entries raws) [
  | none ↦ none
  | some entries ↦ if are_valid entries then some entries else none
]

unfoldable pub is_number : Option Json → ℕ → Bool
is_number (some (number n)) m = n == m
is_number _ m = false

unfoldable pub is_text : Option String → String → Bool
is_text none s = false
is_text (some t) s = str_eq t s

-- the snapshot is neither ahead of the clock nor expired
unfoldable pub is_current : ℕ → ℕ → Bool
is_current created_at now =
    leb created_at (now + max_clock_skew_ms) && ltb now (created_at + selection_ttl_ms)

unfoldable pub snapshot_of :
    String → ℕ → Option String → Option ℕ → Option (List SelectionEntry) → Option SelectionSnapshot
snapshot_of chat_id now (some session_id) (some created_at) (some entries) =
    if is_uuid session_id && is_current created_at now
    then some (record {
      chat_id = chat_id;
      session_id = session_id;
      created_at = created_at;
      entries = entries;
    })
    else none
snapshot_of chat_id now _ _ _ = none

-- the part of `readSelectionSnapshot` for a file
unfoldable pub read_file : String → ℕ → File → Option SelectionSnapshot
read_file chat_id now unusable = none
read_file chat_id now (parsed size p) =
    if ltb max_snapshot_bytes size
    then none
    else if is_number p.version 1 && is_text (text_of p.chat_id) chat_id
    then snapshot_of chat_id now (text_of p.session_id) p.created_at (entries_field p.entries)
    else none

-- `resolveSelection`
unfoldable pub find_entry : List SelectionEntry → ℕ → Option String
find_entry [] index = none
find_entry (entry ∷ entries) index =
    if entry.index == index then some entry.session_id else find_entry entries index

unfoldable pub resolve : SelectionSnapshot → ℕ → Option String
resolve s index =
    if ltb index 1 || ltb max_selection_entries index then none else find_entry s.entries index

-- `snapshotName` is a digest of the chat id, which the hash library computes.
module _ (snapshot_name : String → String) where
  -- `writeSelectionSnapshot`; none is an error, which leaves the directory as it was
  unfoldable pub write :
      JsMap File → String → String → List SelectionEntry → ℕ → Option (JsMap File)
  write directory chat_id session_id entries now =
      if is_chat_id chat_id && is_uuid session_id && are_valid entries
      then some (
          JsMap.put directory (snapshot_name chat_id) (
            print (record {
              chat_id = chat_id;
              session_id = session_id;
              created_at = now;
              entries = entries;
            })))
      else none

  -- `readSelectionSnapshot`
  unfoldable pub read : JsMap File → String → ℕ → Option SelectionSnapshot
  read directory chat_id now = elim (JsMap.get directory (snapshot_name chat_id)) [
    | none ↦ none
    | some file ↦ read_file chat_id now file
  ]
