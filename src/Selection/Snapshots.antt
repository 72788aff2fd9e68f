-- ===== src/Selection/Snapshots.antt =====
-- What is read back of a snapshot, and which session an index names.
use claude_code_telegram_kit.Prelude.{
  ℕ, zero, suc, ◌+◌, ◌≤◌, ◌<◌, String, Option, none, some, true, ◌&&◌, ◌≡◌, ◌≢◌, ◌↔◌, refl, inl,
  inr, List, [], ◌∷◌, map, arith, eq_iff, eq_refl, Bool-cases, Option-cases, length, get_elem?, ltb,
  utf16_length, if◌then◌else◌,
}
use claude_code_telegram_kit.Prelude.JsMap
use claude_code_telegram_kit.Prelude.JsMap.{JsMap}
use claude_code_telegram_kit.Prelude.Json.{text_of}
use claude_code_telegram_kit.Prelude.Uuid.{is_uuid}
use claude_code_telegram_kit.Selection.{
  selection_ttl_ms, max_clock_skew_ms, max_snapshot_bytes, payload, SelectionEntry,
  SelectionSnapshot, entries_from, are_valid, is_chat_id, RawEntry, File, unusable, parsed,
  print_entry, print, entry_of, parse_entries, entries_field, is_number, is_text, is_current,
  snapshot_of, read_file, find_entry, resolve, write, read,
}

parse_entries-print :
    (entries : List SelectionEntry) → parse_entries (map print_entry entries) ≡ some entries
unfolding parse_entries print_entry entry_of
parse_entries-print [] = refl
parse_entries-print (entry ∷ entries) = rw (parse_entries-print entries) refl

entries_field-print :
    (entries : List SelectionEntry)
    → are_valid entries ≡ true
    → entries_field (some (map print_entry entries)) ≡ some entries
unfolding entries_field
entries_field-print entries v = rw (parse_entries-print entries, entries_field) (rw v refl)

-- what is read of a snapshot that was written
abbrev pub read_back : SelectionSnapshot → Option SelectionSnapshot
read_back s = if ltb max_snapshot_bytes (utf16_length (payload s)) then none else some s

read_file-print :
    (s : SelectionSnapshot) (now : ℕ)
    → is_uuid s.session_id ≡ true
    → are_valid s.entries ≡ true
    → is_current s.created_at now ≡ true
    → read_file s.chat_id now (print s) ≡ read_back s
unfolding read_file print is_number is_text text_of entries_field snapshot_of
read_file-print s now u v c =
    rw (eq_refl s.chat_id, entries_field-print s.entries v) (rw (u, c, snapshot_of) refl)

-- the times at which a snapshot of a time is current
abbrev pub IsCurrent : ℕ → ℕ → Type 0
IsCurrent created_at now =
    (created_at ≤ now + max_clock_skew_ms) × (now < created_at + selection_ttl_ms)

is_current_iff :
    (created_at now : ℕ) → (is_current created_at now ≡ true) ↔ IsCurrent created_at now
unfolding is_current
is_current_iff created_at now = (ground arith, ground arith)

entries_field-are_valid :
    (raws : Option (List RawEntry)) (entries : List SelectionEntry)
    → entries_field raws ≡ some entries
    → are_valid entries ≡ true
unfolding entries_field
entries_field-are_valid raws entries e = ground arith

-- a result that is in order, if there is one
abbrev IsSound : String → ℕ → Option SelectionSnapshot → Type 0
IsSound chat_id now none = Unit
IsSound chat_id now (some s) =
    (s.chat_id ≡ chat_id)
    × (is_uuid s.session_id ≡ true)
    × (are_valid s.entries ≡ true)
    × IsCurrent s.created_at now

snapshot_of-IsSound :
    (chat_id : String) (now : ℕ) (id : Option String) (at : Option ℕ)
    (entries : Option (List SelectionEntry))
    → ((es : List SelectionEntry) → entries ≡ some es → are_valid es ≡ true)
    → IsSound chat_id now (snapshot_of chat_id now id at entries)
unfolding snapshot_of
snapshot_of-IsSound chat_id now none at entries v = tt
snapshot_of-IsSound chat_id now (some id) none entries v = tt
snapshot_of-IsSound chat_id now (some id) (some at) none v = tt
snapshot_of-IsSound chat_id now (some id) (some at) (some es) v =
    elim (Bool-cases (is_uuid id && is_current at now)) [
      | inl good ↦ rw good (refl, ground arith, v es refl, (is_current_iff at now).0 (ground arith))
      | inr bad ↦ rw bad tt
    ]

read_file-IsSound :
    (chat_id : String) (now : ℕ) (file : File) → IsSound chat_id now (read_file chat_id now file)
unfolding read_file
read_file-IsSound chat_id now unusable = tt
read_file-IsSound chat_id now (parsed size p) = elim (Bool-cases (ltb max_snapshot_bytes size)) [
  | inl large ↦ rw large tt
  | inr small ↦ elim (Bool-cases (is_number p.version 1 && is_text (text_of p.chat_id) chat_id)) [
    | inl good ↦
        rw (small, good)
          (snapshot_of-IsSound chat_id now (text_of p.session_id) p.created_at
            (entries_field p.entries) (entries_field-are_valid p.entries))
    | inr bad ↦ rw (small, bad) tt
  ]
]

module _ (snapshot_name : String → String) where
  -- A snapshot that was written is read for its chat as it was written, if the clock then shows
  -- less than ten minutes after it and no more than five minutes before it, and if the text of the
  -- file is within 64 KiB; a longer one, which is written all the same, is read as none.
  pub read-write :
      (directory directory' : JsMap File) (chat_id session_id : String)
      (entries : List SelectionEntry) (at now : ℕ)
      → write snapshot_name directory chat_id session_id entries at ≡ some directory'
      → IsCurrent at now
      → read snapshot_name directory' chat_id now
        ≡ read_back (record {
          chat_id = chat_id;
          session_id = session_id;
          created_at = at;
          entries = entries;
        })
  unfolding write read
  read-write directory directory' chat_id session_id entries at now w c =
      let snapshot : SelectionSnapshot = record {
        chat_id = chat_id;
        session_id = session_id;
        created_at = at;
        entries = entries;
      } in
      let ok : is_chat_id chat_id && is_uuid session_id && are_valid entries ≡ true =
        ground arith in
      let after : directory' ≡ JsMap.put directory (snapshot_name chat_id) (print snapshot) =
        ground arith in
      rw
        (
          after,
          JsMap.get-put directory (snapshot_name chat_id) (snapshot_name chat_id) (print snapshot),
          eq_refl (snapshot_name chat_id),
          read,
        )
        (read_file-print snapshot now (ground arith) (ground arith) ((is_current_iff at now).1 c))

  -- Writing the list of one chat leaves what is read for a chat whose file has another name.
  pub read-write_other :
      (directory directory' : JsMap File) (chat_id other session_id : String)
      (entries : List SelectionEntry) (at now : ℕ)
      → write snapshot_name directory chat_id session_id entries at ≡ some directory'
      → snapshot_name chat_id ≢ snapshot_name other
      → read snapshot_name directory' other now ≡ read snapshot_name directory other now
  unfolding write read
  read-write_other directory directory' chat_id other session_id entries at now w n =
      let snapshot : SelectionSnapshot = record {
        chat_id = chat_id;
        session_id = session_id;
        created_at = at;
        entries = entries;
      } in
      let after : directory' ≡ JsMap.put directory (snapshot_name chat_id) (print snapshot) =
        ground arith in
      let same : JsMap.get directory' (snapshot_name other)
          ≡ JsMap.get directory (snapshot_name other) =
        ground (
          arith,
          JsMap.get-put directory (snapshot_name chat_id) (snapshot_name other) (print snapshot),
          eq_iff (snapshot_name chat_id) (snapshot_name other),
        ) in
      rw (same, read) refl

  -- What is read belongs to the chat, its entries are one to ten session ids with the indices from
  -- one on, and it is current.
  pub read_lem :
      (directory : JsMap File) (chat_id : String) (now : ℕ) (s : SelectionSnapshot)
      → read snapshot_name directory chat_id now ≡ some s
      → (s.chat_id ≡ chat_id)
        × (is_uuid s.session_id ≡ true)
        × (are_valid s.entries ≡ true)
        × IsCurrent s.created_at now
  unfolding read
  read_lem directory chat_id now s e =
      elim (Option-cases (JsMap.get directory (snapshot_name chat_id))) [
        | inl missing ↦ let absurd = rw (missing, read) at e in cc
        | inr (file, there) ↦ rw (rw (there, read) at e) at (read_file-IsSound chat_id now file)
      ]

find_entry_from :
    (offset i : ℕ) (entries : List SelectionEntry) (entry : SelectionEntry)
    → entries_from offset entries ≡ true
    → get_elem? entries i ≡ some entry
    → find_entry entries (offset + 1 + i) ≡ some entry.session_id
unfolding find_entry entries_from
find_entry_from offset i [] entry v g = cc
find_entry_from offset zero (first ∷ entries) entry v g = ground arith
find_entry_from offset (suc i) (first ∷ entries) entry v g =
    ground (arith, find_entry_from (offset + 1) i entries entry)

find_entry_beyond :
    (offset index : ℕ) (entries : List SelectionEntry)
    → entries_from offset entries ≡ true
    → offset + length entries < index
    → find_entry entries index ≡ none
unfolding find_entry entries_from
find_entry_beyond offset index [] v l = refl
find_entry_beyond offset index (first ∷ entries) v l =
    ground (arith, find_entry_beyond (offset + 1) index entries)

get_elem?-length :
    (entries : List SelectionEntry) (i : ℕ) (entry : SelectionEntry)
    → get_elem? entries i ≡ some entry
    → i < length entries
get_elem?-length [] i entry g = cc
get_elem?-length (first ∷ entries) zero entry g = omega arith
get_elem?-length (first ∷ entries) (suc i) entry g =
    omega (arith, get_elem?-length entries i entry g)

-- In a snapshot with valid entries the index n + 1 names the session at position n of the list that
-- was shown, and an index beyond the list names none.
pub resolve_lem :
    (s : SelectionSnapshot) (n : ℕ)
    → are_valid s.entries ≡ true
    → ((entry : SelectionEntry)
        → get_elem? s.entries n ≡ some entry
        → resolve s (n + 1) ≡ some entry.session_id)
      × (length s.entries ≤ n → resolve s (n + 1) ≡ none)
unfolding resolve are_valid
resolve_lem s n v = (
  λ entry g.
      ground (arith, find_entry_from 0 n s.entries entry, get_elem?-length s.entries n entry g),
  λ l. ground (arith, find_entry_beyond 0 (n + 1) s.entries),
)
