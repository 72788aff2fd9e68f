-- ===== src/Selection/Tests.antt =====
-- The theorems on selections at concrete inputs.
use claude_code_telegram_kit.Prelude.{
  String, some, true, ◌≡◌, ◌≢◌, refl, List, [], ◌∷◌, arith, ◌<>◌, ◌∙◌, utf16_length, decimal,
}
use claude_code_telegram_kit.Prelude.JsMap
use claude_code_telegram_kit.Prelude.JsMap.{JsMap}
use claude_code_telegram_kit.Prelude.Uuid.{is_uuid}
use claude_code_telegram_kit.Selection.{
  SelectionEntry, SelectionSnapshot, entries_from, are_valid, is_digit, are_digits, after_sign,
  is_chat_id, entry_text, entry_texts, payload, File, print, write, read,
}
use claude_code_telegram_kit.Selection.Snapshots.{IsCurrent, read_back, read-write, read_lem}

abbrev own : String
own = "11111111-1111-4111-8111-111111111111"

abbrev first : String
first = "22222222-2222-4222-9222-222222222222"

abbrev shown : List SelectionEntry
shown = record { index = 1; session_id = first } ∷ record { index = 2; session_id = own } ∷ []

abbrev snapshot : SelectionSnapshot
snapshot = record { chat_id = "-42"; session_id = own; created_at = 1000; entries = shown }

-- a stand-in for the digest of a chat id
file_name : String → String
file_name chat_id = "selection:" <> chat_id

abbrev directory : JsMap File
directory = (file_name "-42", print snapshot) ∷ []

written : write file_name [] "-42" own shown 1000 ≡ some directory
unfolding write is_chat_id is_uuid are_valid file_name print are_digits after_sign is_digit
    entries_from JsMap.put
written = refl

read-write_example : read file_name directory "-42" 2000 ≡ read_back snapshot
read-write_example =
    read-write file_name [] directory "-42" own shown 1000 2000 written (omega arith, omega arith)

names_differ : file_name "-42" ≢ file_name "7"
unfolding file_name
names_differ = λ e. cc

snapshot-read_back : read_back snapshot ≡ some snapshot
unfolding payload entry_texts entry_text utf16_length decimal
snapshot-read_back = refl

read_lem_example :
    (snapshot.chat_id ≡ "-42")
    × (is_uuid snapshot.session_id ≡ true)
    × (are_valid snapshot.entries ≡ true)
    × IsCurrent snapshot.created_at 2000
read_lem_example = read_lem file_name directory "-42" 2000 snapshot (
    read-write file_name [] directory "-42" own shown 1000 2000 written (omega arith, omega arith)
    ∙ snapshot-read_back)

shown-are_valid : are_valid shown ≡ true
unfolding are_valid entries_from is_uuid
shown-are_valid = refl
