-- ===== src/Applier/Journal.antt =====
-- packages/shared/src/memory-applier-state.ts and memory-applier.ts: the journal of an apply that is
-- under way, its store, and the roll-back by it. The store keeps the journals as values; the size of
-- one as JSON is the platform's.
pub mod Rollback
pub mod Restores
pub mod Reversed
pub mod Outcome
use claude_code_telegram_kit.Prelude.{
  ℕ, zero, suc, ◌+◌, ◌-◌, ◌*◌, ◌/◌, ◌%◌, ◌^◌, ◌≤◌, ◌<◌, String, Option, none, some, Bool, true,
  false, not, ◌&&◌, ◌||◌, ◌≡◌, ◌≢◌, ◌⊎◌, ◌↔◌, refl, sym, ap, ◌∙◌, inl, inr, List, [], ◌∷◌, ◌++◌,
  map, append-nil, append_assoc, arith, str_eq, eq_iff, eq_refl, if◌then◌else◌, ltb, leb, ◌==◌,
  Bool-cases, Option-cases, length, length-append, length-map, is_some, any, all, All, get_elem?,
  utf16_length, utf16_length-append, utf16_length-join_lines, utf16_length-decimal, joined_length,
  joined_length-append, join_lines, decimal, ◌<>◌, max, min,
}
use claude_code_telegram_kit.Prelude.JsMap
use claude_code_telegram_kit.Prelude.JsMap.{JsMap}
use claude_code_telegram_kit.Prelude.Uuid.{codes, is_uuid}
use claude_code_telegram_kit.Applier.Names.{
  is_lower, is_digit, is_alnum, is_hex_digit, is_hex, is_digest, is_release, is_prompt_char,
  is_prompt_id, topic_tail, is_topic_from, is_topic, same_codes, md, name_tail, is_name_from,
  index_name, is_memory_name, topic_file,
}
use claude_code_telegram_kit.Applier.Leaf.{
  Leaf, Memory, Content, MemoryLeafImage, capture, sha_of, write_cas, remove_cas,
}
use claude_code_telegram_kit.Applier.Ledger.{
  StateFile, Codec, MemoryManagedLedger, state_size_ok, state_hash, same_hash, Restore, restored,
  already, conflicting, threw, restore_managed_ledger,
}

pub data MemoryApplyPhase : Type 0 where
  prepared topic_applied index_applied ledger_applied committed : MemoryApplyPhase

pub record MemoryApplyJournalFile : Type 0 where
  pub before : MemoryLeafImage
  pub after_sha256 : String
  pub after : String

pub record MemoryApplyJournal : Type 0 where
  pub proposal_key : String
  pub session_id : String
  pub prompt_id : String
  pub release_sha : String
  pub directory_sha256 : String
  pub memory_directory : String
  pub phase : MemoryApplyPhase
  pub files : List MemoryApplyJournalFile
  pub ledger_before : Option String
  pub ledger_before_sha256 : Option String
  pub ledger_after_sha256 : String
  pub created_at : ℕ

-- what the applier asks of the platform: its hash and JSON, the bytes of a journal as JSON, and
-- whether a path is absolute and resolved
pub record Platform : Type 0 where
  pub codec : Codec
  pub journal_bytes : MemoryApplyJournal → ℕ
  pub is_resolved : String → Bool

-- the state files beside the memory, and the memory
pub record World : Type 0 where
  pub memory : Memory
  pub ledger : Option (StateFile String)
  pub journals : JsMap (StateFile MemoryApplyJournal)

-- `validateImage`
unfoldable pub is_valid_content : (String → String) → Option Content → Bool
is_valid_content hash none = true
is_valid_content hash (some c) = is_digest c.sha256 && str_eq (hash c.bytes) c.sha256

abbrev pub is_valid_image : (String → String) → MemoryLeafImage → Bool
is_valid_image hash image = is_memory_name image.path && is_valid_content hash image.content

unfoldable pub is_valid_file : (String → String) → MemoryApplyJournalFile → Bool
is_valid_file hash file =
    is_digest file.after_sha256
    && str_eq (hash file.after) file.after_sha256
    && is_valid_image hash file.before

unfoldable pub is_valid_backup : (String → String) → Option String → Option String → Bool
is_valid_backup hash none none = true
is_valid_backup hash (some bytes) (some sha) = is_digest sha && str_eq (hash bytes) sha
is_valid_backup hash _ _ = false

-- `validateJournal`
unfoldable pub is_valid_journal : Platform → MemoryApplyJournal → Bool
is_valid_journal p j =
    is_digest j.proposal_key
    && is_uuid j.session_id
    && is_prompt_id j.prompt_id
    && is_release j.release_sha
    && is_digest j.directory_sha256
    && p.is_resolved j.memory_directory
    && leb 1 (length j.files)
    && leb (length j.files) 2
    && is_digest j.ledger_after_sha256
    && all (is_valid_file p.codec.hash) j.files
    && is_valid_backup p.codec.hash j.ledger_before j.ledger_before_sha256

unfoldable pub is_storable : Platform → MemoryApplyJournal → Bool
is_storable p j = is_valid_journal p j && state_size_ok (p.journal_bytes j)

-- `readJournalFd`: the outer none is an error, the inner one a missing journal
unfoldable pub read_file :
    Platform → Option (StateFile MemoryApplyJournal) → Option (Option MemoryApplyJournal)
read_file p none = some none
read_file p (some file) =
    if file.is_safe && is_storable p file.value then some (some file.value) else none

abbrev pub read_journal : Platform → World → String → Option (Option MemoryApplyJournal)
read_journal p w key = read_file p (JsMap.get w.journals key)

-- `writeJournalFd`, under the key that names the file
unfoldable pub write_journal : Platform → World → MemoryApplyJournal → World × Bool
write_journal p w j =
    if is_storable p j
    then (
      record w {
        journals = JsMap.put w.journals j.proposal_key (record { value = j; is_safe = true });
      },
      true,
    )
    else (w, false)

-- `removeJournalFd`
unfoldable pub remove_journal : World → String → World
remove_journal w key = record w { journals = JsMap.delete w.journals key }

-- `contentMatches`
unfoldable pub content_matches : MemoryLeafImage → MemoryLeafImage → Bool
content_matches image expected =
    str_eq image.path expected.path && same_hash (sha_of image.content) (sha_of expected.content)

unfoldable pub undo : (String → String) → Memory → MemoryLeafImage → Option Content → Memory × Bool
undo hash m current none = remove_cas hash m current
undo hash m current (some c) = write_cas hash m current c.bytes

abbrev pub counted : Memory × Bool → Memory × ℕ
counted r = (r.0, if r.1 then 0 else 1)

unfoldable pub rollback_image :
    (String → String) → Memory → MemoryApplyJournalFile → Option MemoryLeafImage → Memory × ℕ
rollback_image hash m file none = (m, 1)
rollback_image hash m file (some current) =
    if content_matches current file.before
    then (m, 0)
    else if same_hash (sha_of current.content) (some file.after_sha256)
    then counted (undo hash m current file.before.content)
    else (m, 1)

-- the memory after one round of the loop, and the conflicts it adds
abbrev pub rollback_file : (String → String) → Memory → MemoryApplyJournalFile → Memory × ℕ
rollback_file hash m file = rollback_image hash m file (capture hash m file.before.path)

unfoldable pub rollback_files :
    (String → String) → Memory → List MemoryApplyJournalFile → Memory × ℕ
rollback_files hash m [] = (m, 0)
rollback_files hash m (file ∷ files) =
    let one = rollback_file hash m file in
    let rest = rollback_files hash one.0 files in (rest.0, one.1 + rest.1)

unfoldable pub reversed : List MemoryApplyJournalFile → List MemoryApplyJournalFile
reversed [] = []
reversed (f ∷ l) = reversed l ++ f ∷ []

-- no file of the list is at this path
abbrev pub apart : String → List MemoryApplyJournalFile → Bool
apart path [] = true
apart path (f ∷ l) = not (str_eq f.before.path path) && apart path l

-- the files are at different paths
abbrev pub distinct : List MemoryApplyJournalFile → Bool
distinct [] = true
distinct (f ∷ l) = apart f.before.path l && distinct l

-- where the directories lie: whether the state is outside the memory, and the memory opens
pub record Place : Type 0 where
  pub state_outside : Bool
  pub proposals_outside : Bool
  pub opens : Bool

abbrev pub finished : World → MemoryApplyJournal → ℕ → World × Option ℕ
finished w j conflicts =
    (if conflicts == 0 then remove_journal w j.proposal_key else w, some conflicts)

unfoldable pub settle :
    World → MemoryApplyJournal → ℕ → Option (StateFile String) × Restore → World × Option ℕ
settle w j conflicts (file, threw) = (record w { ledger = file }, none)
settle w j conflicts (file, conflicting) = (record w { ledger = file }, some (conflicts + 1))
settle w j conflicts (file, restored) = finished (record w { ledger = file }) j conflicts
settle w j conflicts (file, already) = finished (record w { ledger = file }) j conflicts

-- `rollbackJournal`: the world after it, and the conflicts; none is a throw
unfoldable pub rollback_journal : Platform → Place → World → MemoryApplyJournal → World × Option ℕ
rollback_journal p place w j =
    let rolled = rollback_files p.codec.hash w.memory (reversed j.files) in
    if not place.state_outside || not place.opens
    then (w, some 1)
    else if not (str_eq (p.codec.hash j.memory_directory) j.directory_sha256)
    then (w, some 1)
    else settle (record w { memory = rolled.0 }) j rolled.1
        (restore_managed_ledger p.codec w.ledger j.ledger_before j.ledger_after_sha256)
