-- ===== src/Applier/Apply.antt =====
-- packages/shared/src/memory-applier.ts: what an apply reads, decides and writes. The actions of its
-- `try` block are a list, and each may work, throw before or after its effect, or be where the process
-- ends. `beforeWrite`, a seam of the tests, is left out.
use claude_code_telegram_kit.Prelude.{
  ℕ, zero, suc, ◌-◌, String, Option, none, some, Bool, true, false, not, ◌&&◌, List, [], ◌∷◌,
  str_eq, if◌then◌else◌, leb, ◌==◌, length, is_some, ◌<>◌,
}
use claude_code_telegram_kit.Prelude.Uuid.{codes}
use claude_code_telegram_kit.Applier.Names.{index_name, topic_file}
use claude_code_telegram_kit.Applier.Leaf.{Memory, Content, MemoryLeafImage, capture}
use claude_code_telegram_kit.Applier.Ledger.{
  MemoryManagedLedgerEntry, MemoryManagedLedger, read_managed_ledger, find_entry, entries_of,
}
use claude_code_telegram_kit.Applier.Journal.{MemoryApplyJournalFile, Platform, World}

-- what of the options an apply reads once they are valid; `memory_directory` is resolved, and
-- `is_observed` tells whether an observation of the memory is still true
pub record Request : Type 0 where
  pub session_id : String
  pub prompt_id : String
  pub release_sha : String
  pub directory_sha256 : String
  pub memory_directory : String
  pub is_create : Bool
  pub topic : String
  pub content : String
  pub now : ℕ
  pub comes : String → String → Bool
  pub is_observed : Memory → Bool

-- `memoryReviewReceiptKey`
unfoldable pub receipt_key : (String → String) → String → String → String
receipt_key hash session_id prompt_id = hash (session_id <> "\0" <> prompt_id)

abbrev pub request_key : Platform → Request → String
request_key p r = receipt_key p.codec.hash r.session_id r.prompt_id

-- `indexLine`
unfoldable pub index_line : String → String → String
index_line topic path = "- [" <> topic <> "](" <> path <> ")\n"

abbrev starts_with : List ℕ → List ℕ → Bool
starts_with [] s = true
starts_with (c ∷ cs) [] = false
starts_with (c ∷ cs) (d ∷ ds) = c == d && starts_with cs ds

-- `text.split(line).length - 1`, for a line that is not empty; `skip` is what is left of a match
unfoldable pub occurrences : List ℕ → ℕ → List ℕ → ℕ
occurrences line skip [] = 0
occurrences line (suc skip) (c ∷ cs) = occurrences line skip cs
occurrences line zero (c ∷ cs) =
    let inside = occurrences line (length line - 1) cs in
    let beyond = occurrences line zero cs in
    if starts_with line (c ∷ cs) then suc inside else beyond

abbrev ends_with_newline : List ℕ → Bool
ends_with_newline [] = false
ends_with_newline (c ∷ []) = c == 10
ends_with_newline (_ ∷ c ∷ cs) = ends_with_newline (c ∷ cs)

-- the index with the line of the topic at its end
unfoldable pub index_after : String → String → String
index_after old line =
    let end =
      if leb 1 (length (codes old)) && not (ends_with_newline (codes old)) then "\n" else "" in
    old <> end <> line

-- `journalFile`
unfoldable pub journal_file : (String → String) → MemoryLeafImage → String → MemoryApplyJournalFile
journal_file hash before after = record {
  before = before;
  after_sha256 = hash after;
  after = after;
}

-- what an apply reads; the index is read for a new topic only
pub record View : Type 0 where
  pub topic_before : MemoryLeafImage
  pub managed_before : Option MemoryManagedLedger
  pub index : Option MemoryLeafImage

unfoldable pub index_view :
    MemoryLeafImage → Option MemoryManagedLedger → Option MemoryLeafImage → Option View
index_view topic_before managed_before none = none
index_view topic_before managed_before (some index) =
    some
      (record { topic_before = topic_before; managed_before = managed_before; index = some index })

unfoldable pub view_of :
    (String → String)
    → Request
    → Memory
    → Option MemoryLeafImage
    → Option (Option MemoryManagedLedger)
    → Option View
view_of hash r m none managed = none
view_of hash r m (some topic_before) none = none
view_of hash r m (some topic_before) (some managed_before) =
    if r.is_create
    then index_view topic_before managed_before (capture hash m index_name)
    else some
        (record { topic_before = topic_before; managed_before = managed_before; index = none })

-- none is a throw
unfoldable pub look : Platform → Request → World → Option View
look p r w =
    view_of p.codec.hash r w.memory (capture p.codec.hash w.memory (topic_file r.topic))
      (read_managed_ledger p.codec w.ledger)

abbrev pub owned : Request → View → Option MemoryManagedLedgerEntry
owned r v = find_entry (entries_of v.managed_before) (topic_file r.topic)

abbrev has_line : Request → Option Content → Bool
has_line r none = false
has_line r (some c) =
    occurrences (codes (index_line r.topic (topic_file r.topic))) 0 (codes c.bytes) == 1

unfoldable pub is_indexed : Request → Option MemoryLeafImage → Bool
is_indexed r none = true
is_indexed r (some index) = has_line r index.content

abbrev is_ours : String → Option MemoryManagedLedgerEntry → Option Content → Bool
is_ours key none _ = false
is_ours key (some entry) none = false
is_ours key (some entry) (some c) = str_eq entry.proposal_key key && str_eq c.sha256 entry.sha256

-- the guard of `already_applied`
unfoldable pub is_already : Platform → Request → View → Bool
is_already p r v =
    is_ours (request_key p r) (owned r v) v.topic_before.content && is_indexed r v.index

-- the files to write, the second one the index
pub record Plan : Type 0 where
  pub topic : MemoryApplyJournalFile
  pub index : Option MemoryApplyJournalFile

pub data Decided : Type 0 where
  refused : String → Decided
  unchanged : Decided
  planned : Plan → Decided

abbrev pub topic_after : Request → String
topic_after r = r.content <> "\n"

abbrev with_index :
    (String → String) → Request → MemoryLeafImage → MemoryLeafImage → Option Content → Decided
with_index hash r topic_before index none = refused "missing_memory_index"
with_index hash r topic_before index (some c) =
    let line = index_line r.topic (topic_file r.topic) in
    planned (record {
      topic = journal_file hash topic_before (topic_after r);
      index = some (journal_file hash index (index_after c.bytes line));
    })

unfoldable pub decide_create :
    (String → String) → Request → MemoryLeafImage → Option MemoryLeafImage → Decided
decide_create hash r topic_before none = refused "missing_memory_index"
decide_create hash r topic_before (some index) =
    if is_some topic_before.content
    then refused "create_cas_mismatch"
    else with_index hash r topic_before index index.content

abbrev is_managed : Option MemoryManagedLedgerEntry → Option Content → Bool
is_managed (some entry) (some c) = str_eq entry.sha256 c.sha256
is_managed _ _ = false

unfoldable pub decide_patch : (String → String) → Request → View → Decided
decide_patch hash r v =
    if is_managed (owned r v) v.topic_before.content
    then planned (record { topic = journal_file hash v.topic_before (topic_after r); index = none })
    else refused "unmanaged_topic"

unfoldable pub decide : Platform → Request → Memory → View → Decided
decide p r m v =
    if is_already p r v
    then unchanged
    else if not (r.is_observed m)
    then refused "observation_stale"
    else if r.is_create
    then decide_create p.codec.hash r v.topic_before v.index
    else decide_patch p.codec.hash r v
