-- ===== src/Applier/Ledger.antt =====
-- packages/shared/src/memory-applier-state.ts and memory-applier.ts: the ledger of the files that the
-- applier owns, its printed form among the state files, and how a crash's ledger is restored. JSON and
-- SHA-256 are the platform's.
pub mod Restored
use claude_code_telegram_kit.Prelude.{
  ℕ, zero, suc, ◌+◌, ◌-◌, ◌*◌, ◌/◌, ◌%◌, ◌^◌, ◌≤◌, ◌<◌, String, Option, none, some, Bool, true,
  false, not, ◌&&◌, ◌||◌, ◌≡◌, ◌≢◌, ◌⊎◌, ◌↔◌, refl, sym, ap, ◌∙◌, inl, inr, List, [], ◌∷◌, ◌++◌,
  map, append-nil, append_assoc, arith, str_eq, eq_iff, eq_refl, if◌then◌else◌, ltb, leb, ◌==◌,
  Bool-cases, Option-cases, length, length-append, length-map, is_some, any, all, All, get_elem?,
  utf16_length, utf16_length-append, utf16_length-join_lines, utf16_length-decimal, joined_length,
  joined_length-append, join_lines, decimal, ◌<>◌, max, min,
}
use claude_code_telegram_kit.Prelude.Uuid.{codes}
use claude_code_telegram_kit.Applier.Names.{
  is_lower, is_digit, is_alnum, is_hex_digit, is_hex, is_digest, is_release, is_prompt_char,
  is_prompt_id, topic_tail, is_topic_from, is_topic, same_codes, md, name_tail, is_name_from,
  index_name, is_memory_name, topic_file,
}
use claude_code_telegram_kit.Applier.Leaf.{
  max_memory_file_bytes, Leaf, Memory, Content, MemoryLeafImage, byte_length, is_capturable,
  image_of, image_of_leaf, capture, same_image, mode_for, replace, reads_back, is_current,
  write_cas, remove_cas,
}

abbrev pub max_state_bytes : ℕ
max_state_bytes = 524288

-- `is_safe` is false for what is no regular file, has other links, is open to others or belongs to
-- another user.
pub record StateFile {ℓ} (A : Type ℓ) : Type ℓ where
  pub value : A
  pub is_safe : Bool

pub record MemoryManagedLedgerEntry : Type 0 where
  pub path : String
  pub sha256 : String
  pub proposal_key : String
  pub updated_at : ℕ

abbrev pub MemoryManagedLedger : Type 0
MemoryManagedLedger = List MemoryManagedLedgerEntry

-- the order of the code points
unfoldable pub codes_lt : List ℕ → List ℕ → Bool
codes_lt _ [] = false
codes_lt [] (_ ∷ _) = true
codes_lt (a ∷ s) (b ∷ t) = ltb a b || (a == b && codes_lt s t)

abbrev pub text_lt : String → String → Bool
text_lt s t = codes_lt (codes s) (codes t)

unfoldable pub is_ordered : MemoryManagedLedger → Bool
is_ordered [] = true
is_ordered (e ∷ []) = true
is_ordered (e ∷ f ∷ l) = text_lt e.path f.path && is_ordered (f ∷ l)

unfoldable pub is_valid_entry : MemoryManagedLedgerEntry → Bool
is_valid_entry e =
    is_memory_name e.path
    && not (str_eq e.path index_name)
    && is_digest e.sha256
    && is_digest e.proposal_key

-- `validateLedger`
unfoldable pub is_valid_ledger : MemoryManagedLedger → Bool
is_valid_ledger l = all is_valid_entry l && is_ordered l

-- what a state file of that many bytes may be
abbrev pub state_size_ok : ℕ → Bool
state_size_ok n = leb 1 n && leb n max_state_bytes

-- `readStateBytes`; the outer none is an error, the inner one a missing file
unfoldable pub read_state : Option (StateFile String) → Option (Option String)
read_state none = some none
read_state (some file) =
    if file.is_safe && state_size_ok (byte_length file.value) then some (some file.value) else none

-- `writeStateBytes` and whether it did not throw
unfoldable pub write_state : Option (StateFile String) → String → Option (StateFile String) × Bool
write_state old bytes =
    if state_size_ok (byte_length bytes)
    then (some (record { value = bytes; is_safe = true }), true)
    else (old, false)

-- `Array.prototype.sort`, which is stable; `comes` is `localeCompare` at most 0
module _ (comes : String → String → Bool) where
  abbrev insert_entry : MemoryManagedLedgerEntry → MemoryManagedLedger → MemoryManagedLedger
  insert_entry e [] = e ∷ []
  insert_entry e (f ∷ l) =
      let rest = insert_entry e l in if comes e.path f.path then e ∷ f ∷ l else f ∷ rest

  unfoldable pub sort_entries : MemoryManagedLedger → MemoryManagedLedger
  sort_entries [] = []
  sort_entries (e ∷ l) = insert_entry e (sort_entries l)

unfoldable pub without : String → MemoryManagedLedger → MemoryManagedLedger
without path [] = []
without path (e ∷ l) = let rest = without path l in if str_eq e.path path then rest else e ∷ rest

unfoldable pub entries_of : Option MemoryManagedLedger → MemoryManagedLedger
entries_of none = []
entries_of (some l) = l

-- `managedBefore?.entries.find(entry => entry.path === topic)`
unfoldable pub find_entry : MemoryManagedLedger → String → Option MemoryManagedLedgerEntry
find_entry [] path = none
find_entry (e ∷ l) path = if str_eq e.path path then some e else find_entry l path

-- `ledgerAfter`
unfoldable pub ledger_after :
    (String → String → Bool)
    → Option MemoryManagedLedger
    → String
    → String
    → String
    → ℕ
    → MemoryManagedLedger
ledger_after comes before topic topic_sha proposal_key now = sort_entries comes (
    without topic (entries_of before)
    ++ record { path = topic; sha256 = topic_sha; proposal_key = proposal_key; updated_at = now }
      ∷ [])

-- the ledger as the applier prints and parses it
pub record Codec : Type 0 where
  pub hash : String → String
  pub print : MemoryManagedLedger → String
  pub parse : String → Option MemoryManagedLedger

unfoldable pub state_hash : (String → String) → Option String → Option String
state_hash hash none = none
state_hash hash (some bytes) = some (hash bytes)

abbrev pub same_hash : Option String → Option String → Bool
same_hash none none = true
same_hash (some a) (some b) = str_eq a b
same_hash _ _ = false

-- `JSON.parse` and `validateLedger`
unfoldable pub parses : Codec → String → Option MemoryManagedLedger
parses c bytes = elim (c.parse bytes) [
  | none ↦ none
  | some l ↦ if is_valid_ledger l then some l else none
]

unfoldable pub read_ledger_bytes : Codec → Option String → Option (Option MemoryManagedLedger)
read_ledger_bytes c none = some none
read_ledger_bytes c (some bytes) = elim (parses c bytes) [ none ↦ none | some l ↦ some (some l) ]

-- `readManagedLedgerFd`
unfoldable pub read_managed_ledger :
    Codec → Option (StateFile String) → Option (Option MemoryManagedLedger)
read_managed_ledger c file = elim (read_state file) [
  | none ↦ none
  | some bytes ↦ read_ledger_bytes c bytes
]

-- `writeManagedLedgerFd`
unfoldable pub write_managed_ledger :
    Codec → Option (StateFile String) → MemoryManagedLedger → Option (StateFile String) × Bool
write_managed_ledger c old l =
    if is_valid_ledger l then write_state old (c.print l) else (old, false)

pub data Restore : Type 0 where
  restored already conflicting threw : Restore

-- the file after `writeStateBytes` of what was there before
abbrev put_back : Option (StateFile String) × Bool → Option (StateFile String) × Restore
put_back r = (r.0, if r.1 then restored else threw)

unfoldable pub restore_bytes :
    Codec → Option (StateFile String) → Option String → Option (StateFile String) × Restore
restore_bytes c file none = (none, restored)
restore_bytes c file (some bytes) =
    if is_some (parses c bytes) then put_back (write_state file bytes) else (file, threw)

unfoldable pub restore_read :
    Codec
    → Option (StateFile String)
    → Option String
    → String
    → Option (Option String)
    → Option (StateFile String) × Restore
restore_read c file before after_sha none = (file, threw)
restore_read c file before after_sha (some current) =
    if same_hash (state_hash c.hash current) (state_hash c.hash before)
    then (file, already)
    else if same_hash (state_hash c.hash current) (some after_sha)
    then restore_bytes c file before
    else (file, conflicting)

-- `restoreManagedLedgerFd`
abbrev pub restore_managed_ledger :
    Codec → Option (StateFile String) → Option String → String → Option (StateFile String) × Restore
restore_managed_ledger c file before after_sha =
    restore_read c file before after_sha (read_state file)
