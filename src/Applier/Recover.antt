-- ===== src/Applier/Recover.antt =====
-- packages/shared/src/memory-applier.ts: the recovery of what crashed applies left.
pub mod Crashed
use claude_code_telegram_kit.Prelude.{
  ℕ, zero, suc, ◌+◌, ◌-◌, ◌*◌, ◌/◌, ◌%◌, ◌^◌, ◌≤◌, ◌<◌, String, Option, none, some, Bool, true,
  false, not, ◌&&◌, ◌||◌, ◌≡◌, ◌≢◌, ◌⊎◌, ◌↔◌, refl, sym, ap, ◌∙◌, inl, inr, List, [], ◌∷◌, ◌++◌,
  map, append-nil, append_assoc, arith, str_eq, eq_iff, eq_refl, if◌then◌else◌, ltb, leb, ◌==◌,
  Bool-cases, Option-cases, length, length-append, length-map, is_some, any, all, All, get_elem?,
  utf16_length, utf16_length-append, utf16_length-join_lines, utf16_length-decimal, joined_length,
  joined_length-append, join_lines, decimal, ◌<>◌, max, min,
}
use claude_code_telegram_kit.Prelude.JsMap
use claude_code_telegram_kit.Prelude.JsMap.{JsMap}
use claude_code_telegram_kit.Applier.Ledger.{text_lt}
use claude_code_telegram_kit.Applier.Journal.{
  MemoryApplyJournal, Platform, World, Place, read_journal, remove_journal, rollback_journal,
}
use claude_code_telegram_kit.Applier.Run.{is_committed}

-- what of the options a recovery compares with a journal, and whether a review holds the claim of a
-- session's prompt
pub record Recovery : Type 0 where
  pub release_sha : String
  pub memory_directory : String
  pub directory_sha256 : String
  pub is_busy : String → String → Bool

-- the counts of a recovery
pub record Tally : Type 0 where
  pub rolled_back : ℕ
  pub conflicts : ℕ

abbrev pub add_rolled_back : Tally → Tally
add_rolled_back t = record t { rolled_back = t.rolled_back + 1 }

abbrev pub add_conflict : Tally → Tally
add_conflict t = record t { conflicts = t.conflicts + 1 }

abbrev insert_name : String → List String → List String
insert_name name [] = name ∷ []
insert_name name (other ∷ l) =
    let rest = insert_name name l in if text_lt other name then other ∷ rest else name ∷ other ∷ l

-- `listJournalNamesFd`
unfoldable pub sorted : List String → List String
sorted [] = []
sorted (name ∷ l) = insert_name name (sorted l)

abbrev pub is_own : Recovery → MemoryApplyJournal → Bool
is_own r j =
    str_eq j.release_sha r.release_sha
    && str_eq j.memory_directory r.memory_directory
    && str_eq j.directory_sha256 r.directory_sha256

unfoldable pub count : World × Option ℕ → Tally → World × Option Tally
count (w, none) t = (w, none)
count (w, some zero) t = (w, some (add_rolled_back t))
count (w, some (suc n)) t = (w, some (add_conflict t))

-- one round of the loop; a Tally of none is a throw
unfoldable pub recover_read :
    Platform
    → Place
    → Recovery
    → String
    → World
    → Tally
    → Option (Option MemoryApplyJournal)
    → World × Option Tally
recover_read p place r name w t none = (w, none)
recover_read p place r name w t (some none) = (w, some t)
recover_read p place r name w t (some (some j)) =
    if not (is_own r j)
    then (w, some (add_conflict t))
    else if is_committed j.phase
    then (remove_journal w name, some t)
    else if r.is_busy j.session_id j.prompt_id
    then (w, some (add_conflict t))
    else count (rollback_journal p place w j) t

unfoldable pub recover_names :
    Platform → Place → Recovery → List String → World → Tally → World × Option Tally
recover_names p place r [] w t = (w, some t)
recover_names p place r (name ∷ names) w t =
    let one = recover_read p place r name w t (read_journal p w name) in
    elim one.1 [ none ↦ (one.0, none) | some next ↦ recover_names p place r names one.0 next ]

-- `recoverMemoryReviewApplier` once its options are valid and the global claim is held; it reports
-- "recovered" if no conflict was counted
unfoldable pub recover : Platform → Place → Recovery → World → World × Option Tally
recover p place r w =
    recover_names p place r (sorted (JsMap.keys w.journals)) w
      (record { rolled_back = 0; conflicts = 0 })
