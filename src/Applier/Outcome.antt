-- ===== src/Applier/Outcome.antt =====
-- What an apply leaves, by its result.
pub mod Concluded
pub mod Total
use claude_code_telegram_kit.Prelude.{
  ℕ, zero, suc, ◌+◌, ◌-◌, ◌*◌, ◌/◌, ◌%◌, ◌^◌, ◌≤◌, ◌<◌, String, Option, none, some, Bool, true,
  false, not, ◌&&◌, ◌||◌, ◌≡◌, ◌≢◌, ◌⊎◌, ◌↔◌, refl, sym, ap, ◌∙◌, inl, inr, List, [], ◌∷◌, ◌++◌,
  map, append-nil, append_assoc, arith, str_eq, eq_iff, eq_refl, if◌then◌else◌, ltb, leb, ◌==◌,
  Bool-cases, Option-cases, length, length-append, length-map, is_some, any, all, All, get_elem?,
  utf16_length, utf16_length-append, utf16_length-join_lines, utf16_length-decimal, joined_length,
  joined_length-append, join_lines, decimal, ◌<>◌, max, min,
}
use mathlib.Core.Path.{subst}
use claude_code_telegram_kit.Prelude.JsMap
use claude_code_telegram_kit.Prelude.JsMap.{JsMap}
use claude_code_telegram_kit.Applier.Names.{is_topic, topic_file}
use claude_code_telegram_kit.Applier.Leaf.{Memory, sha_at}
use claude_code_telegram_kit.Applier.Ledger.{
  StateFile, MemoryManagedLedger, read_state, read_managed_ledger, is_valid_ledger, ledger_after,
}
use claude_code_telegram_kit.Applier.Ledger.Restored.{ledger_hash}
use claude_code_telegram_kit.Applier.Journal.{
  MemoryApplyPhase, prepared, ledger_applied, committed, MemoryApplyJournalFile, MemoryApplyJournal,
  Platform, World, Place, is_storable, read_file, read_journal, write_journal, remove_journal,
  rollback_journal,
}
use claude_code_telegram_kit.Applier.Apply.{
  Request, request_key, topic_after, View, look, Plan, Decided, refused, unchanged, planned, decide,
}
use claude_code_telegram_kit.Applier.Run.{
  Action, write_file, mark, write_ledger, index_actions, Fate, works, fails, fails_late, crashes,
  Halt, completed, failed, crashed, files_of, next_ledger, journal_of, actions, run,
  MemoryApplierResult, rejected, applied, already_applied, crashed_out, rolled_back,
  rollback_conflict, undone, conclude, Weather, journaled, execute, carry_out, with_view,
  is_committed, apply,
}
use claude_code_telegram_kit.Applier.Run.Recoverable.{IsJournaled, IsRecoverable, run-IsRecoverable}
use claude_code_telegram_kit.Applier.Run.Completed.{Effect, run-done}
use claude_code_telegram_kit.Applier.Run.Planned.{IsPlanned, IsOfTopic, decide-IsPlanned}
use claude_code_telegram_kit.Applier.Run.Started.{journal, IsStarted, write-IsStarted}
use claude_code_telegram_kit.Applier.Run.Undone.{IsAsBefore}
use claude_code_telegram_kit.Applier.Run.Atomic.{rollback-IsAsBefore}
use claude_code_telegram_kit.Applier.Run.Open.{
  open_file, open_at, mark_open, actions-leaves_open, run_open,
}

-- the memory and the ledger are the same, whatever journals there are
abbrev pub IsUntouched : World → World → Type 0
IsUntouched w u = (u.memory ≡ w.memory) × (u.ledger ≡ w.ledger)

-- the hash of the ledger that an apply is to leave
unfoldable pub applied_ledger_hash :
    Platform → Request → Option (Option MemoryManagedLedger) → Option (Option String)
applied_ledger_hash p r none = none
applied_ledger_hash p r (some managed) = some (
    some (
      p.codec.hash (
        p.codec.print (
          ledger_after r.comes managed (topic_file r.topic) (p.codec.hash (topic_after r))
            (request_key p r) r.now))))

-- The file of the topic has the content of the proposal, and the ledger names it.
pub record IsApplied (p : Platform) (r : Request) (w u : World) : Type 0 where
  pub topic :
      sha_at p.codec.hash u.memory (topic_file r.topic) ≡ some (some (p.codec.hash (topic_after r)))
  pub ledger :
      ledger_hash p.codec u.ledger ≡ applied_ledger_hash p r (read_managed_ledger p.codec w.ledger)

-- What a crash leaves: nothing is written yet, or a journal of the request from which the roll-back
-- leaves everything as it was before, or a committed journal of the request, which is applied.
pub data IsCut (p : Platform) (place : Place) (r : Request) (w u : World) : Type 0 where
  unwritten : IsUntouched w u → JsMap.get u.journals (request_key p r) ≡ none → IsCut p place r w u
  left_behind :
      (j : MemoryApplyJournal)
      → read_journal p u (request_key p r) ≡ some (some j)
      → (j.release_sha ≡ r.release_sha)
        × (j.memory_directory ≡ r.memory_directory)
        × (j.directory_sha256 ≡ r.directory_sha256)
        × (j.session_id ≡ r.session_id)
        × (j.prompt_id ≡ r.prompt_id)
        × (is_committed j.phase ≡ false)
      → (rollback_journal p place u j).1 ≡ some 0
      → IsAsBefore p (request_key p r) w (rollback_journal p place u j).0
      → IsCut p place r w u
  left_committed :
      (j : MemoryApplyJournal)
      → read_journal p u (request_key p r) ≡ some (some j)
      → (j.release_sha ≡ r.release_sha)
        × (j.memory_directory ≡ r.memory_directory)
        × (j.directory_sha256 ≡ r.directory_sha256)
        × (is_committed j.phase ≡ true)
      → IsApplied p r w u
      → IsCut p place r w u

-- what a result tells of the world `u` that an apply leaves of `w`
abbrev pub Leaves : Platform → Place → Request → World → World → MemoryApplierResult → Type 0
Leaves p place r w u (rejected reason) = IsUntouched w u
Leaves p place r w u applied = IsApplied p r w u
Leaves p place r w u already_applied = IsUntouched w u
Leaves p place r w u (crashed_out key) = IsCut p place r w u
Leaves p place r w u rolled_back = IsAsBefore p (request_key p r) w u
Leaves p place r w u rollback_conflict = ⊥
