-- ===== src/Applier/Run.antt =====
-- packages/shared/src/memory-applier.ts: the writes of an apply, in their order, what stops them, and
-- what follows.
pub mod UnderWay
pub mod Recoverable
pub mod Completed
pub mod Planned
pub mod Started
pub mod Undone
pub mod Atomic
pub mod Open
use claude_code_telegram_kit.Prelude.{
  ℕ, zero, suc, ◌+◌, ◌-◌, ◌*◌, ◌/◌, ◌%◌, ◌^◌, ◌≤◌, ◌<◌, String, Option, none, some, Bool, true,
  false, not, ◌&&◌, ◌||◌, ◌≡◌, ◌≢◌, ◌⊎◌, ◌↔◌, refl, sym, ap, ◌∙◌, inl, inr, List, [], ◌∷◌, ◌++◌,
  map, append-nil, append_assoc, arith, str_eq, eq_iff, eq_refl, if◌then◌else◌, ltb, leb, ◌==◌,
  Bool-cases, Option-cases, length, length-append, length-map, is_some, any, all, All, get_elem?,
  utf16_length, utf16_length-append, utf16_length-join_lines, utf16_length-decimal, joined_length,
  joined_length-append, join_lines, decimal, ◌<>◌, max, min,
}
use claude_code_telegram_kit.Prelude.JsMap
use claude_code_telegram_kit.Prelude.JsMap.{JsMap}
use claude_code_telegram_kit.Applier.Names.{topic_file, is_topic}
use claude_code_telegram_kit.Applier.Leaf.{Memory, MemoryLeafImage, write_cas, sha_of}
use claude_code_telegram_kit.Applier.Ledger.{
  StateFile, MemoryManagedLedger, is_valid_ledger, read_state, write_managed_ledger, ledger_after,
  state_hash,
}
use claude_code_telegram_kit.Applier.Journal.{
  MemoryApplyPhase, prepared, topic_applied, index_applied, ledger_applied, committed,
  MemoryApplyJournalFile, MemoryApplyJournal, Platform, World, Place, read_journal, write_journal,
  remove_journal, rollback_journal,
}
use claude_code_telegram_kit.Applier.Apply.{
  Request, request_key, View, look, Plan, Decided, refused, unchanged, planned, decide,
}

pub data Action : Type 0 where
  write_file : MemoryApplyJournalFile → Action
  mark : MemoryApplyPhase → Action
  write_ledger : MemoryManagedLedger → Action

-- What an action meets: it works, throws before its effect or after it, or the process ends.
pub data Fate : Type 0 where
  works fails fails_late crashes : Fate

pub data Halt : Type 0 where
  completed failed crashed : Halt

abbrev pub fate_of : List Fate → Fate
fate_of [] = works
fate_of (f ∷ _) = f

abbrev pub later : List Fate → List Fate
later [] = []
later (_ ∷ fs) = fs

unfoldable pub index_files : Option MemoryApplyJournalFile → List MemoryApplyJournalFile
index_files none = []
index_files (some f) = f ∷ []

abbrev pub files_of : Plan → List MemoryApplyJournalFile
files_of plan = plan.topic ∷ index_files plan.index

unfoldable pub next_ledger :
    Platform → Request → Option MemoryManagedLedger → Plan → MemoryManagedLedger
next_ledger p r managed_before plan =
    ledger_after r.comes managed_before (topic_file r.topic) plan.topic.after_sha256
      (request_key p r) r.now

-- the journal before anything is written; `ledger_before` are the bytes of the ledger
unfoldable pub journal_of :
    Platform → Request → Plan → Option String → MemoryManagedLedger → MemoryApplyJournal
journal_of p r plan ledger_before next = record {
  proposal_key = request_key p r;
  session_id = r.session_id;
  prompt_id = r.prompt_id;
  release_sha = r.release_sha;
  directory_sha256 = r.directory_sha256;
  memory_directory = r.memory_directory;
  phase = prepared;
  files = files_of plan;
  ledger_before = ledger_before;
  ledger_before_sha256 = state_hash p.codec.hash ledger_before;
  ledger_after_sha256 = p.codec.hash (p.codec.print next);
  created_at = r.now;
}

unfoldable pub index_actions : Option MemoryApplyJournalFile → List Action
index_actions none = []
index_actions (some f) = write_file f ∷ mark index_applied ∷ []

-- the `try` block, in order
unfoldable pub actions : Plan → MemoryManagedLedger → List Action
actions plan next =
    write_file plan.topic ∷ mark topic_applied ∷ index_actions plan.index
    ++ write_ledger next ∷ mark ledger_applied ∷ mark committed ∷ []

abbrev with_memory : World → Memory × Bool → World × Bool
with_memory w r = (record w { memory = r.0 }, r.1)

abbrev with_ledger : World → Option (StateFile String) × Bool → World × Bool
with_ledger w r = (record w { ledger = r.0 }, r.1)

-- one action, and whether it did not throw
unfoldable pub perform : Platform → MemoryApplyJournal → World → Action → World × Bool
perform p j w (write_file f) = with_memory w (write_cas p.codec.hash w.memory f.before f.after)
perform p j w (mark phase) = write_journal p w (record j { phase = phase })
perform p j w (write_ledger l) = with_ledger w (write_managed_ledger p.codec w.ledger l)

-- what one action leaves, of `done` once it is performed and of `rest` once all that follow are run
unfoldable pub after_fate : Fate → World → World × Bool → World × Halt → World × Halt
after_fate works w done rest = if done.1 then rest else (done.0, failed)
after_fate fails w done rest = (w, failed)
after_fate fails_late w done rest = (done.0, failed)
after_fate crashes w done rest = (w, crashed)

-- the actions where nobody else writes
unfoldable pub run : Platform → MemoryApplyJournal → List Fate → World → List Action → World × Halt
run p j fates w [] = (w, completed)
run p j fates w (a ∷ todo) =
    let done = perform p j w a in
    after_fate (fate_of fates) w done (run p j (later fates) done.0 todo)

-- what another process does to the memory before the next action
abbrev pub met : List (Memory → Memory) → World → World
met [] w = w
met (change ∷ _) w = record w { memory = change w.memory }

abbrev pub later_others : List (Memory → Memory) → List (Memory → Memory)
later_others [] = []
later_others (_ ∷ others) = others

-- the actions among other writers of the memory
unfoldable pub run_among :
    Platform
    → MemoryApplyJournal
    → List (Memory → Memory)
    → List Fate
    → World
    → List Action
    → World × Halt
run_among p j others fates w [] = (w, completed)
run_among p j others fates w (a ∷ todo) =
    let found = met others w in
    let done = perform p j found a in
    after_fate (fate_of fates) found done
      (run_among p j (later_others others) (later fates) done.0 todo)

-- the results without the path and the hashes that some carry
pub data MemoryApplierResult : Type 0 where
  rejected : String → MemoryApplierResult
  applied already_applied : MemoryApplierResult
  crashed_out : String → MemoryApplierResult
  rolled_back rollback_conflict : MemoryApplierResult

abbrev pub undone : World × Option ℕ → World × MemoryApplierResult
undone (w, none) = (w, rejected "applier_failure")
undone (w, some zero) = (w, rolled_back)
undone (w, some (suc n)) = (w, rollback_conflict)

-- How a committed apply ends: its journal is removed, or cannot be, or the process ends before that.
pub data Ending : Type 0 where
  removes keeps dies : Ending

-- A committed journal that is not removed is left for the recovery.
unfoldable pub finish : MemoryApplyJournal → Ending → World → World × MemoryApplierResult
finish j removes w = (remove_journal w j.proposal_key, applied)
finish j keeps w = (w, applied)
finish j dies w = (w, crashed_out j.proposal_key)

unfoldable pub conclude :
    Platform → Place → MemoryApplyJournal → Ending → World × Halt → World × MemoryApplierResult
conclude p place j ending (w, completed) = finish j ending w
conclude p place j ending (w, failed) = undone (rollback_journal p place w j)
conclude p place j ending (w, crashed) = (w, crashed_out j.proposal_key)

-- The fates are those of the journal's first write, and of the actions in turn; `others` is what other
-- processes do to the memory before each action; `ending` is the end of an apply that is committed.
pub record Weather : Type 0 where
  pub first : Fate
  pub others : List (Memory → Memory)
  pub fates : List Fate
  pub ending : Ending

-- `stored` is the world with the journal, `rest` what the apply comes to from there
unfoldable pub begin_with :
    Fate → World → String → World × Bool → World × MemoryApplierResult → World × MemoryApplierResult
begin_with works w key stored rest =
    if stored.1 then rest else (w, rejected "applier state exceeds limit")
begin_with fails w key stored rest = (w, rejected "applier_failure")
begin_with fails_late w key stored rest = (stored.0, rejected "applier_failure")
begin_with crashes w key stored rest = (w, crashed_out key)

abbrev pub journaled :
    Platform
    → Place
    → Weather
    → MemoryApplyJournal
    → List Action
    → World
    → World × Bool
    → World × MemoryApplierResult
journaled p place weather j todo w stored =
    begin_with weather.first w j.proposal_key stored
      (conclude p place j weather.ending (run_among p j weather.others weather.fates stored.0 todo))

unfoldable pub execute :
    Platform
    → Place
    → Weather
    → Request
    → World
    → Option MemoryManagedLedger
    → Plan
    → Option (Option String)
    → World × MemoryApplierResult
execute p place weather r w managed_before plan none = (w, rejected "applier_failure")
execute p place weather r w managed_before plan (some ledger_before) =
    let next = next_ledger p r managed_before plan in
    let j = journal_of p r plan ledger_before next in
    if is_valid_ledger next
    then journaled p place weather j (actions plan next) w (write_journal p w j)
    else (w, rejected "invalid managed ledger")

unfoldable pub carry_out :
    Platform → Place → Weather → Request → World → View → Decided → World × MemoryApplierResult
carry_out p place weather r w v (refused reason) = (w, rejected reason)
carry_out p place weather r w v unchanged = (w, already_applied)
carry_out p place weather r w v (planned plan) =
    execute p place weather r w v.managed_before plan (read_state w.ledger)

unfoldable pub with_view :
    Platform → Place → Weather → Request → World → Option View → World × MemoryApplierResult
with_view p place weather r w none = (w, rejected "applier_failure")
with_view p place weather r w (some v) = carry_out p place weather r w v (decide p r w.memory v)

abbrev pub is_committed : MemoryApplyPhase → Bool
is_committed committed = true
is_committed _ = false

unfoldable pub apply_pending :
    Platform
    → Place
    → Weather
    → Request
    → World
    → Option (Option MemoryApplyJournal)
    → World × MemoryApplierResult
apply_pending p place weather r w none = (w, rejected "applier_failure")
apply_pending p place weather r w (some none) = with_view p place weather r w (look p r w)
apply_pending p place weather r w (some (some pending)) =
    let cleared = remove_journal w (request_key p r) in
    if is_committed pending.phase
    then with_view p place weather r cleared (look p r cleared)
    else (w, rejected "pending_recovery")

-- `applyMemoryReviewProposal` once the options are valid and both claims are held
abbrev pub apply : Platform → Place → Weather → Request → World → World × MemoryApplierResult
apply p place weather r w = apply_pending p place weather r w (read_journal p w (request_key p r))
