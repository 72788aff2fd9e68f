-- ===== src/Applier/Run/Atomic.antt =====
-- The roll-back of an apply, from what any part of it leaves.
use claude_code_telegram_kit.Prelude.{
  String, Option, some, true, ◌&&◌, ◌≡◌, sym, ap, ◌∙◌, inl, inr, List, str_eq, Bool-cases,
}
use claude_code_telegram_kit.Applier.Leaf.{sha_at}
use claude_code_telegram_kit.Applier.Ledger.{MemoryManagedLedger}
use claude_code_telegram_kit.Applier.Journal.{
  MemoryApplyPhase, MemoryApplyJournal, Platform, World, Place, apart, rollback_journal,
}
use claude_code_telegram_kit.Applier.Journal.Outcome.{
  rollback_journal_sound, rollback_journal_complete,
}
use claude_code_telegram_kit.Applier.Apply.{Request, request_key, Plan}
use claude_code_telegram_kit.Applier.Run.{Fate, files_of, journal_of, run, actions}
use claude_code_telegram_kit.Applier.Run.Recoverable.{run-IsRecoverable}
use claude_code_telegram_kit.Applier.Run.Started.{journal, IsStarted}
use claude_code_telegram_kit.Applier.Run.Undone.{
  IsAsBefore, RestoredAt-path, run-other, rollback_journal-other,
}

module _ (p : Platform) (place : Place) (r : Request) (ledger_before : Option String)
    (next : MemoryManagedLedger) (reach : (place.state_outside && place.opens) ≡ true)
    (own_directory : str_eq (p.codec.hash r.memory_directory) r.directory_sha256 ≡ true) where
  abbrev journal_at : Plan → MemoryApplyPhase → MemoryApplyJournal
  journal_at plan phase = record (journal p r ledger_before next plan) { phase = phase }

  -- The roll-back of a started apply, from what any part of it leaves, has no conflict and leaves
  -- everything as it was before.
  pub rollback-IsAsBefore :
      (w v : World) (plan : Plan) (fates : List Fate) (phase : MemoryApplyPhase)
      → IsStarted p r ledger_before next w v plan
      → let cut = (run p (journal p r ledger_before next plan) fates v (actions plan next)).0 in
        ((rollback_journal p place cut (journal_at plan phase)).1 ≡ some 0)
        × IsAsBefore p (request_key p r) w (rollback_journal p place cut (journal_at plan phase)).0
  unfolding journal_of
  rollback-IsAsBefore w v plan fates phase s =
      let j = journal p r ledger_before next plan in
      let cut = (run p j fates v (actions plan next)).0 in
      let rec =
        run-IsRecoverable p j next fates v (actions plan next) s.promised s.own s.recoverable in
      let ok =
        rollback_journal_complete p place cut (journal_at plan phase) reach own_directory
          s.promised.distinct_files s.small s.restorable
          (record { files = rec.under_way.files; ledger = rec.under_way.ledger }) in
      let back =
        rollback_journal_sound p place cut (journal_at plan phase) s.promised.distinct_files s.valid
          ok in
      (
        ok,
        record {
          files = λ path. elim (Bool-cases (apart path (files_of plan))) [
            | inl away ↦
                rollback_journal-other p place cut (journal_at plan phase) path away
                ∙ run-other p j next fates v (actions plan next) path s.own away
                ∙ ap (λ m. sha_at p.codec.hash m path) s.memory
            | inr within ↦
                RestoredAt-path p.codec.hash w.memory
                  (rollback_journal p place cut (journal_at plan phase)).0.memory (files_of plan)
                  path s.captured back.files within
          ];
          ledger = back.ledger ∙ sym s.ledger;
          journal = back.journal;
        },
      )
