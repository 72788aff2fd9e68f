-- ===== src/Applier/Outcome/Concluded.antt =====
-- What an apply leaves, from the write of its journal on.
use claude_code_telegram_kit.Prelude.{
  ℕ, zero, suc, String, Option, none, some, true, not, ◌&&◌, ◌≡◌, refl, ap, ◌∙◌, List, [], ◌∷◌,
  ◌++◌, arith, str_eq, All, Bool-cases, inl, inr,
}
use mathlib.Core.Path.{subst}
use claude_code_telegram_kit.Applier.Leaf.{sha_at}
use claude_code_telegram_kit.Applier.Ledger.{MemoryManagedLedger, read_managed_ledger}
use claude_code_telegram_kit.Applier.Journal.{
  MemoryApplyPhase, prepared, ledger_applied, committed, MemoryApplyJournalFile, MemoryApplyJournal,
  Platform, World, Place, read_file, read_journal, remove_journal, rollback_journal,
}
use claude_code_telegram_kit.Applier.Apply.{Request, request_key, topic_after, Plan}
use claude_code_telegram_kit.Applier.Run.{
  mark, write_ledger, index_actions, Fate, Halt, completed, failed, crashed, next_ledger,
  journal_of, actions, run, MemoryApplierResult, undone, Ending, removes, keeps, dies, finish,
  conclude, is_committed,
}
use claude_code_telegram_kit.Applier.Run.Recoverable.{IsRecoverable, run-IsRecoverable}
use claude_code_telegram_kit.Applier.Run.Completed.{Effect, run-done}
use claude_code_telegram_kit.Applier.Run.Planned.{IsOfTopic}
use claude_code_telegram_kit.Applier.Run.Started.{journal, IsStarted}
use claude_code_telegram_kit.Applier.Run.Undone.{IsAsBefore}
use claude_code_telegram_kit.Applier.Run.Atomic.{rollback-IsAsBefore}
use claude_code_telegram_kit.Applier.Run.Open.{open_file, open_at, actions-leaves_open, run_open}
use claude_code_telegram_kit.Applier.Outcome.{
  applied_ledger_hash, IsApplied, IsCut, left_behind, left_committed, Leaves,
}

ledger-Effect :
    (p : Platform) (j : MemoryApplyJournal) (u : World) (plan : Plan) (l : MemoryManagedLedger)
    → All (Effect p j u) (actions plan l)
    → Effect p j u (write_ledger l)
unfolding actions index_actions
ledger-Effect p j u plan l (h, (k, hs)) = go plan.index hs
  where
    go :
        (index : Option MemoryApplyJournalFile)
        → All
            (Effect p j u)
            (index_actions index ++ write_ledger l ∷ mark ledger_applied ∷ mark committed ∷ [])
        → Effect p j u (write_ledger l)
    go none h = h.0
    go (some f) h = h.1.1.0

removed-IsApplied :
    (p : Platform) (r : Request) (w u : World) (key : String)
    → IsApplied p r w u
    → IsApplied p r w (remove_journal u key)
unfolding remove_journal
removed-IsApplied p r w u key h = record { topic = h.topic; ledger = h.ledger }

module _ (p : Platform) (place : Place) (r : Request)
    (reach : (place.state_outside && place.opens) ≡ true)
    (own_directory : str_eq (p.codec.hash r.memory_directory) r.directory_sha256 ≡ true) where
  abbrev pub Fine : World → World × MemoryApplierResult → Type 0
  Fine w out = Leaves p place r w out.0 out.1

  module _ (ledger_before : Option String) (w v : World) (plan : Plan)
      (managed : Option MemoryManagedLedger) where
    abbrev next : MemoryManagedLedger
    next = next_ledger p r managed plan

    abbrev j : MemoryApplyJournal
    j = journal p r ledger_before next plan

    through-IsApplied :
        (u : World)
        → All (Effect p j u) (actions plan next)
        → IsOfTopic p.codec.hash r plan
        → read_managed_ledger p.codec w.ledger ≡ some managed
        → IsApplied p r w u
    unfolding applied_ledger_hash next_ledger actions
    through-IsApplied u h topic seen = record {
      topic =
          subst
            (λ path. sha_at p.codec.hash u.memory path ≡ some (some (p.codec.hash (topic_after r))))
            topic.path (h.0 ∙ ap (λ text. some (some (p.codec.hash text))) topic.after);
      ledger = ledger-Effect p j u plan next h ∙ (rw (seen, topic.sha) refl);
    }

    undone_zero :
        (out : World × Option ℕ)
        → out.1 ≡ some 0
        → IsAsBefore p (request_key p r) w out.0
        → Fine w (undone out)
    undone_zero (u, none) e h = ground arith
    undone_zero (u, some zero) e h = h
    undone_zero (u, some (suc n)) e h = ground arith

    left-IsCut :
        (u : World)
        → IsRecoverable p j u
        → open_at (request_key p r) u ≡ true
        → ((phase : MemoryApplyPhase)
            → ((rollback_journal p place u (record j { phase = phase })).1 ≡ some 0)
              × IsAsBefore p
                  (request_key p r)
                  w
                  (rollback_journal p place u (record j { phase = phase })).0)
        → IsCut p place r w u
    unfolding journal_of read_file
    left-IsCut u h o back =
        let phase = h.journaled.phase in
        let stored = h.journaled.stored in
        let opened : not (is_committed phase) ≡ true = subst (λ f. open_file f ≡ true) stored o in
        left_behind (record j { phase = phase }) (rw (stored, h.journaled.storable) refl)
          (refl, refl, refl, refl, refl, ground arith) ((back phase).0) ((back phase).1)

    ended-IsCut :
        (u : World)
        → IsRecoverable p j u
        → IsApplied p r w u
        → ((phase : MemoryApplyPhase)
            → ((rollback_journal p place u (record j { phase = phase })).1 ≡ some 0)
              × IsAsBefore p
                  (request_key p r)
                  w
                  (rollback_journal p place u (record j { phase = phase })).0)
        → IsCut p place r w u
    unfolding journal_of read_file
    ended-IsCut u h ready back =
        let phase = h.journaled.phase in
        let read : read_journal p u (request_key p r) ≡ some (some (record j { phase = phase })) =
          rw (h.journaled.stored, h.journaled.storable) refl in
        elim (Bool-cases (is_committed phase)) [
          | inl over ↦
              left_committed (record j { phase = phase }) read (refl, refl, refl, over) ready
          | inr open_yet ↦
              left_behind (record j { phase = phase }) read (refl, refl, refl, refl, refl, open_yet)
                ((back phase).0) ((back phase).1)
        ]

    finish_lem :
        (ending : Ending) (u : World)
        → IsApplied p r w u
        → IsCut p place r w u
        → Fine w (finish j ending u)
    unfolding finish
    finish_lem removes u ready cut = removed-IsApplied p r w u j.proposal_key ready
    finish_lem keeps u ready cut = ready
    finish_lem dies u ready cut = cut

    -- the journal that any part of the run leaves, and its roll-back
    run-back :
        (fates : List Fate) (out : World × Halt)
        → run p j fates v (actions plan next) ≡ out
        → IsStarted p r ledger_before next w v plan
        → IsRecoverable p j out.0
          × ((phase : MemoryApplyPhase)
              → ((rollback_journal p place out.0 (record j { phase = phase })).1 ≡ some 0)
                × IsAsBefore p
                    (request_key p r)
                    w
                    (rollback_journal p place out.0 (record j { phase = phase })).0)
    run-back fates out e s =
        subst
          (λ x.
            IsRecoverable p j x.0
            × ((phase : MemoryApplyPhase)
                → ((rollback_journal p place x.0 (record j { phase = phase })).1 ≡ some 0)
                  × IsAsBefore p (request_key p r) w
                      (rollback_journal p place x.0 (record j { phase = phase })).0))
          e
          (
            run-IsRecoverable p j next fates v (actions plan next) s.promised s.own s.recoverable,
            λ phase.
                rollback-IsAsBefore p place r ledger_before next reach own_directory w v plan fates
                  phase s,
          )

    pub conclude_lem :
        (fates : List Fate) (ending : Ending) (out : World × Halt)
        → run p j fates v (actions plan next) ≡ out
        → IsStarted p r ledger_before next w v plan
        → IsOfTopic p.codec.hash r plan
        → read_managed_ledger p.codec w.ledger ≡ some managed
        → open_at (request_key p r) v ≡ true
        → Fine w (conclude p place j ending out)
    unfolding conclude journal_of
    conclude_lem fates ending (u, completed) e s topic seen begun =
        let back = run-back fates (u, completed) e s in
        let ready =
          through-IsApplied u
            (subst (λ x. All (Effect p j x) (actions plan next)) (ap (λ o. o.0) e)
              (run-done p j fates v (actions plan next) s.independent_actions (ap (λ o. o.1) e)))
            topic seen in
        finish_lem ending u ready (ended-IsCut u (back.0) ready (back.1))
    conclude_lem fates ending (u, failed) e s topic seen begun =
        let back = (run-back fates (u, failed) e s).1 prepared in
        undone_zero (rollback_journal p place u j) (back.0) (back.1)
    conclude_lem fates ending (u, crashed) e s topic seen begun =
        let back = run-back fates (u, crashed) e s in
        left-IsCut u (back.0)
          (subst (λ x. open_at (request_key p r) x ≡ true) (ap (λ o. o.0) e)
            (run_open p j fates v (actions plan next) (actions-leaves_open plan next) begun
              (ap (λ o. o.1) e)))
          (back.1)
