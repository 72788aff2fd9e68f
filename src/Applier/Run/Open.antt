-- ===== src/Applier/Run/Open.antt =====
-- A crash leaves a journal that is not committed.
use claude_code_telegram_kit.Prelude.{
  String, Option, none, some, Bool, true, false, not, ◌&&◌, ◌≡◌, ◌≢◌, ◌⊎◌, refl, inl, inr, List, [],
  ◌∷◌, ◌++◌, arith, eq_refl, Bool-cases,
}
use claude_code_telegram_kit.Prelude.JsMap
use claude_code_telegram_kit.Prelude.JsMap.{JsMap}
use claude_code_telegram_kit.Applier.Ledger.{StateFile, MemoryManagedLedger}
use claude_code_telegram_kit.Applier.Journal.{
  MemoryApplyPhase, prepared, topic_applied, index_applied, ledger_applied, committed,
  MemoryApplyJournalFile, MemoryApplyJournal, Platform, World, is_storable, write_journal,
}
use claude_code_telegram_kit.Applier.Apply.{Plan}
use claude_code_telegram_kit.Applier.Run.{
  Action, write_file, mark, write_ledger, Fate, works, fails, fails_late, crashes, Halt, completed,
  failed, crashed, fate_of, later, perform, after_fate, run, index_actions, actions, is_committed,
}

abbrev pub open_file : Option (StateFile MemoryApplyJournal) → Bool
open_file none = true
open_file (some f) = not (is_committed f.value.phase)

-- the journal, if there is one, is not committed
abbrev pub open_at : String → World → Bool
open_at key w = open_file (JsMap.get w.journals key)

abbrev is_closing : Action → Bool
is_closing (mark committed) = true
is_closing _ = false

-- only the last action commits
abbrev pub leaves_open : List Action → Bool
leaves_open [] = true
leaves_open (a ∷ []) = true
leaves_open (a ∷ b ∷ l) = not (is_closing a) && leaves_open (b ∷ l)

pub actions-leaves_open :
    (plan : Plan) (l : MemoryManagedLedger) → leaves_open (actions plan l) ≡ true
unfolding actions index_actions
actions-leaves_open plan l = go plan.index
  where
    go :
        (index : Option MemoryApplyJournalFile)
        → leaves_open (
            write_file plan.topic ∷ mark topic_applied ∷ index_actions index
            ++ write_ledger l ∷ mark ledger_applied ∷ mark committed ∷ [])
          ≡ true
    go none = refl
    go (some f) = refl

module _ (p : Platform) (j : MemoryApplyJournal) where
  pub mark_open :
      (w : World) (phase : MemoryApplyPhase)
      → is_committed phase ≡ false
      → open_at j.proposal_key w ≡ true
      → open_at j.proposal_key (write_journal p w (record j { phase = phase })).0 ≡ true
  unfolding write_journal
  mark_open w phase e h = elim (Bool-cases (is_storable p (record j { phase = phase }))) [
    | inr too_large ↦ rw too_large h
    | inl storable ↦
        rw
          (
            storable,
            JsMap.get-put w.journals j.proposal_key j.proposal_key
                (record { value = record j { phase = phase }; is_safe = true }),
            eq_refl j.proposal_key,
            e,
          )
          refl
  ]

  perform_open :
      (w : World) (a : Action)
      → is_closing a ≡ false
      → open_at j.proposal_key w ≡ true
      → open_at j.proposal_key (perform p j w a).0 ≡ true
  unfolding perform
  perform_open w (write_file f) c h = h
  perform_open w (mark prepared) c h = mark_open w prepared refl h
  perform_open w (mark topic_applied) c h = mark_open w topic_applied refl h
  perform_open w (mark index_applied) c h = mark_open w index_applied refl h
  perform_open w (mark ledger_applied) c h = mark_open w ledger_applied refl h
  perform_open w (mark committed) c h = ground arith
  perform_open w (write_ledger l) c h = h

  after_fate_open :
      (fate : Fate) (w : World) (done : World × Bool) (rest : World × Halt)
      → (after_fate fate w done rest).1 ≡ crashed
      → open_at j.proposal_key w ≡ true
      → ((rest.1 ≢ crashed) ⊎ (open_at j.proposal_key rest.0 ≡ true))
      → open_at j.proposal_key (after_fate fate w done rest).0 ≡ true
  unfolding after_fate
  after_fate_open works w done rest c h k = elim (Bool-cases done.1) [
    | inl ok ↦ ground arith
    | inr threw ↦ ground arith
  ]
  after_fate_open fails w done rest c h k = ground arith
  after_fate_open fails_late w done rest c h k = ground arith
  after_fate_open crashes w done rest c h k = h

  Halt-cases : (h : Halt) → (h ≢ crashed) ⊎ (h ≡ crashed)
  Halt-cases completed = inl (λ e. ground arith)
  Halt-cases failed = inl (λ e. ground arith)
  Halt-cases crashed = inr refl

  -- A run that the end of the process cuts off has not committed.
  pub run_open :
      (fates : List Fate) (w : World) (todo : List Action)
      → leaves_open todo ≡ true
      → open_at j.proposal_key w ≡ true
      → (run p j fates w todo).1 ≡ crashed
      → open_at j.proposal_key (run p j fates w todo).0 ≡ true
  unfolding run
  run_open fates w [] o h c = ground arith
  run_open fates w (a ∷ []) o h c =
      after_fate_open (fate_of fates) w (perform p j w a)
        (run p j (later fates) (perform p j w a).0 []) c h (inl (λ e. ground arith))
  run_open fates w (a ∷ b ∷ todo) o h c =
      after_fate_open (fate_of fates) w (perform p j w a)
        (run p j (later fates) (perform p j w a).0 (b ∷ todo)) c h
        (elim (Halt-cases (run p j (later fates) (perform p j w a).0 (b ∷ todo)).1) [
          | inl other ↦ inl other
          | inr cut ↦ inr (
              run_open (later fates) (perform p j w a).0 (b ∷ todo) (ground arith)
                (perform_open w a (ground arith) h) cut)
        ])
