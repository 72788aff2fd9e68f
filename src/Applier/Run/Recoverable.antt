-- ===== src/Applier/Run/Recoverable.antt =====
-- What any part of an apply leaves can be recovered from: its files, the ledger and the journal.
use claude_code_telegram_kit.Prelude.{
  String, Option, some, Bool, true, ◌≡◌, ◌⊎◌, refl, ap, ◌∙◌, inl, inr, List, [], ◌∷◌, eq_refl,
  Bool-cases, All,
}
use claude_code_telegram_kit.Prelude.JsMap
use claude_code_telegram_kit.Prelude.JsMap.{JsMap}
use claude_code_telegram_kit.Applier.Leaf.{byte_length}
use claude_code_telegram_kit.Applier.Ledger.{
  StateFile, MemoryManagedLedger, write_state, write_managed_ledger, state_hash, is_valid_ledger,
  state_size_ok,
}
use claude_code_telegram_kit.Applier.Ledger.Restored.{ledger_hash, ledger_hash-write_state}
use claude_code_telegram_kit.Applier.Journal.{
  MemoryApplyPhase, MemoryApplyJournal, Platform, World, is_storable, write_journal, distinct,
}
use claude_code_telegram_kit.Applier.Journal.Outcome.{IsUnderWay}
use claude_code_telegram_kit.Applier.Run.{
  after_fate, fate_of, later, Action, write_file, mark, write_ledger, Fate, works, fails,
  fails_late, crashes, Halt, perform, run,
}
use claude_code_telegram_kit.Applier.Run.UnderWay.{In, SoundAfter, Between-write_cas}

-- what a journal's own actions are
abbrev pub IsOwn : MemoryApplyJournal → MemoryManagedLedger → Action → Type 0
IsOwn j next (write_file f) = In f j.files
IsOwn j next (mark phase) = Unit
IsOwn j next (write_ledger l) = l ≡ next

-- the journal in the store, at any of its phases
pub record IsJournaled (p : Platform) (j : MemoryApplyJournal) (w : World) : Type 0 where
  pub phase : MemoryApplyPhase
  pub stored :
      JsMap.get w.journals j.proposal_key
      ≡ some (record { value = record j { phase = phase }; is_safe = true })
  pub storable : is_storable p (record j { phase = phase }) ≡ true

-- An apply that is under way can be recovered: its files and the ledger are as they were before or as
-- it would leave them, and its journal is in the store.
pub record IsRecoverable (p : Platform) (j : MemoryApplyJournal) (w : World) : Type 0 where
  pub under_way : IsUnderWay p j w
  pub journaled : IsJournaled p j w

write_state_cases :
    (old : Option (StateFile String)) (bytes : String)
    → ((write_state old bytes).0 ≡ old) ⊎ ((write_state old bytes).1 ≡ true)
unfolding write_state
write_state_cases old bytes = elim (Bool-cases (state_size_ok (byte_length bytes))) [
  | inl small ↦ rw small (inr refl)
  | inr large ↦ rw large (inl refl)
]

module _ (p : Platform) (j : MemoryApplyJournal) (next : MemoryManagedLedger) where
  -- what the applier promises of the files and the ledger that it will write
  pub record IsPromised : Type 0 where
    pub distinct_files : distinct j.files ≡ true
    pub sound : All (SoundAfter p.codec.hash) j.files
    pub ledger : p.codec.hash (p.codec.print next) ≡ j.ledger_after_sha256

  ledger_between :
      (w : World)
      → IsPromised
      → (ledger_hash p.codec w.ledger ≡ some (state_hash p.codec.hash j.ledger_before))
        ⊎ (ledger_hash p.codec w.ledger ≡ some (some j.ledger_after_sha256))
      → (ledger_hash p.codec (write_managed_ledger p.codec w.ledger next).0
          ≡ some (state_hash p.codec.hash j.ledger_before))
        ⊎ (ledger_hash p.codec (write_managed_ledger p.codec w.ledger next).0
            ≡ some (some j.ledger_after_sha256))
  unfolding write_managed_ledger
  ledger_between w h before = elim (Bool-cases (is_valid_ledger next)) [
    | inl valid ↦ rw valid (elim (write_state_cases w.ledger (p.codec.print next)) [
      | inl same ↦ rw same before
      | inr ok ↦ inr (
          ledger_hash-write_state p.codec w.ledger (p.codec.print next) ok
          ∙ ap (λ s. some (some s)) h.ledger)
    ])
    | inr invalid ↦ rw invalid before
  ]

  mark-IsRecoverable :
      (w : World) (phase : MemoryApplyPhase)
      → IsRecoverable p j w
      → IsRecoverable p j (write_journal p w (record j { phase = phase })).0
  unfolding write_journal
  mark-IsRecoverable w phase r = elim (Bool-cases (is_storable p (record j { phase = phase }))) [
    | inr too_large ↦ rw too_large r
    | inl storable ↦ rw storable (record {
      under_way = record { files = r.under_way.files; ledger = r.under_way.ledger };
      journaled = record {
        phase = phase;
        stored =
            rw
              (
                JsMap.get-put w.journals j.proposal_key j.proposal_key
                    (record { value = record j { phase = phase }; is_safe = true }),
                eq_refl j.proposal_key,
              )
              refl;
        storable = storable;
      };
    })
  ]

  -- An action of the apply keeps it recoverable, also where it throws.
  pub perform-IsRecoverable :
      (w : World) (a : Action)
      → IsPromised
      → IsOwn j next a
      → IsRecoverable p j w
      → IsRecoverable p j (perform p j w a).0
  unfolding perform
  perform-IsRecoverable w (write_file f) h own r = record {
    under_way = record {
      files =
          Between-write_cas p.codec.hash w.memory f j.files own h.distinct_files h.sound
            r.under_way.files;
      ledger = r.under_way.ledger;
    };
    journaled = record {
      phase = r.journaled.phase;
      stored = r.journaled.stored;
      storable = r.journaled.storable;
    };
  }
  perform-IsRecoverable w (mark phase) h own r = mark-IsRecoverable w phase r
  perform-IsRecoverable w (write_ledger l) h own r = record {
    under_way = record {
      files = r.under_way.files;
      ledger = rw own (ledger_between w h r.under_way.ledger);
    };
    journaled = record {
      phase = r.journaled.phase;
      stored = r.journaled.stored;
      storable = r.journaled.storable;
    };
  }

  after_fate-IsRecoverable :
      (fate : Fate) (w : World) (done : World × Bool) (rest : World × Halt)
      → IsRecoverable p j w
      → IsRecoverable p j done.0
      → IsRecoverable p j rest.0
      → IsRecoverable p j (after_fate fate w done rest).0
  unfolding after_fate
  after_fate-IsRecoverable works w done rest r s t = elim (Bool-cases done.1) [
    | inl ok ↦ rw ok t
    | inr threw ↦ rw threw s
  ]
  after_fate-IsRecoverable fails w done rest r s t = r
  after_fate-IsRecoverable fails_late w done rest r s t = s
  after_fate-IsRecoverable crashes w done rest r s t = r

  -- What any part of an apply leaves can be recovered.
  pub run-IsRecoverable :
      (fates : List Fate) (w : World) (todo : List Action)
      → IsPromised
      → All (IsOwn j next) todo
      → IsRecoverable p j w
      → IsRecoverable p j (run p j fates w todo).0
  unfolding run
  run-IsRecoverable fates w [] h own r = r
  run-IsRecoverable fates w (a ∷ todo) h (own, owns) r =
      let next_one = perform-IsRecoverable w a h own r in
      after_fate-IsRecoverable (fate_of fates) w (perform p j w a)
        (run p j (later fates) (perform p j w a).0 todo) r next_one
        (run-IsRecoverable (later fates) (perform p j w a).0 todo h owns next_one)
