-- ===== src/Applier/Run/Started.antt =====
-- What holds once the journal of an apply is written.
use claude_code_telegram_kit.Prelude.{
  String, Option, none, some, true, ◌&&◌, ◌≡◌, refl, sym, inl, inr, List, [], ◌∷◌, arith, eq_refl,
  Bool-cases, Option-cases, all, All,
}
use mathlib.Core.Path.{subst}
use claude_code_telegram_kit.Prelude.JsMap
use claude_code_telegram_kit.Prelude.JsMap.{JsMap}
use claude_code_telegram_kit.Applier.Leaf.{Memory, sha_of_image, byte_length}
use claude_code_telegram_kit.Applier.Ledger.{
  StateFile, Codec, MemoryManagedLedger, read_state, read_ledger_bytes, read_managed_ledger, parses,
  state_hash, state_size_ok,
}
use claude_code_telegram_kit.Applier.Ledger.Restored.{hash_of_read, ledger_hash, is_restorable}
use claude_code_telegram_kit.Applier.Journal.{
  prepared, MemoryApplyJournalFile, MemoryApplyJournal, Platform, World, is_storable,
  is_valid_journal, is_valid_file, write_journal, distinct,
}
use claude_code_telegram_kit.Applier.Journal.Restores.{Between}
use claude_code_telegram_kit.Applier.Journal.Outcome.{valid_before, fits_before}
use claude_code_telegram_kit.Applier.Apply.{Request, request_key, Plan}
use claude_code_telegram_kit.Applier.Run.{index_files, files_of, journal_of, index_actions, actions}
use claude_code_telegram_kit.Applier.Run.UnderWay.{here, there}
use claude_code_telegram_kit.Applier.Run.Recoverable.{IsOwn, IsRecoverable, IsPromised}
use claude_code_telegram_kit.Applier.Run.Completed.{independent}
use claude_code_telegram_kit.Applier.Run.Planned.{Captured, IsPlanned}

-- a captured file is as it was before
Captured-Between :
    (hash : String → String) (m : Memory) (l : List MemoryApplyJournalFile)
    → All (λ f. Captured hash m f.before) l
    → All (Between hash m) l
unfolding sha_of_image
Captured-Between hash m [] h = tt
Captured-Between hash m (f ∷ l) (h, k) = (inl (rw h refl), Captured-Between hash m l k)

-- a ledger that was read can be restored
read-is_restorable :
    (c : Codec) (file : Option (StateFile String)) (bytes : Option String)
    (managed : Option MemoryManagedLedger)
    → read_state file ≡ some bytes
    → read_managed_ledger c file ≡ some managed
    → is_restorable c bytes ≡ true
unfolding read_state read_managed_ledger read_ledger_bytes is_restorable
read-is_restorable c none bytes managed h k = ground arith
read-is_restorable c (some file) bytes managed h k =
    elim (Bool-cases (file.is_safe && state_size_ok (byte_length file.value))) [
      | inl good ↦ elim (Option-cases (parses c file.value)) [
        | inl bad ↦ ground arith
        | inr (l, parsed) ↦
            let same : bytes ≡ some file.value = ground arith in rw (same, parsed) (ground arith)
      ]
      | inr bad ↦ ground arith
    ]

all-valid_before :
    (p : Platform) (l : List MemoryApplyJournalFile)
    → all (is_valid_file p.codec.hash) l ≡ true
    → all (valid_before p.codec) l ≡ true
unfolding is_valid_file
all-valid_before p [] h = refl
all-valid_before p (f ∷ l) h = ground (arith, all-valid_before p l)

storable-valid_before :
    (p : Platform) (j : MemoryApplyJournal)
    → is_storable p j ≡ true
    → all (valid_before p.codec) j.files ≡ true
unfolding is_storable is_valid_journal
storable-valid_before p j h = all-valid_before p j.files (ground arith)

module _ (p : Platform) (r : Request) (ledger_before : Option String)
    (next : MemoryManagedLedger) where
  abbrev pub journal : Plan → MemoryApplyJournal
  journal plan = journal_of p r plan ledger_before next

  own_from :
      (t : MemoryApplyJournalFile) (index : Option MemoryApplyJournalFile)
      → All
          (IsOwn (journal (record { topic = t; index = index })) next)
          (actions (record { topic = t; index = index }) next)
  unfolding journal_of actions index_actions index_files
  own_from t none = (here, (tt, (refl, (tt, (tt, tt)))))
  own_from t (some f) = (here, (tt, (there here, (tt, (refl, (tt, (tt, tt)))))))

  independent_from :
      (t : MemoryApplyJournalFile) (index : Option MemoryApplyJournalFile)
      → distinct (t ∷ index_files index) ≡ true
      → independent (actions (record { topic = t; index = index }) next) ≡ true
  unfolding actions index_actions index_files
  independent_from t none h = refl
  independent_from t (some f) h = ground arith

  -- What holds of the files and the ledger of the world `w`, and of the world `v` in which the journal
  -- is written.
  pub record IsStarted (w v : World) (plan : Plan) : Type 0 where
    pub recoverable : IsRecoverable p (journal plan) v
    pub promised : IsPromised p (journal plan) next
    pub own : All (IsOwn (journal plan) next) (actions plan next)
    pub independent_actions : independent (actions plan next) ≡ true
    pub captured : All (λ f. Captured p.codec.hash w.memory f.before) (files_of plan)
    pub small : all fits_before (files_of plan) ≡ true
    pub valid : all (valid_before p.codec) (files_of plan) ≡ true
    pub restorable : is_restorable p.codec ledger_before ≡ true
    pub ledger : ledger_hash p.codec w.ledger ≡ some (state_hash p.codec.hash ledger_before)
    pub memory : v.memory ≡ w.memory

  abbrev put_journal : World → Plan → World
  put_journal w plan = record w {
    journals =
        JsMap.put w.journals (request_key p r) (record { value = journal plan; is_safe = true });
  }

  -- A journal that is written starts the apply.
  pub write-IsStarted :
      (w : World) (plan : Plan) (managed : Option MemoryManagedLedger)
      → IsPlanned p.codec.hash w.memory (files_of plan)
      → read_managed_ledger p.codec w.ledger ≡ some managed
      → read_state w.ledger ≡ some ledger_before
      → (write_journal p w (journal plan)).1 ≡ true
      → IsStarted w (write_journal p w (journal plan)).0 plan
  unfolding journal_of write_journal hash_of_read
  write-IsStarted w plan managed h seen bytes ok =
      elim (Bool-cases (is_storable p (journal plan))) [
        | inr too_large ↦ ground arith
        | inl storable ↦
            let written : write_journal p w (journal plan) ≡ (put_journal w plan, true) =
              rw storable refl in
            subst (λ v. IsStarted w v.0 plan) (sym written)
              (record {
                recoverable = begun storable;
                promised = record {
                  distinct_files = h.distinct_files;
                  sound = h.sound;
                  ledger = refl;
                };
                own = own_from plan.topic plan.index;
                independent_actions = independent_from plan.topic plan.index h.distinct_files;
                captured = h.captured;
                small = h.small;
                valid = storable-valid_before p (journal plan) storable;
                restorable = read-is_restorable p.codec w.ledger ledger_before managed bytes seen;
                ledger = before;
                memory = refl;
              })
      ]
    where
      before : ledger_hash p.codec w.ledger ≡ some (state_hash p.codec.hash ledger_before)
      before = rw bytes refl

      begun :
          is_storable p (journal plan) ≡ true → IsRecoverable p (journal plan) (put_journal w plan)
      begun storable = record {
        under_way = record {
          files = Captured-Between p.codec.hash w.memory (files_of plan) h.captured;
          ledger = inl before;
        };
        journaled = record {
          phase = prepared;
          stored =
              rw
                (
                  JsMap.get-put w.journals (request_key p r) (request_key p r)
                      (record { value = journal plan; is_safe = true }),
                  eq_refl (request_key p r),
                )
                refl;
          storable = storable;
        };
      }
