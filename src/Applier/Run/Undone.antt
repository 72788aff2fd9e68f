-- ===== src/Applier/Run/Undone.antt =====
-- What the roll-back of an apply, cut off at any point, leaves.
use claude_code_telegram_kit.Prelude.{
  String, Option, none, Bool, true, false, not, ◌||◌, ◌≡◌, refl, ◌∙◌, inl, inr, List, [], ◌∷◌,
  arith, str_eq, eq_iff, Bool-cases, All,
}
use mathlib.Core.Path.{subst}
use claude_code_telegram_kit.Prelude.JsMap
use claude_code_telegram_kit.Prelude.JsMap.{JsMap}
use claude_code_telegram_kit.Applier.Leaf.{Memory, sha_of_image, sha_at}
use claude_code_telegram_kit.Applier.Ledger.{MemoryManagedLedger, restore_managed_ledger}
use claude_code_telegram_kit.Applier.Ledger.Restored.{ledger_hash}
use claude_code_telegram_kit.Applier.Journal.{
  MemoryApplyJournalFile, MemoryApplyJournal, Platform, World, Place, apart, rollback_files,
  reversed, rollback_journal,
}
use claude_code_telegram_kit.Applier.Journal.Reversed.{apart-reversed}
use claude_code_telegram_kit.Applier.Journal.Restores.{RestoredAt, rollback_files-apart}
use claude_code_telegram_kit.Applier.Journal.Outcome.{settle-memory}
use claude_code_telegram_kit.Applier.Run.{
  Action, write_file, mark, write_ledger, Fate, works, fails, fails_late, crashes, Halt, fate_of,
  later, perform, after_fate, run,
}
use claude_code_telegram_kit.Applier.Run.UnderWay.{apart-In, written-other}
use claude_code_telegram_kit.Applier.Run.Recoverable.{IsOwn}
use claude_code_telegram_kit.Applier.Run.Completed.{journal-memory}
use claude_code_telegram_kit.Applier.Run.Planned.{Captured}

-- Every file of the memory, and the ledger, has the hash it had before; no journal is left.
pub record IsAsBefore (p : Platform) (key : String) (w u : World) : Type 0 where
  pub files :
      (path : String) → sha_at p.codec.hash u.memory path ≡ sha_at p.codec.hash w.memory path
  pub ledger : ledger_hash p.codec u.ledger ≡ ledger_hash p.codec w.ledger
  pub journal : JsMap.get u.journals key ≡ none

pub RestoredAt-path :
    (hash : String → String) (m n : Memory) (l : List MemoryApplyJournalFile) (path : String)
    → All (λ f. Captured hash m f.before) l
    → All (RestoredAt hash n) l
    → apart path l ≡ false
    → sha_at hash n path ≡ sha_at hash m path
unfolding sha_of_image
RestoredAt-path hash m n [] path c h a = ground arith
RestoredAt-path hash m n (f ∷ l) path (c, cs) (h, hs) a =
    elim (Bool-cases (str_eq f.before.path path)) [
      | inl same ↦
          let at_path : f.before.path ≡ path = (eq_iff f.before.path path).0 same in
          subst (λ x. sha_at hash n x ≡ sha_at hash m x) at_path (rw c h)
      | inr other ↦ RestoredAt-path hash m n l path cs hs (ground arith)
    ]

module _ (p : Platform) (j : MemoryApplyJournal) (next : MemoryManagedLedger) where
  perform-other :
      (w : World) (a : Action) (path : String)
      → IsOwn j next a
      → apart path j.files ≡ true
      → sha_at p.codec.hash (perform p j w a).0.memory path ≡ sha_at p.codec.hash w.memory path
  unfolding perform
  perform-other w (write_file f) path own h =
      written-other p.codec.hash w.memory f path (apart-In path f j.files own h)
  perform-other w (mark phase) path own h =
      rw (journal-memory p j w (record j { phase = phase })) refl
  perform-other w (write_ledger l) path own h = refl

  after_fate-other :
      (fate : Fate) (w : World) (done : World × Bool) (rest : World × Halt)
      (v : Option (Option String)) (path : String)
      → sha_at p.codec.hash w.memory path ≡ v
      → sha_at p.codec.hash done.0.memory path ≡ v
      → sha_at p.codec.hash rest.0.memory path ≡ v
      → sha_at p.codec.hash (after_fate fate w done rest).0.memory path ≡ v
  unfolding after_fate
  after_fate-other works w done rest v path a b c = elim (Bool-cases done.1) [
    | inl ok ↦ rw ok c
    | inr threw ↦ rw threw b
  ]
  after_fate-other fails w done rest v path a b c = a
  after_fate-other fails_late w done rest v path a b c = b
  after_fate-other crashes w done rest v path a b c = a

  -- a run touches the files of its journal only
  pub run-other :
      (fates : List Fate) (w : World) (todo : List Action) (path : String)
      → All (IsOwn j next) todo
      → apart path j.files ≡ true
      → sha_at p.codec.hash (run p j fates w todo).0.memory path ≡ sha_at p.codec.hash w.memory path
  unfolding run
  run-other fates w [] path own h = refl
  run-other fates w (a ∷ todo) path (own, owns) h =
      let one = perform-other w a path own h in
      after_fate-other (fate_of fates) w (perform p j w a)
        (run p j (later fates) (perform p j w a).0 todo) (sha_at p.codec.hash w.memory path) path
        refl one (run-other (later fates) (perform p j w a).0 todo path owns h ∙ one)

pub rollback_journal-other :
    (p : Platform) (place : Place) (w : World) (j : MemoryApplyJournal) (path : String)
    → apart path j.files ≡ true
    → sha_at p.codec.hash (rollback_journal p place w j).0.memory path
      ≡ sha_at p.codec.hash w.memory path
unfolding rollback_journal
rollback_journal-other p place w j path h =
    elim (Bool-cases (not place.state_outside || not place.opens)) [
      | inl bad ↦ rw bad refl
      | inr good ↦
          elim (Bool-cases (not (str_eq (p.codec.hash j.memory_directory) j.directory_sha256))) [
            | inl elsewhere ↦ rw (good, elsewhere) refl
            | inr here ↦
                let rolled = rollback_files p.codec.hash w.memory (reversed j.files) in
                rw
                  (
                    good,
                    here,
                    settle-memory (record w { memory = rolled.0 }) j rolled.1
                        (restore_managed_ledger p.codec w.ledger j.ledger_before
                          j.ledger_after_sha256),
                  )
                  (rollback_files-apart p.codec.hash w.memory (reversed j.files) path
                    (apart-reversed path j.files ∙ h))
          ]
    ]
