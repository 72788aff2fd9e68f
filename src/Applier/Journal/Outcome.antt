-- ===== src/Applier/Journal/Outcome.antt =====
-- What the roll-back by a journal leaves, its files, the ledger and the journal itself.
use claude_code_telegram_kit.Prelude.{
  ℕ, String, Option, none, some, Bool, true, false, not, ◌&&◌, ◌||◌, ◌≡◌, ◌⊎◌, refl, ◌∙◌, inl, inr,
  arith, str_eq, eq_refl, Bool-cases, all, All,
}
use claude_code_telegram_kit.Prelude.JsMap
use claude_code_telegram_kit.Prelude.JsMap.{JsMap}
use claude_code_telegram_kit.Applier.Ledger.{
  StateFile, Codec, state_hash, Restore, restored, already, conflicting, threw,
  restore_managed_ledger,
}
use claude_code_telegram_kit.Applier.Ledger.Restored.{
  ledger_hash, is_done, is_restorable, restore_sound, restore_complete,
}
use claude_code_telegram_kit.Applier.Journal.{
  MemoryApplyJournalFile, MemoryApplyJournal, Platform, World, Place, is_valid_content,
  remove_journal, rollback_files, reversed, distinct, finished, settle, rollback_journal,
}
use claude_code_telegram_kit.Applier.Journal.Reversed.{
  All-unreversed, All-reversed, all-reversed, distinct-reversed,
}
use claude_code_telegram_kit.Applier.Journal.Restores.{
  fits, Between, RestoredAt, rollback_files_sound, rollback_files_complete,
}

-- The files, the ledger and the journal are as they were before.
pub record IsUndone (c : Codec) (j : MemoryApplyJournal) (w : World) : Type 0 where
  pub files : All (RestoredAt c.hash w.memory) j.files
  pub ledger : ledger_hash c w.ledger ≡ some (state_hash c.hash j.ledger_before)
  pub journal : JsMap.get w.journals j.proposal_key ≡ none

abbrev pub valid_before : Codec → MemoryApplyJournalFile → Bool
valid_before c f = is_valid_content c.hash f.before.content

abbrev pub fits_before : MemoryApplyJournalFile → Bool
fits_before f = fits f.before.content

pub settle-memory :
    (w : World) (j : MemoryApplyJournal) (n : ℕ) (r : Option (StateFile String) × Restore)
    → (settle w j n r).0.memory ≡ w.memory
unfolding settle remove_journal
settle-memory w j n (file, restored) = ground arith
settle-memory w j n (file, already) = ground arith
settle-memory w j n (file, conflicting) = refl
settle-memory w j n (file, threw) = refl

settle-ledger :
    (w : World) (j : MemoryApplyJournal) (n : ℕ) (r : Option (StateFile String) × Restore)
    → (settle w j n r).0.ledger ≡ r.0
unfolding settle remove_journal
settle-ledger w j n (file, restored) = ground arith
settle-ledger w j n (file, already) = ground arith
settle-ledger w j n (file, conflicting) = refl
settle-ledger w j n (file, threw) = refl

finished_gone :
    (w : World) (j : MemoryApplyJournal) (n : ℕ)
    → n ≡ 0
    → JsMap.get (finished w j n).0.journals j.proposal_key ≡ none
unfolding remove_journal
finished_gone w j n h =
    rw (h, JsMap.get-delete w.journals j.proposal_key j.proposal_key, eq_refl j.proposal_key) refl

-- no conflict is no conflict in the files and none in the ledger
settle_sound :
    (w : World) (j : MemoryApplyJournal) (n : ℕ) (r : Option (StateFile String) × Restore)
    → (settle w j n r).1 ≡ some 0
    → (n ≡ 0) × (is_done r.1 ≡ true) × (JsMap.get (settle w j n r).0.journals j.proposal_key ≡ none)
unfolding settle is_done
settle_sound w j n (file, restored) h =
    let no_conflict : n ≡ 0 = ground arith in
    (no_conflict, refl, finished_gone (record w { ledger = file }) j n no_conflict)
settle_sound w j n (file, already) h =
    let no_conflict : n ≡ 0 = ground arith in
    (no_conflict, refl, finished_gone (record w { ledger = file }) j n no_conflict)
settle_sound w j n (file, conflicting) h = ground arith
settle_sound w j n (file, threw) h = ground arith

settle_complete :
    (w : World) (j : MemoryApplyJournal) (r : Option (StateFile String) × Restore)
    → is_done r.1 ≡ true
    → (settle w j 0 r).1 ≡ some 0
unfolding settle is_done
settle_complete w j (file, restored) h = refl
settle_complete w j (file, already) h = refl
settle_complete w j (file, conflicting) h = ground arith
settle_complete w j (file, threw) h = ground arith

module _ (p : Platform) where
  abbrev pub rolled_back : World → MemoryApplyJournal → World × Option ℕ
  rolled_back w j =
      let rolled = rollback_files p.codec.hash w.memory (reversed j.files) in
      settle (record w { memory = rolled.0 }) j rolled.1
        (restore_managed_ledger p.codec w.ledger j.ledger_before j.ledger_after_sha256)

  rolled_back_sound :
      (w : World) (j : MemoryApplyJournal)
      → distinct j.files ≡ true
      → all (valid_before p.codec) j.files ≡ true
      → (rolled_back w j).1 ≡ some 0
      → IsUndone p.codec j (rolled_back w j).0
  rolled_back_sound w j d v h =
      let rolled = rollback_files p.codec.hash w.memory (reversed j.files) in
      let ledger = restore_managed_ledger p.codec w.ledger j.ledger_before j.ledger_after_sha256 in
      let parts = settle_sound (record w { memory = rolled.0 }) j rolled.1 ledger h in
      let files =
        rollback_files_sound p.codec.hash w.memory (reversed j.files) (distinct-reversed j.files d)
          (all-reversed (valid_before p.codec) j.files ∙ v) (parts.0) in
      record {
        files =
            rw (settle-memory (record w { memory = rolled.0 }) j rolled.1 ledger)
              (All-unreversed (RestoredAt p.codec.hash rolled.0) j.files files);
        ledger =
            rw (settle-ledger (record w { memory = rolled.0 }) j rolled.1 ledger)
              (restore_sound p.codec w.ledger j.ledger_before j.ledger_after_sha256 (parts.1));
        journal = parts.2;
      }

  -- A roll-back without a conflict undoes the journal.
  pub rollback_journal_sound :
      (place : Place) (w : World) (j : MemoryApplyJournal)
      → distinct j.files ≡ true
      → all (valid_before p.codec) j.files ≡ true
      → (rollback_journal p place w j).1 ≡ some 0
      → IsUndone p.codec j (rollback_journal p place w j).0
  unfolding rollback_journal
  rollback_journal_sound place w j d v h =
      elim (Bool-cases (not place.state_outside || not place.opens)) [
        | inl bad ↦ ground arith
        | inr good ↦
            elim (Bool-cases (not (str_eq (p.codec.hash j.memory_directory) j.directory_sha256))) [
              | inl elsewhere ↦ ground arith
              | inr here ↦ rw (good, here) (rolled_back_sound w j d v (rw (good, here) at h))
            ]
      ]

  -- the world of an apply that was cut off at any point
  pub record IsUnderWay (j : MemoryApplyJournal) (w : World) : Type 0 where
    pub files : All (Between p.codec.hash w.memory) j.files
    pub ledger :
        (ledger_hash p.codec w.ledger ≡ some (state_hash p.codec.hash j.ledger_before))
        ⊎ (ledger_hash p.codec w.ledger ≡ some (some j.ledger_after_sha256))

  -- A roll-back has no conflict where each file and the ledger are as they were before or as the
  -- applier would leave them.
  pub rollback_journal_complete :
      (place : Place) (w : World) (j : MemoryApplyJournal)
      → (place.state_outside && place.opens) ≡ true
      → str_eq (p.codec.hash j.memory_directory) j.directory_sha256 ≡ true
      → distinct j.files ≡ true
      → all fits_before j.files ≡ true
      → is_restorable p.codec j.ledger_before ≡ true
      → IsUnderWay j w
      → (rollback_journal p place w j).1 ≡ some 0
  unfolding rollback_journal
  rollback_journal_complete place w j reach here d f small h =
      let none_left : (rollback_files p.codec.hash w.memory (reversed j.files)).1 ≡ 0 =
        rollback_files_complete p.codec.hash w.memory (reversed j.files)
          (distinct-reversed j.files d) (all-reversed fits_before j.files ∙ f)
          (All-reversed (Between p.codec.hash w.memory) j.files h.files) in
      let rolled = rollback_files p.codec.hash w.memory (reversed j.files) in
      let outside : (not place.state_outside || not place.opens) ≡ false = ground arith in
      rw (outside, here, none_left)
        (settle_complete (record w { memory = rolled.0 }) j
          (restore_managed_ledger p.codec w.ledger j.ledger_before j.ledger_after_sha256)
          (restore_complete p.codec w.ledger j.ledger_before j.ledger_after_sha256 small h.ledger))
