-- ===== src/Applier/Run/Completed.antt =====
-- What an apply has done once its actions are through.
use claude_code_telegram_kit.Prelude.{
  some, Bool, true, false, not, ◌&&◌, ◌≡◌, refl, sym, ap, ◌∙◌, inl, inr, List, [], ◌∷◌, arith,
  str_eq, Bool-cases, all, All,
}
use mathlib.Core.Path.{subst}
use claude_code_telegram_kit.Applier.Leaf.{write_cas, sha_at}
use claude_code_telegram_kit.Applier.Leaf.Writes.{write_cas-other, sha_at-write_cas, sha_at-leaf}
use claude_code_telegram_kit.Applier.Ledger.{write_managed_ledger, is_valid_ledger}
use claude_code_telegram_kit.Applier.Ledger.Restored.{ledger_hash, ledger_hash-write_state}
use claude_code_telegram_kit.Applier.Journal.{MemoryApplyJournal, Platform, World, write_journal}
use claude_code_telegram_kit.Applier.Run.{
  Action, write_file, mark, write_ledger, Fate, works, fails, fails_late, crashes, Halt, completed,
  fate_of, later, perform, after_fate, run,
}

-- the second action leaves what the first has done
abbrev pub keeps : Action → Action → Bool
keeps (write_file f) (write_file g) = not (str_eq g.before.path f.before.path)
keeps (write_ledger l) (write_ledger k) = false
keeps _ _ = true

abbrev pub independent : List Action → Bool
independent [] = true
independent (a ∷ l) = all (keeps a) l && independent l

module _ (p : Platform) (j : MemoryApplyJournal) where
  -- the file has the hash of what was to be written, the ledger that of what is printed
  abbrev pub Effect : World → Action → Type 0
  Effect w (write_file f) =
      sha_at p.codec.hash w.memory f.before.path ≡ some (some (p.codec.hash f.after))
  Effect w (mark phase) = Unit
  Effect w (write_ledger l) =
      ledger_hash p.codec w.ledger ≡ some (some (p.codec.hash (p.codec.print l)))

  perform-Effect :
      (w : World) (a : Action) → (perform p j w a).1 ≡ true → Effect (perform p j w a).0 a
  unfolding perform write_managed_ledger
  perform-Effect w (write_file f) ok = sha_at-write_cas p.codec.hash w.memory f.before f.after ok
  perform-Effect w (mark phase) ok = tt
  perform-Effect w (write_ledger l) ok = elim (Bool-cases (is_valid_ledger l)) [
    | inl valid ↦
        rw valid (ledger_hash-write_state p.codec w.ledger (p.codec.print l) (rw valid at ok))
    | inr invalid ↦ ground arith
  ]

  pub journal-memory :
      (w : World) (k : MemoryApplyJournal) → (write_journal p w k).0.memory ≡ w.memory
  unfolding write_journal
  journal-memory w k = ground arith

  journal-ledger : (w : World) (k : MemoryApplyJournal) → (write_journal p w k).0.ledger ≡ w.ledger
  unfolding write_journal
  journal-ledger w k = ground arith

  perform-kept :
      (w : World) (a b : Action) → keeps a b ≡ true → Effect w a → Effect (perform p j w b).0 a
  unfolding perform
  perform-kept w (write_file f) (write_file g) k h =
      sha_at-leaf p.codec.hash (write_cas p.codec.hash w.memory g.before g.after).0 w.memory
        f.before.path
        (write_cas-other p.codec.hash w.memory g.before g.after f.before.path (ground arith))
      ∙ h
  perform-kept w (write_file f) (mark phase) k h =
      rw (journal-memory w (record j { phase = phase })) h
  perform-kept w (write_file f) (write_ledger l) k h = h
  perform-kept w (mark phase) b k h = tt
  perform-kept w (write_ledger l) (write_file f) k h = h
  perform-kept w (write_ledger l) (mark phase) k h =
      rw (journal-ledger w (record j { phase = phase })) h
  perform-kept w (write_ledger l) (write_ledger m) k h = ground arith

  abbrev Through : List Fate → World → List Action → Type 0
  Through fates w todo = (run p j fates w todo).1 ≡ completed

  -- nothing but a completed action lets a completed run go on
  after_fate_through :
      (fate : Fate) (w : World) (done : World × Bool) (rest : World × Halt)
      → (after_fate fate w done rest).1 ≡ completed
      → (done.1 ≡ true) × (rest.1 ≡ completed) × (after_fate fate w done rest ≡ rest)
  unfolding after_fate
  after_fate_through works w done rest h = elim (Bool-cases done.1) [
    | inl ok ↦ rw ok (refl, rw ok at h, refl)
    | inr threw ↦ ground arith
  ]
  after_fate_through fails w done rest h = ground arith
  after_fate_through fails_late w done rest h = ground arith
  after_fate_through crashes w done rest h = ground arith

  run-kept :
      (fates : List Fate) (w : World) (a : Action) (todo : List Action)
      → all (keeps a) todo ≡ true
      → Effect w a
      → Through fates w todo
      → Effect (run p j fates w todo).0 a
  unfolding run
  run-kept fates w a [] k h t = h
  run-kept fates w a (b ∷ todo) k h t =
      let parts =
        after_fate_through (fate_of fates) w (perform p j w b)
          (run p j (later fates) (perform p j w b).0 todo) t in
      rw (parts.2) (
        run-kept (later fates) (perform p j w b).0 a todo (ground arith)
          (perform-kept w a b (ground arith) h) (parts.1))

  same_effects :
      (v w : World) (todo : List Action) → v ≡ w → All (Effect w) todo → All (Effect v) todo
  same_effects v w todo same h = subst (λ x. All (Effect x) todo) (sym same) h

  -- A run that is through has done every action.
  pub run-done :
      (fates : List Fate) (w : World) (todo : List Action)
      → independent todo ≡ true
      → Through fates w todo
      → All (Effect (run p j fates w todo).0) todo
  unfolding run
  run-done fates w [] i t = tt
  run-done fates w (a ∷ todo) i t =
      let parts =
        after_fate_through (fate_of fates) w (perform p j w a)
          (run p j (later fates) (perform p j w a).0 todo) t in
      (
        rw (parts.2) (
            run-kept (later fates) (perform p j w a).0 a todo (ground arith)
              (perform-Effect w a (parts.0)) (parts.1)),
        same_effects (run p j fates w (a ∷ todo)).0
            (run p j (later fates) (perform p j w a).0 todo).0 todo (ap (λ r. r.0) (parts.2))
            (run-done (later fates) (perform p j w a).0 todo (ground arith) (parts.1)),
      )
