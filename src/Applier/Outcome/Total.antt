-- ===== src/Applier/Outcome/Total.antt =====
-- What an apply leaves where nobody else writes to the memory.
use claude_code_telegram_kit.Prelude.{
  sym, List, [], ◌∷◌, String, Option, none, some, Bool, true, ◌&&◌, ◌≡◌, refl, inl, inr, arith,
  str_eq, eq_refl, Bool-cases,
}
use claude_code_telegram_kit.Prelude.JsMap
use claude_code_telegram_kit.Prelude.JsMap.{JsMap}
use claude_code_telegram_kit.Applier.Names.{is_topic}
use claude_code_telegram_kit.Applier.Ledger.{
  StateFile, MemoryManagedLedger, read_state, read_managed_ledger, is_valid_ledger,
}
use claude_code_telegram_kit.Applier.Journal.{
  prepared, MemoryApplyJournal, Platform, World, Place, is_storable, read_file, read_journal,
  write_journal, remove_journal,
}
use claude_code_telegram_kit.Applier.Apply.{
  Request, request_key, View, look, Plan, Decided, refused, unchanged, planned, decide,
}
use claude_code_telegram_kit.Applier.Run.{
  perform, later, Action, run_among, Fate, works, fails, fails_late, crashes, files_of, next_ledger,
  journal_of, actions, run, MemoryApplierResult, rejected, applied, already_applied, crashed_out,
  rolled_back, rollback_conflict, conclude, Weather, begin_with, execute, carry_out, with_view,
  is_committed, apply_pending, apply,
}
use claude_code_telegram_kit.Applier.Run.Planned.{IsPlanned, IsOfTopic, decide-IsPlanned}
use claude_code_telegram_kit.Applier.Run.Started.{journal, write-IsStarted}
use claude_code_telegram_kit.Applier.Run.Open.{open_at, mark_open}
use claude_code_telegram_kit.Applier.Outcome.{
  IsUntouched, unwritten, left_behind, left_committed, Leaves,
}
use claude_code_telegram_kit.Applier.Outcome.Concluded.{conclude_lem}

run_among-alone :
    (p : Platform) (j : MemoryApplyJournal) (fates : List Fate) (w : World) (todo : List Action)
    → run_among p j [] fates w todo ≡ run p j fates w todo
unfolding run_among run
run_among-alone p j fates w [] = refl
run_among-alone p j fates w (a ∷ todo) =
    rw (run_among-alone p j (later fates) (perform p j w a).0 todo) refl

module _ (p : Platform) (place : Place) (r : Request)
    (reach : (place.state_outside && place.opens) ≡ true)
    (own_directory : str_eq (p.codec.hash r.memory_directory) r.directory_sha256 ≡ true) where
  abbrev key : String
  key = request_key p r

  Good : World → World × MemoryApplierResult → Type 0
  Good w out = Leaves p place r w out.0 out.1

  begin_lem :
      (fate : Fate) (w : World) (stored : World × Bool) (rest : World × MemoryApplierResult)
      → JsMap.get w.journals key ≡ none
      → IsUntouched w stored.0
      → (stored.1 ≡ true → Good w rest)
      → Good w (begin_with fate w key stored rest)
  unfolding begin_with Good
  begin_lem works w stored rest free same h = elim (Bool-cases stored.1) [
    | inl ok ↦ rw ok (h ok)
    | inr failed_ ↦ rw failed_ (refl, refl)
  ]
  begin_lem fails w stored rest free same h = (refl, refl)
  begin_lem fails_late w stored rest free same h = same
  begin_lem crashes w stored rest free same h = unwritten (refl, refl) free

  write-IsUntouched : (w : World) (j : MemoryApplyJournal) → IsUntouched w (write_journal p w j).0
  unfolding write_journal
  write-IsUntouched w j = elim (Bool-cases (is_storable p j)) [
    | inl storable ↦ rw storable (refl, refl)
    | inr too_large ↦ rw too_large (refl, refl)
  ]

  execute_lem :
      (weather : Weather) (w : World) (plan : Plan) (managed : Option MemoryManagedLedger)
      (bytes : Option (Option String))
      → weather.others ≡ []
      → IsPlanned p.codec.hash w.memory (files_of plan)
      → IsOfTopic p.codec.hash r plan
      → read_managed_ledger p.codec w.ledger ≡ some managed
      → read_state w.ledger ≡ bytes
      → JsMap.get w.journals key ≡ none
      → Good w (execute p place weather r w managed plan bytes)
  unfolding execute Good JsMap.get journal_of
  execute_lem weather w plan managed none alone planning topic seen e free = (refl, refl)
  execute_lem weather w plan managed (some before) alone planning topic seen e free =
      let l = next_ledger p r managed plan in
      let j = journal p r before l plan in
      let stored = write_journal p w j in
      elim (Bool-cases (is_valid_ledger l)) [
        | inr invalid ↦ rw invalid (refl, refl)
        | inl valid ↦ rw valid (
            begin_lem weather.first w stored
              (conclude p place j weather.ending
                (run_among p j weather.others weather.fates stored.0 (actions plan l)))
              free (write-IsUntouched w j)
              (λ ok.
                conclude_lem p place r reach own_directory before w stored.0 plan managed
                  weather.fates weather.ending
                  (run_among p j weather.others weather.fates stored.0 (actions plan l))
                  (by_itself j weather stored.0 (actions plan l) alone)
                  (write-IsStarted p r before l w plan managed planning seen e ok) topic seen
                  (opened w before l plan free)))
      ]
    where
      by_itself :
          (j : MemoryApplyJournal) (weather : Weather) (v : World) (todo : List Action)
          → weather.others ≡ []
          → run p j weather.fates v todo ≡ run_among p j weather.others weather.fates v todo
      by_itself j weather v todo alone = rw alone (sym (run_among-alone p j weather.fates v todo))

      opened :
          (w : World) (before : Option String) (l : MemoryManagedLedger) (plan : Plan)
          → JsMap.get w.journals key ≡ none
          → open_at key (write_journal p w (journal p r before l plan)).0 ≡ true
      opened w before l plan free =
          mark_open p (journal p r before l plan) w prepared refl (rw free refl)

  carry_out_lem :
      (weather : Weather) (w : World) (v : View) (decision : Decided)
      → weather.others ≡ []
      → is_topic r.topic ≡ true
      → look p r w ≡ some v
      → decide p r w.memory v ≡ decision
      → JsMap.get w.journals key ≡ none
      → Good w (carry_out p place weather r w v decision)
  unfolding carry_out Good
  carry_out_lem weather w v (refused reason) alone topic seen e free = (refl, refl)
  carry_out_lem weather w v unchanged alone topic seen e free = (refl, refl)
  carry_out_lem weather w v (planned plan) alone topic seen e free =
      let parts = decide-IsPlanned p r w v plan topic seen e in
      execute_lem weather w plan v.managed_before (read_state w.ledger) alone (parts.0) (parts.2)
        (parts.1) refl free

  with_view_lem :
      (weather : Weather) (w : World) (view : Option View)
      → weather.others ≡ []
      → is_topic r.topic ≡ true
      → look p r w ≡ view
      → JsMap.get w.journals key ≡ none
      → Good w (with_view p place weather r w view)
  unfolding with_view Good
  with_view_lem weather w none alone topic seen free = (refl, refl)
  with_view_lem weather w (some v) alone topic seen free =
      carry_out_lem weather w v (decide p r w.memory v) alone topic seen refl free

  -- what is left of the world without the committed journal is left of the world
  cleared :
      (w u : World) (result : MemoryApplierResult)
      → Leaves p place r (remove_journal w key) u result
      → Leaves p place r w u result
  unfolding remove_journal
  cleared w u (rejected reason) h = h
  cleared w u applied h = record { topic = h.topic; ledger = h.ledger }
  cleared w u already_applied h = h
  cleared w u (crashed_out k) (unwritten same free) = unwritten same free
  cleared w u (crashed_out k) (left_behind j read fields ok back) =
      left_behind j read fields ok
        (record { files = back.files; ledger = back.ledger; journal = back.journal })
  cleared w u (crashed_out k) (left_committed j read fields ready) =
      left_committed j read fields (record { topic = ready.topic; ledger = ready.ledger })
  cleared w u rolled_back h = record { files = h.files; ledger = h.ledger; journal = h.journal }
  cleared w u rollback_conflict h = h

  absent :
      (file : Option (StateFile MemoryApplyJournal)) → read_file p file ≡ some none → file ≡ none
  unfolding read_file
  absent none e = refl
  absent (some file) e = ground arith

  gone : (w : World) → JsMap.get (remove_journal w key).journals key ≡ none
  unfolding remove_journal
  gone w = rw (JsMap.get-delete w.journals key key, eq_refl key) refl

  pending_lem :
      (weather : Weather) (w : World) (pending : Option (Option MemoryApplyJournal))
      → weather.others ≡ []
      → is_topic r.topic ≡ true
      → read_journal p w key ≡ pending
      → Good w (apply_pending p place weather r w pending)
  unfolding apply_pending Good read_file
  pending_lem weather w none alone topic e = (refl, refl)
  pending_lem weather w (some none) alone topic e =
      with_view_lem weather w (look p r w) alone topic refl (absent (JsMap.get w.journals key) e)
  pending_lem weather w (some (some pending)) alone topic e =
      elim (Bool-cases (is_committed pending.phase)) [
        | inr open_yet ↦ rw open_yet (refl, refl)
        | inl over ↦
            let out =
              with_view p place weather r (remove_journal w key)
                (look p r (remove_journal w key)) in
            rw over (
              cleared w out.0 out.1 (
                with_view_lem weather (remove_journal w key) (look p r (remove_journal w key)) alone
                  topic refl (gone w)))
      ]

  -- Whatever the writes of an apply meet, but no other writer of the memory, its result tells what
  -- it leaves. `applied`: the file of the topic has the hash of the content, and the ledger that
  -- of the ledger with the entry of the topic. `rolled_back`: every file and the ledger have the
  -- hash they had, and no journal of the request is there. `rejected` and `already_applied`: the
  -- memory and the ledger are as they were. Never `rollback_conflict`. A crash leaves the memory
  -- and the ledger as they were and no journal, or a journal of the request that is not committed
  -- and whose roll-back has no conflict and leaves every file and the ledger with the hash they
  -- had, and no journal, or, as `applied` does, the new content with a committed journal. The
  -- roll-back itself meets no failure and no other writer. The topic is valid, the state directory
  -- is outside the memory, which opens, and the hash of its path is that of the observation.
  pub apply_lem :
      (weather : Weather) (w : World)
      → weather.others ≡ []
      → is_topic r.topic ≡ true
      → Leaves p place r w (apply p place weather r w).0 (apply p place weather r w).1
  unfolding Good
  apply_lem weather w alone topic = pending_lem weather w (read_journal p w key) alone topic refl
