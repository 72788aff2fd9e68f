-- ===== src/Applier/Tests.antt =====
-- Runs of the applier on a small memory, with a hash of three texts.
use claude_code_telegram_kit.Prelude.{
  ℕ, zero, suc, ◌+◌, ◌-◌, ◌*◌, ◌/◌, ◌%◌, ◌^◌, ◌≤◌, ◌<◌, String, Option, none, some, Bool, true,
  false, not, ◌&&◌, ◌||◌, ◌≡◌, ◌≢◌, ◌⊎◌, ◌↔◌, refl, sym, ap, ◌∙◌, inl, inr, List, [], ◌∷◌, ◌++◌,
  map, append-nil, append_assoc, arith, str_eq, eq_iff, eq_refl, if◌then◌else◌, ltb, leb, ◌==◌,
  Bool-cases, Option-cases, length, length-append, length-map, is_some, any, all, All, get_elem?,
  utf16_length, utf16_length-append, utf16_length-join_lines, utf16_length-decimal, joined_length,
  joined_length-append, join_lines, decimal, ◌<>◌, max, min,
}
use claude_code_telegram_kit.Prelude.JsMap
use claude_code_telegram_kit.Prelude.JsMap.{JsMap}
use claude_code_telegram_kit.Applier.Names.{is_topic}
use claude_code_telegram_kit.Applier.Names.Hyphens.{hyphens}
use claude_code_telegram_kit.Applier.Leaf.{Leaf, Memory, Content, MemoryLeafImage, sha_at, sha_of}
use claude_code_telegram_kit.Applier.Ledger.{StateFile, Codec, MemoryManagedLedger, parses}
use claude_code_telegram_kit.Applier.Journal.{
  MemoryApplyPhase, prepared, MemoryApplyJournalFile, MemoryApplyJournal, is_valid_content,
  Platform, World, Place, rollback_file, rollback_journal,
}
use claude_code_telegram_kit.Applier.Journal.Outcome.{IsUndone, rollback_journal_sound}
use claude_code_telegram_kit.Applier.Journal.Restores.{rollback_file_foreign}
use claude_code_telegram_kit.Applier.Apply.{Request, request_key}
use claude_code_telegram_kit.Applier.Run.{
  Fate, works, fails, fails_late, crashes, removes, dies, Weather, rollback_conflict,
  MemoryApplierResult, rejected, applied, rolled_back, crashed_out, apply,
}
use claude_code_telegram_kit.Applier.Recover.{Recovery, Tally, recover_read}
use claude_code_telegram_kit.Applier.Outcome.{Leaves}
use claude_code_telegram_kit.Applier.Binding.{
  MemoryReviewDecision, create, MemoryReviewFreshness, standing, MemoryReviewProposal,
  MemoryReviewProposalRecord, MemoryReviewReceipt, NativeMemoryObservation, MemoryIdleProof,
  ApplyOptions, Library, validate_binding,
}
use claude_code_telegram_kit.Applier.Binding.Bound.{IsBound, validate_binding-IsBound}
use claude_code_telegram_kit.Applier.Entry.{
  Claim, acquired, Circumstances, Reading, request_of, place_of, apply_options,
}
use claude_code_telegram_kit.Applier.Entry.Whole.{apply_options_lem, apply-hyphens}

abbrev zeros : String
zeros = "0000000000000000000000000000000000000000000000000000000000000000"

abbrev ones : String
ones = "1111111111111111111111111111111111111111111111111111111111111111"

abbrev twos : String
twos = "2222222222222222222222222222222222222222222222222222222222222222"

abbrev release : String
release = "3333333333333333333333333333333333333333"

abbrev session : String
session = "00000000-0000-4000-8000-000000000001"

abbrev hash : String → String
hash s = if str_eq s "# Memory\n" then ones else if str_eq s "/memory" then twos else zeros

abbrev platform : Platform
platform = record {
  codec = record { hash = hash; print = λ _. "ledger"; parse = λ _. none };
  journal_bytes = λ _. 100;
  is_resolved = λ _. true;
}

abbrev library : Library
library = record {
  outside = λ _ _. true;
  proposal_hash = λ _. ones;
  is_path_like = λ _. false;
  contains_credential_shape = λ _. false;
}

abbrev reading : Reading
reading = record { comes = λ _ _. true; is_observed = λ _. true }

abbrev options_of : String → ApplyOptions
options_of topic = record {
  release_sha = release;
  proposal_record = record {
    session_id = session;
    prompt_id = "prompt";
    release_sha = release;
    last_assistant_message_sha256 = zeros;
    native_memory_watermark = ones;
    snapshot_sha256 = twos;
    proposal_sha256 = ones;
    proposal = record {
      decision = create;
      topic = topic;
      evidence = [];
      content = "a fact";
      reason = "asked for";
      freshness = standing;
    };
  };
  receipt = record {
    session_id = session;
    prompt_id = "prompt";
    last_assistant_message_sha256 = zeros;
    snapshot_sha256 = twos;
    release_sha = release;
    is_reviewed = true;
  };
  observation = record {
    memory_directory = "/memory";
    directory_sha256 = twos;
    release_sha = release;
    watermark = ones;
  };
  idle_proof = record {
    session_id = session;
    prompt_id = "prompt";
    observed_at = 1000;
    background_tasks = 0;
    session_crons = 0;
    stop_hook_active = false;
  };
  state_directory = "/state";
  proposal_directory = "/proposals";
  now = 2000;
}

abbrev options : ApplyOptions
options = options_of "rust-tips"

abbrev world : World
world = record {
  memory = record {
    leaves =
        ("MEMORY.md", record { bytes = "# Memory\n"; mode = 0o644; stamp = 1; is_safe = true })
        ∷ [];
    next = 2;
  };
  ledger = none;
  journals = [];
}

abbrev weather_of : List Fate → Weather
weather_of fates = record { first = works; others = []; fates = fates; ending = removes }

abbrev circumstances : List Fate → Circumstances
circumstances fates = record {
  global_claim = acquired;
  claim = acquired;
  opens = true;
  weather = weather_of fates;
}

abbrev outcome : List Fate → World × MemoryApplierResult
outcome fates = apply_options library platform reading (circumstances fates) options world

-- the index is written by another process before the apply writes it
abbrev other_writes : Memory → Memory
other_writes m = record {
  leaves =
      JsMap.put m.leaves "MEMORY.md"
        (record { bytes = "/memory"; mode = 0o644; stamp = 90; is_safe = true });
  next = 91;
}

abbrev outcome_in : Weather → World × MemoryApplierResult
outcome_in weather =
    apply_options library platform reading
      (record { global_claim = acquired; claim = acquired; opens = true; weather = weather })
      options world

abbrev among_others : Weather
among_others = record (weather_of []) { others = (λ m. m) ∷ (λ m. m) ∷ other_writes ∷ [] }

abbrev request : Request
request = record {
  session_id = session;
  prompt_id = "prompt";
  release_sha = release;
  directory_sha256 = twos;
  memory_directory = "/memory";
  is_create = true;
  topic = "rust-tips";
  content = "a fact";
  now = 2000;
  comes = λ _ _. true;
  is_observed = λ _. true;
}

abbrev place : Place
place = record { state_outside = true; proposals_outside = true; opens = true }

abbrev key : String
key = request_key platform request

-- the process ends at the write of the index
abbrev cut_short : List Fate
cut_short = works ∷ works ∷ crashes ∷ []

abbrev cut : World × MemoryApplierResult
cut = apply platform place (weather_of cut_short) request world

abbrev image : MemoryLeafImage
image = record {
  path = "MEMORY.md";
  content = some (record { sha256 = ones; mode = 0o644; stamp = 1; bytes = "# Memory\n" });
}

-- the index, found as a foreign text that the journal knows nothing of
abbrev index_file : MemoryApplyJournalFile
index_file = record {
  before = record image {
    content = some (record { sha256 = twos; mode = 0o644; stamp = 1; bytes = "/memory" });
  };
  after_sha256 = zeros;
  after = "new";
}

-- the index, written as the journal says
abbrev index_written : MemoryApplyJournalFile
index_written = record index_file { after_sha256 = ones; after = "# Memory\n" }

abbrev written_journal : MemoryApplyJournal
written_journal = record {
  proposal_key = zeros;
  session_id = session;
  prompt_id = "prompt";
  release_sha = release;
  directory_sha256 = twos;
  memory_directory = "/memory";
  phase = prepared;
  files = index_written ∷ [];
  ledger_before = none;
  ledger_before_sha256 = none;
  ledger_after_sha256 = zeros;
  created_at = 1;
}

abbrev recovery : Recovery
recovery = record {
  release_sha = release;
  memory_directory = "/memory";
  directory_sha256 = twos;
  is_busy = λ _ _. false;
}

-- An apply that nothing meets is applied; one that throws at the ledger is rolled back; one that the
-- process leaves at the index, or once it is committed, is crashed, with a journal; one that finds the
-- index written by another process has a conflict.
runs_test :
    ((outcome []).1 ≡ applied)
    × ((outcome (works ∷ works ∷ works ∷ works ∷ fails_late ∷ [])).1 ≡ rolled_back)
    × (cut.1 ≡ crashed_out key)
    × (validate_binding library options ≡ none)
    × ((rollback_journal platform place world written_journal).1 ≡ some 0)
    × (sha_at hash world.memory "MEMORY.md" ≡ some (some ones))
    × (is_valid_content hash index_written.before.content ≡ true)
    × (is_topic "rust-tips" ≡ true)
    × (is_topic "a-b-c" ≡ true)
    × (hyphens "a-b-c" ≡ 2)
    × ((outcome_in among_others).1 ≡ rollback_conflict)
    × ((outcome_in (record (weather_of []) { ending = dies })).1 ≡ crashed_out key)
unfolding claude_code_telegram_kit.Prelude.JsMap.get claude_code_telegram_kit.Prelude.JsMap.put
    claude_code_telegram_kit.Prelude.JsMap.delete claude_code_telegram_kit.Prelude.Uuid.codes
    claude_code_telegram_kit.Prelude.Uuid.in_class claude_code_telegram_kit.Prelude.Uuid.matches
    claude_code_telegram_kit.Prelude.Uuid.is_uuid
    claude_code_telegram_kit.Applier.Names.Hyphens.hyphens
    claude_code_telegram_kit.Applier.Names.is_lower claude_code_telegram_kit.Applier.Names.is_digit
    claude_code_telegram_kit.Applier.Names.is_hex_digit
    claude_code_telegram_kit.Applier.Names.is_hex
    claude_code_telegram_kit.Applier.Names.is_prompt_char
    claude_code_telegram_kit.Applier.Names.is_prompt_id
    claude_code_telegram_kit.Applier.Names.topic_tail
    claude_code_telegram_kit.Applier.Names.is_topic_from
    claude_code_telegram_kit.Applier.Names.same_codes
    claude_code_telegram_kit.Applier.Names.name_tail
    claude_code_telegram_kit.Applier.Names.is_name_from
    claude_code_telegram_kit.Applier.Names.is_memory_name
    claude_code_telegram_kit.Applier.Names.topic_file
    claude_code_telegram_kit.Applier.Leaf.byte_length
    claude_code_telegram_kit.Applier.Leaf.is_capturable
    claude_code_telegram_kit.Applier.Leaf.same_image claude_code_telegram_kit.Applier.Leaf.mode_for
    claude_code_telegram_kit.Applier.Leaf.replace claude_code_telegram_kit.Applier.Leaf.sha_of
    claude_code_telegram_kit.Applier.Leaf.sha_of_image
    claude_code_telegram_kit.Applier.Leaf.image_of
    claude_code_telegram_kit.Applier.Leaf.image_of_leaf
    claude_code_telegram_kit.Applier.Leaf.capture claude_code_telegram_kit.Applier.Leaf.reads_back
    claude_code_telegram_kit.Applier.Leaf.is_current claude_code_telegram_kit.Applier.Leaf.write_cas
    claude_code_telegram_kit.Applier.Leaf.remove_cas
    claude_code_telegram_kit.Applier.Ledger.codes_lt
    claude_code_telegram_kit.Applier.Ledger.is_ordered
    claude_code_telegram_kit.Applier.Ledger.is_valid_entry
    claude_code_telegram_kit.Applier.Ledger.is_valid_ledger
    claude_code_telegram_kit.Applier.Ledger.read_state
    claude_code_telegram_kit.Applier.Ledger.write_state
    claude_code_telegram_kit.Applier.Ledger.sort_entries
    claude_code_telegram_kit.Applier.Ledger.without
    claude_code_telegram_kit.Applier.Ledger.entries_of
    claude_code_telegram_kit.Applier.Ledger.find_entry
    claude_code_telegram_kit.Applier.Ledger.ledger_after
    claude_code_telegram_kit.Applier.Ledger.state_hash
    claude_code_telegram_kit.Applier.Ledger.parses
    claude_code_telegram_kit.Applier.Ledger.read_ledger_bytes
    claude_code_telegram_kit.Applier.Ledger.read_managed_ledger
    claude_code_telegram_kit.Applier.Ledger.write_managed_ledger
    claude_code_telegram_kit.Applier.Ledger.restore_bytes
    claude_code_telegram_kit.Applier.Ledger.restore_read
    claude_code_telegram_kit.Applier.Journal.is_valid_content
    claude_code_telegram_kit.Applier.Journal.is_valid_file
    claude_code_telegram_kit.Applier.Journal.is_valid_backup
    claude_code_telegram_kit.Applier.Journal.is_valid_journal
    claude_code_telegram_kit.Applier.Journal.is_storable
    claude_code_telegram_kit.Applier.Journal.read_file
    claude_code_telegram_kit.Applier.Journal.write_journal
    claude_code_telegram_kit.Applier.Journal.remove_journal
    claude_code_telegram_kit.Applier.Journal.content_matches
    claude_code_telegram_kit.Applier.Journal.undo
    claude_code_telegram_kit.Applier.Journal.rollback_image
    claude_code_telegram_kit.Applier.Journal.rollback_files
    claude_code_telegram_kit.Applier.Journal.reversed
    claude_code_telegram_kit.Applier.Journal.settle
    claude_code_telegram_kit.Applier.Journal.rollback_journal
    claude_code_telegram_kit.Applier.Apply.receipt_key
    claude_code_telegram_kit.Applier.Apply.index_line
    claude_code_telegram_kit.Applier.Apply.occurrences
    claude_code_telegram_kit.Applier.Apply.index_after
    claude_code_telegram_kit.Applier.Apply.journal_file
    claude_code_telegram_kit.Applier.Apply.index_view claude_code_telegram_kit.Applier.Apply.view_of
    claude_code_telegram_kit.Applier.Apply.look claude_code_telegram_kit.Applier.Apply.is_indexed
    claude_code_telegram_kit.Applier.Apply.is_already
    claude_code_telegram_kit.Applier.Apply.decide_create
    claude_code_telegram_kit.Applier.Apply.decide_patch
    claude_code_telegram_kit.Applier.Apply.decide claude_code_telegram_kit.Applier.Run.index_files
    claude_code_telegram_kit.Applier.Run.next_ledger claude_code_telegram_kit.Applier.Run.journal_of
    claude_code_telegram_kit.Applier.Run.index_actions claude_code_telegram_kit.Applier.Run.actions
    claude_code_telegram_kit.Applier.Run.perform claude_code_telegram_kit.Applier.Run.after_fate
    claude_code_telegram_kit.Applier.Run.run_among claude_code_telegram_kit.Applier.Run.finish
    claude_code_telegram_kit.Applier.Run.conclude claude_code_telegram_kit.Applier.Run.begin_with
    claude_code_telegram_kit.Applier.Run.execute claude_code_telegram_kit.Applier.Run.carry_out
    claude_code_telegram_kit.Applier.Run.with_view
    claude_code_telegram_kit.Applier.Run.apply_pending
    claude_code_telegram_kit.Applier.Binding.is_control
    claude_code_telegram_kit.Applier.Binding.is_bounded
    claude_code_telegram_kit.Applier.Binding.least_content
    claude_code_telegram_kit.Applier.Binding.is_evidence
    claude_code_telegram_kit.Applier.Binding.is_valid_proposal
    claude_code_telegram_kit.Applier.Binding.has_idle_turn_authority
    claude_code_telegram_kit.Applier.Binding.build_memory_idle_proof
    claude_code_telegram_kit.Applier.Binding.valid_idle_proof
    claude_code_telegram_kit.Applier.Binding.receipt_is_bound
    claude_code_telegram_kit.Applier.Binding.observation_is_bound
    claude_code_telegram_kit.Applier.Binding.proposal_is_supported
    claude_code_telegram_kit.Applier.Binding.validate_binding
    claude_code_telegram_kit.Applier.Entry.request_of
    claude_code_telegram_kit.Applier.Entry.place_of claude_code_telegram_kit.Applier.Entry.claimed
    claude_code_telegram_kit.Applier.Entry.apply_validated
    claude_code_telegram_kit.Applier.Recover.sorted claude_code_telegram_kit.Applier.Recover.count
    claude_code_telegram_kit.Applier.Recover.recover_read
    claude_code_telegram_kit.Applier.Recover.recover_names
    claude_code_telegram_kit.Applier.Recover.recover
runs_test = (refl, refl, refl, refl, refl, refl, refl, refl, refl, refl, refl, refl)

apply_options_lem_example :
    Leaves platform
      (place_of library options true)
      (request_of reading options)
      world
      (outcome cut_short).0
      (outcome cut_short).1
apply_options_lem_example =
    apply_options_lem library platform reading options (circumstances cut_short) world refl refl

rollback_journal_sound_example :
    IsUndone platform.codec written_journal
      (rollback_journal platform place world written_journal).0
rollback_journal_sound_example =
    rollback_journal_sound platform place world written_journal refl (rw (runs_test.6) refl)
      (runs_test.4)

rollback_file_foreign_example : rollback_file hash world.memory index_file ≡ (world.memory, 1)
unfolding sha_of
rollback_file_foreign_example =
    rollback_file_foreign hash world.memory index_file (some ones) (runs_test.5)
      (λ e. ground (arith, eq_iff ones twos)) (λ e. ground (arith, eq_iff ones zeros))

validate_binding-IsBound_example : IsBound library options
validate_binding-IsBound_example = validate_binding-IsBound library options (runs_test.3)

apply-hyphens_example :
    apply platform place (weather_of []) (record request { topic = "a-b-c" }) world
    ≡ (world, rejected "applier_failure")
unfolding JsMap.get
apply-hyphens_example =
    apply-hyphens platform place (weather_of []) (record request { topic = "a-b-c" }) world
      (runs_test.8) (rw (runs_test.9) (omega arith)) refl
