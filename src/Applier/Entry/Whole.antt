-- ===== src/Applier/Entry/Whole.antt =====
-- What an apply leaves, from its options on.
use claude_code_telegram_kit.Prelude.{
  ◌<◌, [], String, Option, none, some, Bool, true, false, ◌≡◌, refl, ◌∙◌, arith, str_eq,
  if◌then◌else◌,
}
use claude_code_telegram_kit.Prelude.JsMap
use claude_code_telegram_kit.Prelude.JsMap.{JsMap}
use claude_code_telegram_kit.Applier.Names.{is_topic, topic_file, is_memory_name}
use claude_code_telegram_kit.Applier.Names.Hyphens.{hyphens, topic_file-accepted}
use claude_code_telegram_kit.Applier.Leaf.{capture}
use claude_code_telegram_kit.Applier.Journal.{Platform, World, Place, read_file}
use claude_code_telegram_kit.Applier.Apply.{Request, request_key, view_of, look}
use claude_code_telegram_kit.Applier.Run.{
  MemoryApplierResult, rejected, Weather, with_view, apply_pending, apply,
}
use claude_code_telegram_kit.Applier.Outcome.{Leaves}
use claude_code_telegram_kit.Applier.Outcome.Total.{apply_lem}
use claude_code_telegram_kit.Applier.Binding.{ApplyOptions, Library, validate_binding}
use claude_code_telegram_kit.Applier.Binding.Bound.{IsBound, validate_binding-IsBound}
use claude_code_telegram_kit.Applier.Entry.{
  Claim, acquired, busy, unavailable, Circumstances, Reading, request_of, place_of, claimed,
  apply_validated, apply_options,
}

module _ (lib : Library) (p : Platform) (reading : Reading) (o : ApplyOptions) where
  abbrev LeavesOf : Bool → World → World × MemoryApplierResult → Type 0
  LeavesOf opens w out = Leaves p (place_of lib o opens) (request_of reading o) w out.0 out.1

  claimed_lem :
      (claim : Claim) (reason : String) (opens : Bool) (w : World)
      (rest : World × MemoryApplierResult)
      → LeavesOf opens w rest
      → LeavesOf opens w (claimed claim reason w rest)
  unfolding claimed
  claimed_lem acquired reason opens w rest h = h
  claimed_lem busy reason opens w rest h = (refl, refl)
  claimed_lem (unavailable message) reason opens w rest h = (refl, refl)

  opened_lem :
      (opens : Bool) (weather : Weather) (w : World)
      → weather.others ≡ []
      → str_eq (p.codec.hash o.observation.memory_directory) o.observation.directory_sha256 ≡ true
      → IsBound lib o
      → LeavesOf opens w (
          if opens
          then apply p (place_of lib o opens) weather (request_of reading o) w
          else (w, rejected "applier_failure"))
  unfolding place_of request_of
  opened_lem false weather w alone own h = (refl, refl)
  opened_lem true weather w alone own h =
      apply_lem p (place_of lib o true) (request_of reading o) (ground (arith, h.outside)) own
        weather w alone h.topic

  validated_lem :
      (c : Circumstances) (w : World)
      → c.weather.others ≡ []
      → str_eq (p.codec.hash o.observation.memory_directory) o.observation.directory_sha256 ≡ true
      → (refusal : Option String) → validate_binding lib o ≡ refusal
      → LeavesOf c.opens w (apply_validated lib p reading c o w refusal)
  unfolding apply_validated
  validated_lem c w alone own (some reason) e = (refl, refl)
  validated_lem c w alone own none e =
      let rest =
        if c.opens
        then apply p (place_of lib o c.opens) c.weather (request_of reading o) w
        else (w, rejected "applier_failure") in
      claimed_lem c.global_claim "applier_busy" c.opens w (claimed c.claim "review_active" w rest) (
        claimed_lem c.claim "review_active" c.opens w rest
          (opened_lem c.opens c.weather w alone own (validate_binding-IsBound lib o e)))

  -- Where nobody else writes to the memory during an apply, and its roll-back meets no failure, its
  -- result tells what it leaves, as `Leaves` has it, whatever its options, its claims and the fates of its
  -- writes: never a roll-back with a conflict, either the new content and its ledger, or every file and
  -- the ledger with the hash they had, or, after a crash, the new content with a committed journal, or
  -- a state whose roll-back has no conflict and leaves every file and the ledger with the hash they
  -- had. The hash of the memory's path is that of the observation.
  pub apply_options_lem :
      (c : Circumstances) (w : World)
      → c.weather.others ≡ []
      → str_eq (p.codec.hash o.observation.memory_directory) o.observation.directory_sha256 ≡ true
      → Leaves p
          (place_of lib o c.opens)
          (request_of reading o)
          w
          (apply_options lib p reading c o w).0
          (apply_options lib p reading c o w).1
  apply_options_lem c w alone own = validated_lem c w alone own (validate_binding lib o) refl

-- An apply with a valid topic of more than one hyphen is rejected, and changes nothing: the name of its
-- file is not accepted.
pub apply-hyphens :
    (p : Platform) (place : Place) (weather : Weather) (r : Request) (w : World)
    → is_topic r.topic ≡ true
    → 1 < hyphens r.topic
    → JsMap.get w.journals (request_key p r) ≡ none
    → apply p place weather r w ≡ (w, rejected "applier_failure")
unfolding apply_pending read_file look capture view_of with_view
apply-hyphens p place weather r w topic many free =
    let named : is_memory_name (topic_file r.topic) ≡ false =
      topic_file-accepted r.topic topic ∙ ground arith in
    rw (free, look, named) refl
