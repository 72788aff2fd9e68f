-- ===== src/Applier/Entry.antt =====
-- packages/shared/src/memory-applier.ts: the entry of an apply, its options and its two claims.
pub mod Whole
use claude_code_telegram_kit.Prelude.{
  ℕ, zero, suc, ◌+◌, ◌-◌, ◌*◌, ◌/◌, ◌%◌, ◌^◌, ◌≤◌, ◌<◌, String, Option, none, some, Bool, true,
  false, not, ◌&&◌, ◌||◌, ◌≡◌, ◌≢◌, ◌⊎◌, ◌↔◌, refl, sym, ap, ◌∙◌, inl, inr, List, [], ◌∷◌, ◌++◌,
  map, append-nil, append_assoc, arith, str_eq, eq_iff, eq_refl, if◌then◌else◌, ltb, leb, ◌==◌,
  Bool-cases, Option-cases, length, length-append, length-map, is_some, any, all, All, get_elem?,
  utf16_length, utf16_length-append, utf16_length-join_lines, utf16_length-decimal, joined_length,
  joined_length-append, join_lines, decimal, ◌<>◌, max, min,
}
use claude_code_telegram_kit.Applier.Journal.{Platform, World, Place}
use claude_code_telegram_kit.Applier.Leaf.{Memory}
use claude_code_telegram_kit.Applier.Apply.{Request}
use claude_code_telegram_kit.Applier.Recover.{Recovery, Tally, recover}
use claude_code_telegram_kit.Applier.Names.{is_digest, is_release}
use claude_code_telegram_kit.Applier.Run.{MemoryApplierResult, rejected, Weather, apply}
use claude_code_telegram_kit.Applier.Binding.{
  MemoryReviewDecision, create, patch, no_op, MemoryIdleProof, ApplyOptions, Library,
  valid_idle_proof, validate_binding,
}

-- `acquireMemoryReviewProposalClaim`, of another store
pub data Claim : Type 0 where
  acquired busy : Claim
  unavailable : String → Claim

-- what an apply meets: its two claims, whether the memory opens, and the fates of its writes
pub record Circumstances : Type 0 where
  pub global_claim : Claim
  pub claim : Claim
  pub opens : Bool
  pub weather : Weather

-- what the platform tells of the memory and of two paths
pub record Reading : Type 0 where
  pub comes : String → String → Bool
  pub is_observed : Memory → Bool

abbrev creates : MemoryReviewDecision → Bool
creates create = true
creates patch = false
creates no_op = false

-- `memory_directory` of the options is resolved
unfoldable pub request_of : Reading → ApplyOptions → Request
request_of reading o = record {
  session_id = o.proposal_record.session_id;
  prompt_id = o.proposal_record.prompt_id;
  release_sha = o.release_sha;
  directory_sha256 = o.observation.directory_sha256;
  memory_directory = o.observation.memory_directory;
  is_create = creates o.proposal_record.proposal.decision;
  topic = o.proposal_record.proposal.topic;
  content = o.proposal_record.proposal.content;
  now = o.now;
  comes = reading.comes;
  is_observed = reading.is_observed;
}

unfoldable pub place_of : Library → ApplyOptions → Bool → Place
place_of lib o opens = record {
  state_outside = lib.outside o.state_directory o.observation.memory_directory;
  proposals_outside = lib.outside o.proposal_directory o.observation.memory_directory;
  opens = opens;
}

unfoldable pub claimed :
    Claim → String → World → World × MemoryApplierResult → World × MemoryApplierResult
claimed acquired reason w rest = rest
claimed busy reason w rest = (w, rejected reason)
claimed (unavailable message) reason w rest = (w, rejected message)

unfoldable pub apply_validated :
    Library
    → Platform
    → Reading
    → Circumstances
    → ApplyOptions
    → World
    → Option String
    → World × MemoryApplierResult
apply_validated lib p reading c o w (some reason) = (w, rejected reason)
apply_validated lib p reading c o w none = claimed c.global_claim "applier_busy" w (
    claimed c.claim "review_active" w (
      if c.opens
      then apply p (place_of lib o c.opens) c.weather (request_of reading o) w
      else (w, rejected "applier_failure")))

-- `applyMemoryReviewProposal` where it is enabled, which it is not by default
abbrev pub apply_options :
    Library
    → Platform
    → Reading
    → Circumstances
    → ApplyOptions
    → World
    → World × MemoryApplierResult
apply_options lib p reading c o w = apply_validated lib p reading c o w (validate_binding lib o)

pub record RecoverOptions : Type 0 where
  pub release_sha : String
  pub memory_directory : String
  pub directory_sha256 : String
  pub idle_proof : MemoryIdleProof
  pub state_directory : String
  pub proposal_directory : String
  pub now : ℕ

-- `memory_directory` of the options is resolved
unfoldable pub recover_is_valid : Library → Platform → RecoverOptions → Bool
recover_is_valid lib p o =
    is_release o.release_sha
    && is_digest o.directory_sha256
    && str_eq (p.codec.hash o.memory_directory) o.directory_sha256
    && lib.outside o.state_directory o.memory_directory
    && lib.outside o.proposal_directory o.memory_directory
    && valid_idle_proof o.idle_proof o.now

pub record RecoverResult : Type 0 where
  pub is_recovered : Bool
  pub rolled_back : ℕ
  pub conflicts : ℕ

unfoldable pub recover_result : Tally → RecoverResult
recover_result t = record {
  is_recovered = t.conflicts == 0;
  rolled_back = t.rolled_back;
  conflicts = t.conflicts;
}

abbrev refused_result : RecoverResult
refused_result = record { is_recovered = false; rolled_back = 0; conflicts = 1 }

abbrev is_acquired : Claim → Bool
is_acquired acquired = true
is_acquired busy = false
is_acquired (unavailable message) = false

abbrev told : World × Option Tally → World × Option RecoverResult
told (w, none) = (w, none)
told (w, some t) = (w, some (recover_result t))

-- `recoverMemoryReviewApplier`; a result of none is a throw
unfoldable pub recover_options :
    Library
    → Platform
    → Place
    → Claim
    → (String → String → Bool)
    → RecoverOptions
    → World
    → World × Option RecoverResult
recover_options lib p place claim is_busy o w =
    if recover_is_valid lib p o && is_acquired claim
    then told (
        recover p place
          (record {
            release_sha = o.release_sha;
            memory_directory = o.memory_directory;
            directory_sha256 = o.directory_sha256;
            is_busy = is_busy;
          })
          w)
    else (w, some refused_result)
