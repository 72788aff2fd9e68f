-- ===== src/Applier/Binding.antt =====
-- packages/shared/src/memory-applier.ts, memory-review-proposal.ts and memory-turn-authority.ts: the
-- options of an apply are bound to one reviewed turn. Paths, JSON, SHA-256 and the patterns of paths and
-- credentials are the platform's regular expressions and libraries. Values are typed, so the checks of
-- a value's shape are left out.
pub mod Bound
use claude_code_telegram_kit.Prelude.{
  ℕ, zero, suc, ◌+◌, ◌-◌, ◌*◌, ◌/◌, ◌%◌, ◌^◌, ◌≤◌, ◌<◌, String, Option, none, some, Bool, true,
  false, not, ◌&&◌, ◌||◌, ◌≡◌, ◌≢◌, ◌⊎◌, ◌↔◌, refl, sym, ap, ◌∙◌, inl, inr, List, [], ◌∷◌, ◌++◌,
  map, append-nil, append_assoc, arith, str_eq, eq_iff, eq_refl, if◌then◌else◌, ltb, leb, ◌==◌,
  Bool-cases, Option-cases, length, length-append, length-map, is_some, any, all, All, get_elem?,
  utf16_length, utf16_length-append, utf16_length-join_lines, utf16_length-decimal, joined_length,
  joined_length-append, join_lines, decimal, ◌<>◌, max, min,
}
use claude_code_telegram_kit.Prelude.Uuid.{codes, is_uuid}
use claude_code_telegram_kit.Applier.Names.{is_prompt_id, is_release, is_digest, is_topic}

pub data MemoryReviewDecision : Type 0 where
  create patch no_op : MemoryReviewDecision

pub data MemoryReviewFreshness : Type 0 where
  standing verify_before_use : MemoryReviewFreshness

-- the target is always `managed_memory`
pub record MemoryReviewProposal : Type 0 where
  pub decision : MemoryReviewDecision
  pub topic : String
  pub evidence : List String
  pub content : String
  pub reason : String
  pub freshness : MemoryReviewFreshness

pub record MemoryReviewProposalRecord : Type 0 where
  pub session_id : String
  pub prompt_id : String
  pub release_sha : String
  pub last_assistant_message_sha256 : String
  pub native_memory_watermark : String
  pub snapshot_sha256 : String
  pub proposal_sha256 : String
  pub proposal : MemoryReviewProposal

-- the fields of a receipt that the applier reads; `is_reviewed` is `status === "reviewed"`
pub record MemoryReviewReceipt : Type 0 where
  pub session_id : String
  pub prompt_id : String
  pub last_assistant_message_sha256 : String
  pub snapshot_sha256 : String
  pub release_sha : String
  pub is_reviewed : Bool

pub record NativeMemoryObservation : Type 0 where
  pub memory_directory : String
  pub directory_sha256 : String
  pub release_sha : String
  pub watermark : String

-- the two lists by their lengths
pub record MemoryIdleProof : Type 0 where
  pub session_id : String
  pub prompt_id : String
  pub observed_at : ℕ
  pub background_tasks : ℕ
  pub session_crons : ℕ
  pub stop_hook_active : Bool

pub record ApplyOptions : Type 0 where
  pub release_sha : String
  pub proposal_record : MemoryReviewProposalRecord
  pub receipt : MemoryReviewReceipt
  pub observation : NativeMemoryObservation
  pub idle_proof : MemoryIdleProof
  pub state_directory : String
  pub proposal_directory : String
  pub now : ℕ

pub record Library : Type 0 where
  pub outside : String → String → Bool
  pub proposal_hash : MemoryReviewProposal → String
  pub is_path_like : String → Bool
  pub contains_credential_shape : String → Bool

abbrev pub max_idle_proof_age_ms : ℕ
max_idle_proof_age_ms = 30000

-- /[\u0000-\u001f\u007f]/
unfoldable pub is_control : ℕ → Bool
is_control c = leb c 31 || c == 127

-- `isBoundedString`
unfoldable pub is_bounded : ℕ → ℕ → String → Bool
is_bounded least most s =
    leb least (length (codes s)) && leb (length (codes s)) most && not (any is_control (codes s))

unfoldable pub least_content : MemoryReviewDecision → ℕ
least_content no_op = 0
least_content create = 1
least_content patch = 1

abbrev pub is_clean : Library → String → Bool
is_clean lib s = not (lib.is_path_like s) && not (lib.contains_credential_shape s)

unfoldable pub is_evidence : Library → String → Bool
is_evidence lib s = is_bounded 1 160 s && is_clean lib s

-- `validateMemoryReviewProposal`
unfoldable pub is_valid_proposal : Library → MemoryReviewProposal → Bool
is_valid_proposal lib p =
    is_bounded 1 64 p.topic
    && is_topic p.topic
    && not (lib.is_path_like p.topic)
    && is_bounded (least_content p.decision) 4000 p.content
    && is_bounded 1 400 p.reason
    && is_clean lib p.content
    && is_clean lib p.reason
    && leb (length p.evidence) 8
    && all (is_evidence lib) p.evidence

-- `hasIdleTurnAuthority`
unfoldable pub has_idle_turn_authority : Bool → ℕ → ℕ → Bool
has_idle_turn_authority stop_hook_active tasks crons =
    not stop_hook_active && tasks == 0 && crons == 0

-- `buildMemoryIdleProof`
unfoldable pub build_memory_idle_proof : String → String → ℕ → Bool → ℕ → ℕ → Option MemoryIdleProof
build_memory_idle_proof session_id prompt_id at stop_hook_active tasks crons =
    if is_uuid session_id
      && is_prompt_id prompt_id
      && has_idle_turn_authority stop_hook_active tasks crons
    then some (record {
      session_id = session_id;
      prompt_id = prompt_id;
      observed_at = at;
      background_tasks = 0;
      session_crons = 0;
      stop_hook_active = false;
    })
    else none

-- `validIdleProof`
unfoldable pub valid_idle_proof : MemoryIdleProof → ℕ → Bool
valid_idle_proof proof now =
    is_uuid proof.session_id
    && is_prompt_id proof.prompt_id
    && leb proof.observed_at now
    && leb (now - proof.observed_at) max_idle_proof_age_ms
    && proof.background_tasks == 0
    && proof.session_crons == 0
    && not proof.stop_hook_active

-- the receipt and the record of the proposal are of one reviewed turn
unfoldable pub receipt_is_bound : MemoryReviewReceipt → MemoryReviewProposalRecord → Bool
receipt_is_bound receipt proposal =
    is_uuid receipt.session_id
    && is_prompt_id receipt.prompt_id
    && is_uuid proposal.session_id
    && is_prompt_id proposal.prompt_id
    && is_digest receipt.last_assistant_message_sha256
    && is_digest receipt.snapshot_sha256
    && is_digest proposal.proposal_sha256
    && is_digest proposal.native_memory_watermark
    && is_digest proposal.snapshot_sha256
    && receipt.is_reviewed
    && str_eq receipt.session_id proposal.session_id
    && str_eq receipt.prompt_id proposal.prompt_id
    && str_eq receipt.release_sha proposal.release_sha
    && str_eq receipt.last_assistant_message_sha256 proposal.last_assistant_message_sha256
    && str_eq receipt.snapshot_sha256 proposal.snapshot_sha256

abbrev pub is_outside : Library → ApplyOptions → Bool
is_outside lib o =
    lib.outside o.state_directory o.observation.memory_directory
    && lib.outside o.proposal_directory o.observation.memory_directory

unfoldable pub observation_is_bound : NativeMemoryObservation → MemoryReviewProposalRecord → Bool
observation_is_bound observation proposal =
    str_eq observation.release_sha proposal.release_sha
    && str_eq observation.watermark proposal.native_memory_watermark
    && is_digest observation.directory_sha256

abbrev changes_memory : MemoryReviewDecision → Bool
changes_memory create = true
changes_memory patch = true
changes_memory no_op = false

unfoldable pub proposal_is_supported : Library → MemoryReviewProposalRecord → Bool
proposal_is_supported lib proposal =
    changes_memory proposal.proposal.decision
    && is_topic proposal.proposal.topic
    && str_eq (lib.proposal_hash proposal.proposal) proposal.proposal_sha256

-- `validateBinding`
unfoldable pub validate_binding : Library → ApplyOptions → Option String
validate_binding lib o =
    if not (is_release o.release_sha && str_eq o.release_sha o.proposal_record.release_sha)
    then some "release_mismatch"
    else if not (receipt_is_bound o.receipt o.proposal_record)
    then some "receipt_binding_mismatch"
    else if not (observation_is_bound o.observation o.proposal_record && is_outside lib o)
    then some (
        if not (is_outside lib o)
        then "state_inside_native_memory"
        else "observation_binding_mismatch")
    else if not
        (valid_idle_proof o.idle_proof o.now && str_eq o.idle_proof.session_id o.receipt.session_id)
    then some "idle_proof_mismatch"
    else if not (is_valid_proposal lib o.proposal_record.proposal)
    then some "invalid_proposal"
    else if not (proposal_is_supported lib o.proposal_record)
    then some "unsupported_proposal"
    else none
