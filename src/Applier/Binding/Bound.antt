-- ===== src/Applier/Binding/Bound.antt =====
-- What valid options are bound to.
use claude_code_telegram_kit.Prelude.{
  ℕ, ◌+◌, ◌-◌, ◌≤◌, none, true, ◌≡◌, sym, ◌∙◌, arith, str_eq, eq_iff, leb,
}
use claude_code_telegram_kit.Applier.Names.{is_topic}
use claude_code_telegram_kit.Applier.Binding.{
  MemoryReviewProposalRecord, MemoryReviewReceipt, NativeMemoryObservation, MemoryIdleProof,
  ApplyOptions, Library, max_idle_proof_age_ms, valid_idle_proof, receipt_is_bound, is_outside,
  observation_is_bound, proposal_is_supported, validate_binding,
}

-- One reviewed turn: the release, the session, the prompt and the watermark agree where they are
-- compared, the idle proof is of the session and at most half a minute old, and the topic is valid.
pub record IsBound (lib : Library) (o : ApplyOptions) : Type 0 where
  pub release : o.release_sha ≡ o.proposal_record.release_sha
  pub receipt_release : o.receipt.release_sha ≡ o.release_sha
  pub observation_release : o.observation.release_sha ≡ o.release_sha
  pub session : o.receipt.session_id ≡ o.proposal_record.session_id
  pub prompt : o.receipt.prompt_id ≡ o.proposal_record.prompt_id
  pub idle_session : o.idle_proof.session_id ≡ o.receipt.session_id
  pub idle_age : o.now ≤ o.idle_proof.observed_at + max_idle_proof_age_ms
  pub watermark : o.observation.watermark ≡ o.proposal_record.native_memory_watermark
  pub proposal : lib.proposal_hash o.proposal_record.proposal ≡ o.proposal_record.proposal_sha256
  pub topic : is_topic o.proposal_record.proposal.topic ≡ true
  pub outside : is_outside lib o ≡ true

receipt_parts :
    (r : MemoryReviewReceipt) (q : MemoryReviewProposalRecord)
    → receipt_is_bound r q ≡ true
    → (r.session_id ≡ q.session_id) × (r.prompt_id ≡ q.prompt_id) × (r.release_sha ≡ q.release_sha)
unfolding receipt_is_bound
receipt_parts r q h = (
  (eq_iff r.session_id q.session_id).0 (ground arith),
  (eq_iff r.prompt_id q.prompt_id).0 (ground arith),
  (eq_iff r.release_sha q.release_sha).0 (ground arith),
)

observation_parts :
    (w : NativeMemoryObservation) (q : MemoryReviewProposalRecord)
    → observation_is_bound w q ≡ true
    → (w.release_sha ≡ q.release_sha) × (w.watermark ≡ q.native_memory_watermark)
unfolding observation_is_bound
observation_parts w q h = (
  (eq_iff w.release_sha q.release_sha).0 (ground arith),
  (eq_iff w.watermark q.native_memory_watermark).0 (ground arith),
)

idle_age :
    (proof : MemoryIdleProof) (now : ℕ)
    → valid_idle_proof proof now ≡ true
    → now ≤ proof.observed_at + max_idle_proof_age_ms
unfolding valid_idle_proof
idle_age proof now h =
    let young : leb (now - proof.observed_at) max_idle_proof_age_ms ≡ true = ground arith in
    ground arith

proposal_parts :
    (lib : Library) (q : MemoryReviewProposalRecord)
    → proposal_is_supported lib q ≡ true
    → (is_topic q.proposal.topic ≡ true) × (lib.proposal_hash q.proposal ≡ q.proposal_sha256)
unfolding proposal_is_supported
proposal_parts lib q h =
    (ground arith, (eq_iff (lib.proposal_hash q.proposal) q.proposal_sha256).0 (ground arith))

-- every test of the options has passed
passed :
    (lib : Library) (o : ApplyOptions)
    → validate_binding lib o ≡ none
    → (str_eq o.release_sha o.proposal_record.release_sha ≡ true)
      × (receipt_is_bound o.receipt o.proposal_record ≡ true)
      × (observation_is_bound o.observation o.proposal_record ≡ true)
      × (is_outside lib o ≡ true)
      × (valid_idle_proof o.idle_proof o.now ≡ true)
      × (str_eq o.idle_proof.session_id o.receipt.session_id ≡ true)
      × (proposal_is_supported lib o.proposal_record ≡ true)
unfolding validate_binding
passed lib o h = (
  ground arith,
  ground arith,
  ground arith,
  ground arith,
  ground arith,
  ground arith,
  ground arith,
)

-- Options without a reason to reject them are of one reviewed turn: record, receipt and
-- observation agree in the release, record and receipt also in the session and the prompt, the
-- record and the observation in the watermark; the idle proof, which may be of another prompt, is
-- of the session and at most half a minute old, the proposal has the hash of the record, its topic
-- is valid, and the state is outside the memory.
pub validate_binding-IsBound :
    (lib : Library) (o : ApplyOptions) → validate_binding lib o ≡ none → IsBound lib o
validate_binding-IsBound lib o h =
    let parts = passed lib o h in
    let release = (eq_iff o.release_sha o.proposal_record.release_sha).0 (parts.0) in
    let receipt = receipt_parts o.receipt o.proposal_record (parts.1) in
    let observation = observation_parts o.observation o.proposal_record (parts.2) in
    let proposal = proposal_parts lib o.proposal_record (parts.6) in
    record {
      release = release;
      receipt_release = receipt.2 ∙ sym release;
      observation_release = observation.0 ∙ sym release;
      session = receipt.0;
      prompt = receipt.1;
      idle_session = (eq_iff o.idle_proof.session_id o.receipt.session_id).0 (parts.5);
      idle_age = idle_age o.idle_proof o.now (parts.4);
      watermark = observation.1;
      proposal = proposal.1;
      topic = proposal.0;
      outside = parts.3;
    }
