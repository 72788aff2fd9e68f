-- ===== src/Applier/Run/Planned.antt =====
-- What a plan says of the files that it was made from.
use claude_code_telegram_kit.Prelude.{
  String, Option, none, some, true, ◌≡◌, ◌⊎◌, refl, sym, ap, ◌∙◌, inl, inr, List, [], ◌∷◌, arith,
  eq_iff, Bool-cases, Option-cases, is_some, all, All,
}
use mathlib.Core.Path.{subst}
use claude_code_telegram_kit.Prelude.JsMap
use claude_code_telegram_kit.Applier.Names.{is_topic, topic_file, index_name}
use claude_code_telegram_kit.Applier.Names.Hyphens.{not_index}
use claude_code_telegram_kit.Applier.Leaf.{
  Memory, MemoryLeafImage, capture, image_of_leaf, image_of, is_capturable,
}
use claude_code_telegram_kit.Applier.Leaf.Writes.{capture-path}
use claude_code_telegram_kit.Applier.Ledger.{MemoryManagedLedger, read_managed_ledger}
use claude_code_telegram_kit.Applier.Journal.{MemoryApplyJournalFile, Platform, World, distinct}
use claude_code_telegram_kit.Applier.Journal.Restores.{fits}
use claude_code_telegram_kit.Applier.Journal.Outcome.{fits_before}
use claude_code_telegram_kit.Applier.Apply.{
  Request, View, index_view, view_of, look, journal_file, topic_after, Plan, planned, decide_create,
  decide_patch, decide, is_already,
}
use claude_code_telegram_kit.Applier.Run.{files_of, index_files}
use claude_code_telegram_kit.Applier.Run.UnderWay.{SoundAfter}

module _ (hash : String → String) where
  -- the image is what the file holds
  abbrev pub Captured : Memory → MemoryLeafImage → Type 0
  Captured m image = capture hash m image.path ≡ some image

  Captured-capture :
      (m : Memory) (path : String) (image : MemoryLeafImage)
      → capture hash m path ≡ some image
      → Captured m image
  Captured-capture m path image h =
      subst (λ x. capture hash m x ≡ some image) (sym ((capture-path hash m path image h).0)) h

  capture-fits :
      (m : Memory) (path : String) (image : MemoryLeafImage)
      → capture hash m path ≡ some image
      → fits image.content ≡ true
  unfolding capture image_of_leaf image_of is_capturable fits
  capture-fits m path image h = elim (Option-cases (JsMap.get m.leaves path)) [
    | inl gone ↦ ground arith
    | inr (leaf, found) ↦ ground arith
  ]

  view_of_index :
      (r : Request) (m : Memory) (t : Option MemoryLeafImage)
      (managed : Option (Option MemoryManagedLedger)) (v : View)
      → view_of hash r m t managed ≡ some v
      → (t ≡ some v.topic_before)
        × (managed ≡ some v.managed_before)
        × ((v.index ≡ none) ⊎ (capture hash m index_name ≡ v.index))
  unfolding view_of index_view
  view_of_index r m none managed v h = ground arith
  view_of_index r m (some t) none v h = ground arith
  view_of_index r m (some t) (some managed) v h = elim (Bool-cases r.is_create) [
    | inl creates ↦ elim (Option-cases (capture hash m index_name)) [
      | inl gone ↦ ground arith
      | inr (index, found) ↦ (ground arith, ground arith, inr (ground arith))
    ]
    | inr patches ↦ (ground arith, ground arith, inl (ground arith))
  ]

  planned_create :
      (r : Request) (t : MemoryLeafImage) (index : Option MemoryLeafImage) (plan : Plan)
      → decide_create hash r t index ≡ planned plan
      → (plan.topic ≡ journal_file hash t (topic_after r))
        × ((f : MemoryApplyJournalFile)
            → plan.index ≡ some f
            → (index ≡ some f.before) × SoundAfter hash f)
  unfolding decide_create journal_file
  planned_create r t none plan h = ground arith
  planned_create r t (some index) plan h = elim (Bool-cases (is_some t.content)) [
    | inl exists ↦ ground arith
    | inr fresh ↦ elim (Option-cases index.content) [
      | inl gone ↦ ground arith
      | inr (c, found) ↦ (ground arith, λ f e. (ground arith, ground arith))
    ]
  ]

  planned_patch :
      (r : Request) (v : View) (plan : Plan)
      → decide_patch hash r v ≡ planned plan
      → (plan.topic ≡ journal_file hash v.topic_before (topic_after r)) × (plan.index ≡ none)
  unfolding decide_patch journal_file
  planned_patch r v plan h = ground arith

  topic_after-SoundAfter :
      (image : MemoryLeafImage) (after : String) → SoundAfter hash (journal_file hash image after)
  unfolding journal_file
  topic_after-SoundAfter image after = refl

-- What is planned is of different files, as they are and may be again.
pub record IsPlanned (hash : String → String) (m : Memory) (files : List MemoryApplyJournalFile)
    : Type 0 where
  pub captured : All (λ f. Captured hash m f.before) files
  pub small : all fits_before files ≡ true
  pub sound : All (SoundAfter hash) files
  pub distinct_files : distinct files ≡ true

-- the first file is that of the topic, to hold the content
pub record IsOfTopic (hash : String → String) (r : Request) (plan : Plan) : Type 0 where
  pub path : plan.topic.before.path ≡ topic_file r.topic
  pub after : plan.topic.after ≡ topic_after r
  pub sha : plan.topic.after_sha256 ≡ hash (topic_after r)

apart_paths :
    (topic : String) (t f : MemoryApplyJournalFile)
    → is_topic topic ≡ true
    → t.before.path ≡ topic_file topic
    → f.before.path ≡ index_name
    → distinct (t ∷ f ∷ []) ≡ true
apart_paths topic t f valid a b =
    rw (a, b)
      (ground (
        arith,
        not_index topic valid,
        eq_iff (topic_file topic) index_name,
        eq_iff index_name (topic_file topic),
      ))

module _ (p : Platform) where
  decided :
      (r : Request) (m : Memory) (v : View) (plan : Plan)
      → decide p r m v ≡ planned plan
      → (plan.topic ≡ journal_file p.codec.hash v.topic_before (topic_after r))
        × ((f : MemoryApplyJournalFile)
            → plan.index ≡ some f
            → (v.index ≡ some f.before) × SoundAfter p.codec.hash f)
  unfolding decide decide_create decide_patch
  decided r m v plan h = elim (Bool-cases (is_already p r v)) [
    | inl already_there ↦ ground arith
    | inr new ↦ elim (Bool-cases (r.is_observed m)) [
      | inr stale ↦ ground arith
      | inl observed ↦ elim (Bool-cases r.is_create) [
        | inl creates ↦
            planned_create p.codec.hash r v.topic_before v.index plan
              (rw (new, observed, creates) at h)
        | inr patches ↦
            let parts = planned_patch p.codec.hash r v plan (rw (new, observed, patches) at h) in
            (parts.0, λ f e. ground (arith, parts.1))
      ]
    ]
  ]

  -- A plan for a valid topic is made of the files as they are.
  pub decide-IsPlanned :
      (r : Request) (w : World) (v : View) (plan : Plan)
      → is_topic r.topic ≡ true
      → look p r w ≡ some v
      → decide p r w.memory v ≡ planned plan
      → IsPlanned p.codec.hash w.memory (files_of plan)
        × (read_managed_ledger p.codec w.ledger ≡ some v.managed_before)
        × IsOfTopic p.codec.hash r plan
  unfolding look journal_file index_files
  decide-IsPlanned r w v plan topic seen h =
      let views =
        view_of_index p.codec.hash r w.memory (capture p.codec.hash w.memory (topic_file r.topic))
          (read_managed_ledger p.codec w.ledger) v seen in
      let parts = decided r w.memory v plan h in
      (
        go plan.index refl (views.0) (views.2) (parts.0) (parts.1),
        views.1,
        of_topic (views.0) (parts.0),
      )
    where
      of_topic :
          capture p.codec.hash w.memory (topic_file r.topic) ≡ some v.topic_before
          → plan.topic ≡ journal_file p.codec.hash v.topic_before (topic_after r)
          → IsOfTopic p.codec.hash r plan
      of_topic t made = record {
        path =
            ap (λ f. f.before.path) made
            ∙ (capture-path p.codec.hash w.memory (topic_file r.topic) v.topic_before t).0;
        after = ap (λ f. f.after) made;
        sha = ap (λ f. f.after_sha256) made;
      }

      go :
          (index : Option MemoryApplyJournalFile)
          → plan.index ≡ index
          → capture p.codec.hash w.memory (topic_file r.topic) ≡ some v.topic_before
          → (v.index ≡ none) ⊎ (capture p.codec.hash w.memory index_name ≡ v.index)
          → plan.topic ≡ journal_file p.codec.hash v.topic_before (topic_after r)
          → ((f : MemoryApplyJournalFile)
              → plan.index ≡ some f
              → (v.index ≡ some f.before) × SoundAfter p.codec.hash f)
          → IsPlanned p.codec.hash w.memory (files_of plan)
      go none e t i made more =
          let before : capture p.codec.hash w.memory (topic_file r.topic) ≡ some plan.topic.before =
            t ∙ ap (λ f. some f.before) (sym made) in
          let sound : SoundAfter p.codec.hash plan.topic =
            subst (SoundAfter p.codec.hash) (sym made) refl in
          subst (λ index. IsPlanned p.codec.hash w.memory (plan.topic ∷ index_files index)) (sym e)
            (record {
              captured = (
                Captured-capture p.codec.hash w.memory (topic_file r.topic) plan.topic.before
                    before,
                tt,
              );
              small =
                  rw
                    (capture-fits p.codec.hash w.memory (topic_file r.topic) plan.topic.before
                      before)
                    refl;
              sound = (sound, tt);
              distinct_files = refl;
            })
      go (some f) e t i made more =
          let before : capture p.codec.hash w.memory (topic_file r.topic) ≡ some plan.topic.before =
            t ∙ ap (λ f. some f.before) (sym made) in
          let sound : SoundAfter p.codec.hash plan.topic =
            subst (SoundAfter p.codec.hash) (sym made) refl in
          let index : capture p.codec.hash w.memory index_name ≡ some f.before = elim i [
            | inl gone ↦ ground (arith, (more f e).0)
            | inr there ↦ there ∙ (more f e).0
          ] in
          subst (λ index. IsPlanned p.codec.hash w.memory (plan.topic ∷ index_files index)) (sym e)
            (record {
              captured = (
                Captured-capture p.codec.hash w.memory (topic_file r.topic) plan.topic.before
                    before,
                (Captured-capture p.codec.hash w.memory index_name f.before index, tt),
              );
              small =
                  rw
                    (
                      capture-fits p.codec.hash w.memory (topic_file r.topic) plan.topic.before
                          before,
                      capture-fits p.codec.hash w.memory index_name f.before index,
                    )
                    refl;
              sound = (sound, ((more f e).1, tt));
              distinct_files =
                  apart_paths r.topic plan.topic f topic
                    ((capture-path p.codec.hash w.memory (topic_file r.topic) plan.topic.before
                      before).0)
                    ((capture-path p.codec.hash w.memory index_name f.before index).0);
            })
