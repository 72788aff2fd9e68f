-- ===== src/Applier/Journal/Rollback.antt =====
-- What the roll-back of one file leaves.
use claude_code_telegram_kit.Prelude.{
  String, Option, none, some, Bool, true, false, ◌≡◌, refl, sym, ap, ◌∙◌, inl, inr, arith, str_eq,
  eq_iff, Bool-cases, Option-cases, is_some,
}
use claude_code_telegram_kit.Prelude.JsMap
use claude_code_telegram_kit.Prelude.JsMap.{JsMap}
use claude_code_telegram_kit.Applier.Names.{is_memory_name}
use claude_code_telegram_kit.Applier.Leaf.{
  Memory, Content, MemoryLeafImage, sha_of, sha_of_image, sha_at, capture,
}
use claude_code_telegram_kit.Applier.Leaf.Writes.{
  write_cas-other, remove_cas-other, capture-path, sha_at-write_cas, sha_at-remove_cas, sha_at-leaf,
}
use claude_code_telegram_kit.Applier.Ledger.{same_hash}
use claude_code_telegram_kit.Applier.Ledger.Restored.{same_hash-eq}
use claude_code_telegram_kit.Applier.Journal.{
  MemoryApplyJournalFile, is_valid_content, counted, content_matches, undo, rollback_image,
  rollback_file,
}

module _ (hash : String → String) where
  -- what one undone file holds
  undo_sound :
      (m : Memory) (path : String) (current : MemoryLeafImage) (content : Option Content)
      → capture hash m path ≡ some current
      → is_some current.content ≡ true
      → is_valid_content hash content ≡ true
      → (undo hash m current content).1 ≡ true
      → sha_at hash (undo hash m current content).0 current.path ≡ some (sha_of content)
  unfolding undo sha_of is_valid_content
  undo_sound m path current none h there valid ok =
      let named = capture-path hash m path current h in
      let name : is_memory_name current.path ≡ true = rw (named.0) (named.1) in
      sha_at-remove_cas hash m current there name ok
  undo_sound m path current (some c) h there valid ok =
      let same : hash c.bytes ≡ c.sha256 = ground (arith, eq_iff (hash c.bytes) c.sha256) in
      sha_at-write_cas hash m current c.bytes ok ∙ ap (λ s. some (some s)) same

  undo-other :
      (m : Memory) (current : MemoryLeafImage) (content : Option Content) (path : String)
      → str_eq current.path path ≡ false
      → JsMap.get (undo hash m current content).0.leaves path ≡ JsMap.get m.leaves path
  unfolding undo
  undo-other m current none path h = remove_cas-other hash m current path h
  undo-other m current (some c) path h = write_cas-other hash m current c.bytes path h

  counted_ok : (r : Memory × Bool) → (counted r).1 ≡ 0 → r.1 ≡ true
  counted_ok r h = ground arith

  moved :
      (n : Memory) (p q : String) (v : Option (Option String))
      → p ≡ q
      → sha_at hash n p ≡ v
      → sha_at hash n q ≡ v
  moved n p q v same h = rw (sym same) h

  pub rollback_image_kept :
      (m : Memory) (file : MemoryApplyJournalFile) (current : MemoryLeafImage)
      → content_matches current file.before ≡ true
      → rollback_image hash m file (some current) ≡ (m, 0)
  unfolding rollback_image
  rollback_image_kept m file current h = ground arith

  pub rollback_image_undone :
      (m : Memory) (file : MemoryApplyJournalFile) (current : MemoryLeafImage)
      → content_matches current file.before ≡ false
      → same_hash (sha_of current.content) (some file.after_sha256) ≡ true
      → rollback_image hash m file (some current)
        ≡ counted (undo hash m current file.before.content)
  unfolding rollback_image
  rollback_image_undone m file current h k = ground arith

  pub rollback_image_conflict :
      (m : Memory) (file : MemoryApplyJournalFile) (current : MemoryLeafImage)
      → content_matches current file.before ≡ false
      → same_hash (sha_of current.content) (some file.after_sha256) ≡ false
      → rollback_image hash m file (some current) ≡ (m, 1)
  unfolding rollback_image
  rollback_image_conflict m file current h k = ground arith

  has_content :
      (c : Option Content) (after : String)
      → same_hash (sha_of c) (some after) ≡ true
      → is_some c ≡ true
  unfolding sha_of
  has_content none after h = ground arith
  has_content (some c) after h = refl

  undone_sound :
      (m : Memory) (file : MemoryApplyJournalFile) (current : MemoryLeafImage)
      → capture hash m file.before.path ≡ some current
      → is_valid_content hash file.before.content ≡ true
      → same_hash (sha_of current.content) (some file.after_sha256) ≡ true
      → (counted (undo hash m current file.before.content)).1 ≡ 0
      → sha_at hash (counted (undo hash m current file.before.content)).0 file.before.path
        ≡ some (sha_of file.before.content)
  undone_sound m file current found valid after ok =
      moved (undo hash m current file.before.content).0 current.path file.before.path
        (some (sha_of file.before.content)) ((capture-path hash m file.before.path current found).0)
        (undo_sound m file.before.path current file.before.content found
          (has_content current.content file.after_sha256 after) valid
          (counted_ok (undo hash m current file.before.content) ok))

  kept_sound :
      (m : Memory) (file : MemoryApplyJournalFile) (current : MemoryLeafImage)
      → capture hash m file.before.path ≡ some current
      → content_matches current file.before ≡ true
      → sha_at hash m file.before.path ≡ some (sha_of file.before.content)
  unfolding content_matches sha_of_image
  kept_sound m file current found h = rw found (
      ap (λ s. some s)
        (same_hash-eq (sha_of current.content) (sha_of file.before.content) (ground arith)))

  rollback_image_sound :
      (m : Memory) (file : MemoryApplyJournalFile) (current : MemoryLeafImage)
      → capture hash m file.before.path ≡ some current
      → is_valid_content hash file.before.content ≡ true
      → (rollback_image hash m file (some current)).1 ≡ 0
      → sha_at hash (rollback_image hash m file (some current)).0 file.before.path
        ≡ some (sha_of file.before.content)
  rollback_image_sound m file current found valid ok =
      elim (Bool-cases (content_matches current file.before)) [
        | inl h ↦ rw (rollback_image_kept m file current h) (kept_sound m file current found h)
        | inr h ↦ elim (Bool-cases (same_hash (sha_of current.content) (some file.after_sha256))) [
          | inl after ↦
              let undone = rollback_image_undone m file current h after in
              rw undone (undone_sound m file current found valid after (rw undone at ok))
          | inr neither ↦
              let one : (rollback_image hash m file (some current)).1 ≡ 1 =
                ap (λ r. r.1) (rollback_image_conflict m file current h neither) in
              ground arith
        ]
      ]

  -- A round without a conflict leaves the file with the hash it had before.
  pub rollback_file_sound :
      (m : Memory) (file : MemoryApplyJournalFile)
      → is_valid_content hash file.before.content ≡ true
      → (rollback_file hash m file).1 ≡ 0
      → sha_at hash (rollback_file hash m file).0 file.before.path
        ≡ some (sha_of file.before.content)
  unfolding rollback_image
  rollback_file_sound m file valid ok = elim (Option-cases (capture hash m file.before.path)) [
    | inl gone ↦ ground arith
    | inr (current, found) ↦
        rw found (rollback_image_sound m file current found valid (rw found at ok))
  ]

  -- a round is about its own file
  pub rollback_file-other :
      (m : Memory) (file : MemoryApplyJournalFile) (path : String)
      → str_eq file.before.path path ≡ false
      → sha_at hash (rollback_file hash m file).0 path ≡ sha_at hash m path
  unfolding rollback_image
  rollback_file-other m file path h =
      sha_at-leaf hash (rollback_file hash m file).0 m path
        (leaf (capture hash m file.before.path) refl)
    where
      leaf :
          (image : Option MemoryLeafImage)
          → capture hash m file.before.path ≡ image
          → JsMap.get (rollback_image hash m file image).0.leaves path ≡ JsMap.get m.leaves path
      leaf none e = refl
      leaf (some current) e =
          let away : str_eq current.path path ≡ false =
            rw ((capture-path hash m file.before.path current e).0) h in
          elim (Bool-cases (content_matches current file.before)) [
            | inl h ↦ ap (λ r. JsMap.get r.0.leaves path) (rollback_image_kept m file current h)
            | inr h ↦
                elim (Bool-cases (same_hash (sha_of current.content) (some file.after_sha256))) [
                  | inl after ↦
                      ap (λ r. JsMap.get r.0.leaves path)
                        (rollback_image_undone m file current h after)
                      ∙ undo-other m current file.before.content path away
                  | inr neither ↦
                      ap (λ r. JsMap.get r.0.leaves path)
                        (rollback_image_conflict m file current h neither)
                ]
          ]
