-- ===== src/Applier/Journal/Restores.antt =====
-- What the roll-back of the files of a journal leaves.
use claude_code_telegram_kit.Prelude.{
  String, Option, none, some, Bool, true, false, ◌≡◌, ◌≢◌, ◌⊎◌, refl, ap, ◌∙◌, inl, inr, List, [],
  ◌∷◌, arith, eq_iff, eq_refl, leb, Bool-cases, Option-cases, all, All,
}
use claude_code_telegram_kit.Applier.Leaf.{
  max_memory_file_bytes, Memory, Content, MemoryLeafImage, byte_length, sha_of, sha_of_image,
  sha_at, capture, remove_cas,
}
use claude_code_telegram_kit.Applier.Leaf.Writes.{capture-path, capture-is_current, write_cas_lem}
use claude_code_telegram_kit.Applier.Ledger.{same_hash}
use claude_code_telegram_kit.Applier.Ledger.Restored.{same_hash-eq, same_hash_refl}
use claude_code_telegram_kit.Applier.Journal.{
  MemoryApplyJournalFile, is_valid_content, content_matches, undo, counted, rollback_image,
  rollback_file, rollback_files, apart, distinct,
}
use claude_code_telegram_kit.Applier.Journal.Rollback.{
  rollback_image_kept, rollback_image_undone, rollback_image_conflict, rollback_file_sound,
  rollback_file-other,
}

-- what was there before can be written again
unfoldable pub fits : Option Content → Bool
fits none = true
fits (some c) = leb (byte_length c.bytes) max_memory_file_bytes

same_hash_apart : (a b : Option String) → a ≢ b → same_hash a b ≡ false
same_hash_apart a b h = elim (Bool-cases (same_hash a b)) [
  | inl same ↦ ground (arith, same_hash-eq a b)
  | inr other ↦ other
]

module _ (hash : String → String) where
  -- A file is as it was before, or as the applier would leave it.
  abbrev pub Between : Memory → MemoryApplyJournalFile → Type 0
  Between m file =
      (sha_at hash m file.before.path ≡ some (sha_of file.before.content))
      ⊎ (sha_at hash m file.before.path ≡ some (some file.after_sha256))

  undo_ok :
      (m : Memory) (path : String) (current : MemoryLeafImage) (content : Option Content)
      → capture hash m path ≡ some current
      → fits content ≡ true
      → (undo hash m current content).1 ≡ true
  unfolding undo remove_cas fits
  undo_ok m path current none found small =
      ground (arith, capture-is_current hash m path current found)
  undo_ok m path current (some c) found small =
      ap (λ r. r.1) (write_cas_lem hash m path c.bytes current found small)

  matches_of :
      (m : Memory) (file : MemoryApplyJournalFile) (current : MemoryLeafImage)
      → capture hash m file.before.path ≡ some current
      → sha_of current.content ≡ sha_of file.before.content
      → content_matches current file.before ≡ true
  unfolding content_matches
  matches_of m file current found h =
      rw
        (
          (capture-path hash m file.before.path current found).0,
          eq_refl file.before.path,
          h,
          same_hash_refl (sha_of file.before.content),
        )
        refl

  rollback_image_complete :
      (m : Memory) (file : MemoryApplyJournalFile) (current : MemoryLeafImage)
      → capture hash m file.before.path ≡ some current
      → fits file.before.content ≡ true
      → (sha_of current.content ≡ sha_of file.before.content)
        ⊎ (sha_of current.content ≡ some file.after_sha256)
      → (rollback_image hash m file (some current)).1 ≡ 0
  rollback_image_complete m file current found small (inl before) =
      ap (λ r. r.1)
        (rollback_image_kept hash m file current (matches_of m file current found before))
  rollback_image_complete m file current found small (inr after) =
      elim (Bool-cases (content_matches current file.before)) [
        | inl h ↦ ap (λ r. r.1) (rollback_image_kept hash m file current h)
        | inr h ↦
            let ok : (undo hash m current file.before.content).1 ≡ true =
              undo_ok m file.before.path current file.before.content found small in
            let same : same_hash (sha_of current.content) (some file.after_sha256) ≡ true =
              rw after (eq_refl file.after_sha256) in
            let none_counted : (counted (undo hash m current file.before.content)).1 ≡ 0 =
              rw ok refl in
            ap (λ r. r.1) (rollback_image_undone hash m file current h same) ∙ none_counted
      ]

  -- A round has no conflict where the file is as it was before or as the applier would leave it.
  pub rollback_file_complete :
      (m : Memory) (file : MemoryApplyJournalFile)
      → fits file.before.content ≡ true
      → Between m file
      → (rollback_file hash m file).1 ≡ 0
  unfolding rollback_image sha_of_image
  rollback_file_complete m file small h = elim (Option-cases (capture hash m file.before.path)) [
    | inl gone ↦ ground arith
    | inr (current, found) ↦ rw found (
        rollback_image_complete m file current found small
          (elim h [ inl e ↦ inl (ground arith) | inr e ↦ inr (ground arith) ]))
  ]

  -- a file that is neither is a conflict, and stays as it is
  pub rollback_file_foreign :
      (m : Memory) (file : MemoryApplyJournalFile) (sha : Option String)
      → sha_at hash m file.before.path ≡ some sha
      → sha ≢ sha_of file.before.content
      → sha ≢ some file.after_sha256
      → rollback_file hash m file ≡ (m, 1)
  unfolding rollback_image sha_of_image content_matches
  rollback_file_foreign m file sha h before after =
      elim (Option-cases (capture hash m file.before.path)) [
        | inl gone ↦ ground arith
        | inr (current, found) ↦ rw found (go current (ground arith))
      ]
    where
      go :
          (current : MemoryLeafImage)
          → sha_of current.content ≡ sha
          → rollback_image hash m file (some current) ≡ (m, 1)
      go current e =
          let not_before : same_hash (sha_of current.content) (sha_of file.before.content) ≡ false =
            rw e (same_hash_apart sha (sha_of file.before.content) before) in
          let not_after : same_hash (sha_of current.content) (some file.after_sha256) ≡ false =
            rw e (same_hash_apart sha (some file.after_sha256) after) in
          let other : content_matches current file.before ≡ false = ground arith in
          rollback_image_conflict hash m file current other not_after

  pub rollback_files-apart :
      (m : Memory) (files : List MemoryApplyJournalFile) (path : String)
      → apart path files ≡ true
      → sha_at hash (rollback_files hash m files).0 path ≡ sha_at hash m path
  unfolding rollback_files
  rollback_files-apart m [] path h = refl
  rollback_files-apart m (f ∷ l) path h =
      rollback_files-apart (rollback_file hash m f).0 l path (ground arith)
      ∙ rollback_file-other hash m f path (ground arith)

  abbrev pub RestoredAt : Memory → MemoryApplyJournalFile → Type 0
  RestoredAt m f = sha_at hash m f.before.path ≡ some (sha_of f.before.content)

  abbrev valid_content_of : MemoryApplyJournalFile → Bool
  valid_content_of f = is_valid_content hash f.before.content

  -- A roll-back without a conflict leaves every file with the hash it had before.
  pub rollback_files_sound :
      (m : Memory) (files : List MemoryApplyJournalFile)
      → distinct files ≡ true
      → all valid_content_of files ≡ true
      → (rollback_files hash m files).1 ≡ 0
      → All (RestoredAt (rollback_files hash m files).0) files
  unfolding rollback_files
  rollback_files_sound m [] d v h = tt
  rollback_files_sound m (f ∷ l) d v h = (
    rollback_files-apart (rollback_file hash m f).0 l f.before.path (ground arith)
        ∙ rollback_file_sound hash m f (ground arith) (omega (arith, h)),
    rollback_files_sound (rollback_file hash m f).0 l (ground arith) (ground arith)
        (omega (arith, h)),
  )

  Between-rollback :
      (m : Memory) (f : MemoryApplyJournalFile) (l : List MemoryApplyJournalFile)
      → apart f.before.path l ≡ true
      → All (Between m) l
      → All (Between (rollback_file hash m f).0) l
  Between-rollback m f [] a h = tt
  Between-rollback m f (g ∷ l) a (h, k) =
      let same : sha_at hash (rollback_file hash m f).0 g.before.path
          ≡ sha_at hash m g.before.path =
        rollback_file-other hash m f g.before.path (
          ground (arith, eq_iff f.before.path g.before.path, eq_iff g.before.path f.before.path)) in
      (
        elim h [ inl e ↦ inl (same ∙ e) | inr e ↦ inr (same ∙ e) ],
        Between-rollback m f l (ground arith) k,
      )

  abbrev fits_of : MemoryApplyJournalFile → Bool
  fits_of f = fits f.before.content

  -- A roll-back has no conflict where every file is as it was before or as the applier would leave it.
  pub rollback_files_complete :
      (m : Memory) (files : List MemoryApplyJournalFile)
      → distinct files ≡ true
      → all fits_of files ≡ true
      → All (Between m) files
      → (rollback_files hash m files).1 ≡ 0
  unfolding rollback_files
  rollback_files_complete m [] d v h = refl
  rollback_files_complete m (f ∷ l) d v (h, k) =
      let one = rollback_file_complete m f (ground arith) h in
      let rest =
        rollback_files_complete (rollback_file hash m f).0 l (ground arith) (ground arith)
          (Between-rollback m f l (ground arith) k) in
      omega (arith, one, rest)
