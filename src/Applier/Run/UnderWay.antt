-- ===== src/Applier/Run/UnderWay.antt =====
-- What a write of an apply leaves of its files.
use claude_code_telegram_kit.Prelude.{
  String, some, true, false, not, ◌||◌, ◌≡◌, ◌⊎◌, refl, ap, ◌∙◌, inl, inr, List, [], ◌∷◌, arith,
  str_eq, eq_iff, ltb, Bool-cases, All,
}
use claude_code_telegram_kit.Applier.Leaf.{
  Memory, MemoryLeafImage, write_cas, sha_at, is_current, byte_length, max_memory_file_bytes,
}
use claude_code_telegram_kit.Applier.Names.{is_memory_name}
use claude_code_telegram_kit.Applier.Leaf.Writes.{
  write_cas-other, sha_at-write_cas, sha_at-leaf, reads_back-replace,
}
use claude_code_telegram_kit.Applier.Journal.{MemoryApplyJournalFile, apart, distinct}
use claude_code_telegram_kit.Applier.Journal.Restores.{Between}

-- a file of the journal
pub data In (f : MemoryApplyJournalFile) : List MemoryApplyJournalFile → Type 0 where
  here : {l : List MemoryApplyJournalFile} → In f (f ∷ l)
  there : {g : MemoryApplyJournalFile} {l : List MemoryApplyJournalFile} → In f l → In f (g ∷ l)

pub apart-In :
    (path : String) (f : MemoryApplyJournalFile) (l : List MemoryApplyJournalFile)
    → In f l
    → apart path l ≡ true
    → str_eq f.before.path path ≡ false
apart-In path f l here h = ground arith
apart-In path f l (there i) h = apart-In path f _ i (ground arith)

abbrev pub SoundAfter : (String → String) → MemoryApplyJournalFile → Type 0
SoundAfter hash f = hash f.after ≡ f.after_sha256

module _ (hash : String → String) where
  -- a write leaves the memory as it was, or does not throw
  pub write_cas_cases :
      (m : Memory) (before : MemoryLeafImage) (bytes : String)
      → ((write_cas hash m before bytes).0 ≡ m) ⊎ ((write_cas hash m before bytes).1 ≡ true)
  unfolding write_cas
  write_cas_cases m before bytes =
      elim (Bool-cases
        (ltb max_memory_file_bytes (byte_length bytes) || not (is_memory_name before.path))) [
          | inl bad ↦ rw bad (inl refl)
          | inr good ↦ elim (Bool-cases (is_current hash m before)) [
            | inl now ↦
                rw (good, now)
                  (inr (reads_back-replace hash m before bytes (ground arith) (ground arith)))
            | inr stale ↦ rw (good, stale) (inl refl)
          ]
        ]

  Between-moved :
      (m n : Memory) (g : MemoryApplyJournalFile)
      → sha_at hash n g.before.path ≡ sha_at hash m g.before.path
      → Between hash m g
      → Between hash n g
  Between-moved m n g same (inl e) = inl (same ∙ e)
  Between-moved m n g same (inr e) = inr (same ∙ e)

  pub written-other :
      (m : Memory) (f : MemoryApplyJournalFile) (path : String)
      → str_eq f.before.path path ≡ false
      → sha_at hash (write_cas hash m f.before f.after).0 path ≡ sha_at hash m path
  written-other m f path h =
      sha_at-leaf hash (write_cas hash m f.before f.after).0 m path
        (write_cas-other hash m f.before f.after path h)

  Between-others :
      (m : Memory) (f : MemoryApplyJournalFile) (l : List MemoryApplyJournalFile)
      → apart f.before.path l ≡ true
      → All (Between hash m) l
      → All (Between hash (write_cas hash m f.before f.after).0) l
  Between-others m f [] a h = tt
  Between-others m f (g ∷ l) a (h, k) =
      let away : str_eq f.before.path g.before.path ≡ false =
        ground (arith, eq_iff f.before.path g.before.path, eq_iff g.before.path f.before.path) in
      (
        Between-moved m (write_cas hash m f.before f.after).0 g
            (written-other m f g.before.path away) h,
        Between-others m f l (ground arith) k,
      )

  Between-own :
      (m : Memory) (f : MemoryApplyJournalFile)
      → SoundAfter hash f
      → Between hash m f
      → Between hash (write_cas hash m f.before f.after).0 f
  Between-own m f sound h = elim (write_cas_cases m f.before f.after) [
    | inl same ↦ rw same h
    | inr ok ↦ inr (sha_at-write_cas hash m f.before f.after ok ∙ ap (λ s. some (some s)) sound)
  ]

  -- a write of one of the files leaves every file between its two states
  pub Between-write_cas :
      (m : Memory) (f : MemoryApplyJournalFile) (l : List MemoryApplyJournalFile)
      → In f l
      → distinct l ≡ true
      → All (SoundAfter hash) l
      → All (Between hash m) l
      → All (Between hash (write_cas hash m f.before f.after).0) l
  Between-write_cas m f [] i d sound h = elim i [ ]
  Between-write_cas m f (_ ∷ l) here d (sound, sounds) (h, k) =
      (Between-own m f sound h, Between-others m f l (ground arith) k)
  Between-write_cas m f (g ∷ l) (there i) d (sound, sounds) (h, k) = (
    Between-moved m (write_cas hash m f.before f.after).0 g
        (written-other m f g.before.path (apart-In g.before.path f l i (ground arith))) h,
    Between-write_cas m f l i (ground arith) sounds k,
  )
