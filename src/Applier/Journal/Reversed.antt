-- ===== src/Applier/Journal/Reversed.antt =====
-- Facts on the files of a journal, in the order of a roll-back.
use claude_code_telegram_kit.Prelude.{
  String, Bool, true, not, ◌&&◌, ◌≡◌, refl, List, [], ◌∷◌, ◌++◌, arith, str_eq, eq_iff, all, All,
}
use claude_code_telegram_kit.Applier.Journal.{MemoryApplyJournalFile, reversed, apart, distinct}

module _ (P : MemoryApplyJournalFile → Type 0) where
  All-snoc :
      (l : List MemoryApplyJournalFile) (f : MemoryApplyJournalFile)
      → All P (l ++ f ∷ [])
      → All P l × P f
  All-snoc [] f (h, k) = (tt, h)
  All-snoc (g ∷ l) f (h, k) = let rest = All-snoc l f k in ((h, rest.0), rest.1)

  pub All-unreversed : (l : List MemoryApplyJournalFile) → All P (reversed l) → All P l
  unfolding reversed
  All-unreversed [] h = tt
  All-unreversed (f ∷ l) h =
      let parts = All-snoc (reversed l) f h in (parts.1, All-unreversed l parts.0)

  snoc-All :
      (l : List MemoryApplyJournalFile) (f : MemoryApplyJournalFile)
      → All P l
      → P f
      → All P (l ++ f ∷ [])
  snoc-All [] f h k = (k, tt)
  snoc-All (g ∷ l) f (h, hs) k = (h, snoc-All l f hs k)

  pub All-reversed : (l : List MemoryApplyJournalFile) → All P l → All P (reversed l)
  unfolding reversed
  All-reversed [] h = tt
  All-reversed (f ∷ l) (h, hs) = snoc-All (reversed l) f (All-reversed l hs) h

all-snoc :
    (p : MemoryApplyJournalFile → Bool) (l : List MemoryApplyJournalFile)
    (f : MemoryApplyJournalFile)
    → all p (l ++ f ∷ []) ≡ (all p l && p f)
all-snoc p [] f = ground arith
all-snoc p (g ∷ l) f = ground (arith, all-snoc p l f)

pub all-reversed :
    (p : MemoryApplyJournalFile → Bool) (l : List MemoryApplyJournalFile)
    → all p (reversed l) ≡ all p l
unfolding reversed
all-reversed p [] = refl
all-reversed p (f ∷ l) = ground (arith, all-snoc p (reversed l) f, all-reversed p l)

apart-snoc :
    (path : String) (l : List MemoryApplyJournalFile) (f : MemoryApplyJournalFile)
    → apart path (l ++ f ∷ []) ≡ (apart path l && not (str_eq f.before.path path))
apart-snoc path [] f = ground arith
apart-snoc path (g ∷ l) f = ground (arith, apart-snoc path l f)

pub apart-reversed :
    (path : String) (l : List MemoryApplyJournalFile) → apart path (reversed l) ≡ apart path l
unfolding reversed
apart-reversed path [] = refl
apart-reversed path (f ∷ l) = ground (arith, apart-snoc path (reversed l) f, apart-reversed path l)

distinct-snoc :
    (l : List MemoryApplyJournalFile) (f : MemoryApplyJournalFile)
    → distinct l ≡ true
    → apart f.before.path l ≡ true
    → distinct (l ++ f ∷ []) ≡ true
distinct-snoc [] f d a = refl
distinct-snoc (g ∷ l) f d a = ground (
  arith,
  distinct-snoc l f,
  apart-snoc g.before.path l f,
  eq_iff f.before.path g.before.path,
  eq_iff g.before.path f.before.path,
)

pub distinct-reversed :
    (l : List MemoryApplyJournalFile) → distinct l ≡ true → distinct (reversed l) ≡ true
unfolding reversed
distinct-reversed [] d = refl
distinct-reversed (f ∷ l) d =
    ground
      (arith, distinct-snoc (reversed l) f, distinct-reversed l, apart-reversed f.before.path l)
