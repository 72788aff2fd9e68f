-- ===== src/Applier/Names/Hyphens.antt =====
-- Which topics have a file name that the applier accepts.
use claude_code_telegram_kit.Prelude.{
  ℕ, suc, String, Bool, true, false, ◌≡◌, refl, sym, ap, ◌∙◌, inl, inr, List, [], ◌∷◌, ◌++◌, arith,
  str_eq, eq_iff, if◌then◌else◌, leb, ◌==◌, Bool-cases,
}
use claude_code_telegram_kit.Prelude.Uuid.{codes, codes-append}
use claude_code_telegram_kit.Applier.Names.{
  is_lower, is_digit, topic_tail, is_topic_from, is_topic, same_codes, md, name_tail, is_name_from,
  index_name, is_memory_name, topic_file,
}

abbrev hyphens_of : List ℕ → ℕ
hyphens_of [] = 0
hyphens_of (c ∷ cs) = if c == 45 then suc (hyphens_of cs) else hyphens_of cs

-- the hyphens of a text
unfoldable pub hyphens : String → ℕ
hyphens s = hyphens_of (codes s)

abbrev suffix : List ℕ
suffix = 46 ∷ md

same_codes_refl : (cs : List ℕ) → same_codes cs cs ≡ true
unfolding same_codes
same_codes_refl [] = refl
same_codes_refl (c ∷ cs) = ground (arith, same_codes_refl cs)

-- how many hyphens may still come
abbrev left : Bool → ℕ
left true = 1
left false = 0

name_tail-suffix :
    (hyphen fresh : Bool) (cs : List ℕ)
    → topic_tail fresh cs ≡ true
    → name_tail hyphen fresh (cs ++ suffix) ≡ leb (hyphens_of cs) (left hyphen)
unfolding topic_tail name_tail is_lower is_digit
name_tail-suffix hyphen fresh [] h = ground (arith, same_codes_refl md)
name_tail-suffix true fresh (c ∷ cs) h =
    ground (arith, name_tail-suffix true false cs, name_tail-suffix false true cs)
name_tail-suffix false fresh (c ∷ cs) h = ground (arith, name_tail-suffix false false cs)

pub not_index :
    (s : String) → is_topic_from (codes s) ≡ true → str_eq (topic_file s) index_name ≡ false
unfolding topic_file is_topic_from is_lower codes
not_index s h = elim (Bool-cases (str_eq (topic_file s) index_name)) [
  | inr other ↦ other
  | inl same ↦
      let whole : codes s ++ suffix ≡ codes index_name =
        sym (codes-append s ".md") ∙ ap codes ((eq_iff (topic_file s) index_name).0 same) in
      absurd_head (codes s) h whole
]
  where
    absurd_head :
        (cs : List ℕ)
        → is_topic_from cs ≡ true
        → cs ++ suffix ≡ codes index_name
        → str_eq (topic_file s) index_name ≡ false
    absurd_head [] t e = cc
    absurd_head (c ∷ cs) t e = ground arith

-- The topic pattern lets any number of hyphens through, the file pattern one: the file of a valid
-- topic has a name that the applier accepts exactly if the topic has at most one hyphen.
pub topic_file-accepted :
    (topic : String)
    → is_topic topic ≡ true
    → is_memory_name (topic_file topic) ≡ leb (hyphens topic) 1
unfolding is_memory_name topic_file is_topic_from is_name_from hyphens is_lower codes
topic_file-accepted topic h = rw (not_index topic h, codes-append topic ".md") (go (codes topic) h)
  where
    go :
        (cs : List ℕ)
        → is_topic_from cs ≡ true
        → is_name_from (cs ++ suffix) ≡ leb (hyphens_of cs) 1
    go [] t = cc
    go (c ∷ cs) t = ground (arith, name_tail-suffix true false cs)
