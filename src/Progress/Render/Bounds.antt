-- ===== src/Progress/Render/Bounds.antt =====
-- The text of the bubble stays within Telegram's limit.
use claude_code_telegram_kit.Prelude.{
  ℕ, suc, ◌+◌, ◌-◌, ◌^◌, ◌≤◌, ◌<◌, Option, none, some, Bool, ◌≡◌, ap, inl, inr, List, [], ◌∷◌,
  arith, ltb, Bool-cases, length, utf16_length, utf16_length-append, utf16_length-join_lines,
  utf16_length-decimal, joined_length, joined_length-append, decimal,
}
use claude_code_telegram_kit.Progress.Verbs.{TurnVerbPair}
use claude_code_telegram_kit.Progress.Verbs.Choice.{select_turn_verb_pair-IsShort}
use claude_code_telegram_kit.Progress.Turn.Lifecycle.{length-run, verbs-run}
use claude_code_telegram_kit.Progress.Turn.{
  TurnProgress, StepLine, TurnOutcome, stop, stop_failure, has_steps, TurnEvent, run, start,
  TurnKey,
}
use claude_code_telegram_kit.Progress.Render.{
  max_progress_characters, more_steps, footer_length, footer_lines, visible_from, header_text,
  render, render_step,
}

utf16_length-more_steps : (n : ℕ) → n < 10 ^ 10 → utf16_length (more_steps n) ≤ 24
unfolding more_steps
utf16_length-more_steps n h = rw (utf16_length-append "… +" _) (
    rw (utf16_length-append (decimal n) " more steps")
      (unfold utf16_length in omega (arith, utf16_length-decimal 9 n h)))

pub footer_length_bound : (n : ℕ) → n < 10 ^ 10 → footer_length n ≤ 25
unfolding footer_length
footer_length_bound n h = ground (arith, utf16_length-more_steps n h)

footer_length-eq : (n : ℕ) → joined_length (footer_lines n) ≡ footer_length n
unfolding footer_length footer_lines
footer_length-eq n = ground arith

same_footer : (m n : ℕ) → m ≡ n → footer_length m ≡ footer_length n
same_footer m n e = ap footer_length e

-- the test that ends the loop
abbrev cut_before : ℕ → StepLine → List StepLine → Bool
cut_before used l ls =
    ltb max_progress_characters
      (used + 1 + utf16_length (render_step l) + footer_length (length ls))

-- The lines that are shown and the footer that counts the others fit, if the footer for all does.
visible_from_fits :
    (used : ℕ) (ls : List StepLine)
    → used + footer_length (length ls) ≤ max_progress_characters
    → used
        + joined_length (visible_from used ls)
        + footer_length (length ls - length (visible_from used ls))
      ≤ max_progress_characters
unfolding visible_from
visible_from_fits used [] h = omega arith
visible_from_fits used (l ∷ ls) h = elim (Bool-cases (cut_before used l ls)) [
  | inl over ↦
      rw over (omega (arith, same_footer (suc (length ls) - 0) (suc (length ls)) (omega arith)))
  | inr fits ↦
      let used' = used + (1 + utf16_length (render_step l)) in
      rw fits (
        omega (
          arith,
          visible_from_fits used' ls (ground arith),
          same_footer (suc (length ls) - suc (length (visible_from used' ls)))
              (length ls - length (visible_from used' ls)) (omega arith),
        ))
]

length-header_text :
    (v : TurnVerbPair) (o : Option TurnOutcome)
    → utf16_length v.active ≤ 4000
    → utf16_length v.complete ≤ 4000
    → utf16_length (header_text v o) ≤ 4000
unfolding header_text utf16_length
length-header_text v none a c = a
length-header_text v (some stop) a c = c
length-header_text v (some stop_failure) a c = omega arith

-- With verbs of at most 4000 UTF-16 units, and fewer than 10^10 lines, the text of the bubble never passes
-- Telegram's 4096.
utf16_length-render_of_short :
    (p : TurnProgress)
    → utf16_length p.verbs.active ≤ 4000
    → utf16_length p.verbs.complete ≤ 4000
    → length p.lines < 10 ^ 10
    → utf16_length (render p) ≤ max_progress_characters
unfolding render
utf16_length-render_of_short p a c n = elim (Bool-cases (has_steps p)) [
  | inl some_steps ↦ rw some_steps (
      rw
        (
          utf16_length-join_lines (header_text p.verbs p.outcome) _,
          joined_length-append _ _,
          footer_length-eq _,
        )
        (omega (
          arith,
          visible_from_fits (utf16_length (header_text p.verbs p.outcome)) p.lines (
              omega (
                arith,
                length-header_text p.verbs p.outcome a c,
                footer_length_bound (length p.lines) n,
              )),
        )))
  | inr empty ↦ rw empty (unfold utf16_length in omega arith)
]

-- Whatever fewer than 10^10 events a turn has seen, the text of its bubble has at most the 4096
-- UTF-16 units that Telegram accepts.
pub utf16_length-render :
    (key : TurnKey) (es : List TurnEvent)
    → length es < 10 ^ 10
    → utf16_length (render (run (start key) es)) ≤ max_progress_characters
unfolding start
utf16_length-render key es h =
    let (active, complete) = select_turn_verb_pair-IsShort key.session_id key.prompt_id in
    utf16_length-render_of_short (run (start key) es) (rw (verbs-run (start key) es) active)
      (rw (verbs-run (start key) es) complete) (omega (arith, length-run (start key) es))
