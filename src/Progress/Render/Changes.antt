-- ===== src/Progress/Render/Changes.antt =====
-- What the text of the bubble shows, and which events leave it as it is.
use claude_code_telegram_kit.Prelude.{
  ℕ, ◌+◌, ◌-◌, ◌≤◌, ◌<◌, ◌^◌, String, some, true, ◌≡◌, refl, inl, inr, List, [], ◌∷◌, map,
  append-nil, arith, Bool-cases, Option-cases, length, length-map, any, utf16_length, joined_length,
  join_lines,
}
use claude_code_telegram_kit.Prelude.JsMap
use claude_code_telegram_kit.Prelude.JsMap.{JsMap}
use claude_code_telegram_kit.Progress.Turn.{
  TurnProgress, StepLine, StepStatus, running, done, has_steps, closed, record_status,
  record_success, set_status,
}
use claude_code_telegram_kit.Progress.Turn.Lifecycle.{length-set_status}
use claude_code_telegram_kit.Progress.Render.Bounds.{footer_length_bound}
use claude_code_telegram_kit.Progress.Render.{
  max_progress_characters, footer_lines, visible_from, header_text, render, render_step, is_failed,
}

any_failed-put_done :
    (m : JsMap StepStatus) (id : String)
    → JsMap.get m id ≡ some running
    → any is_failed (JsMap.values (JsMap.put m id done)) ≡ any is_failed (JsMap.values m)
unfolding JsMap.get JsMap.put JsMap.values is_failed
any_failed-put_done [] id h = cc
any_failed-put_done ((k, s) ∷ m) id h = ground (arith, any_failed-put_done m id)

length-values-put_done :
    (m : JsMap StepStatus) (id : String)
    → JsMap.get m id ≡ some running
    → length (JsMap.values (JsMap.put m id done)) ≡ length (JsMap.values m)
unfolding JsMap.get JsMap.put JsMap.values
length-values-put_done [] id h = cc
length-values-put_done ((k, s) ∷ m) id h = ground (arith, length-values-put_done m id)

render_step-put_done :
    (l : StepLine) (id : String)
    → JsMap.get l.tool_statuses id ≡ some running
    → render_step (record l { tool_statuses = JsMap.put l.tool_statuses id done }) ≡ render_step l
unfolding render_step
render_step-put_done l id h =
    rw (any_failed-put_done l.tool_statuses id h, length-values-put_done l.tool_statuses id h)

visible_from-set_done :
    (used : ℕ) (ls : List StepLine) (id : String) {ls' : List StepLine}
    → set_status ls id done ≡ some ls'
    → visible_from used ls' ≡ visible_from used ls
unfolding visible_from set_status
visible_from-set_done used [] id h = cc
visible_from-set_done used (l ∷ ls) id h = elim (Option-cases (set_status ls id done)) [
  | inl missing ↦ ground (arith, render_step-put_done l id)
  | inr (rest, found) ↦ ground (
    arith,
    render_step-put_done l id,
    length-set_status ls id done {ls' = rest} found,
    visible_from-set_done (used + (1 + utf16_length (render_step l))) ls id {ls' = rest} found,
  )
]

render-set_done :
    (p : TurnProgress) (id : String) (n : ℕ) {ls : List StepLine}
    → set_status p.lines id done ≡ some ls
    → render (record p { lines = ls; generation = n }) ≡ render p
unfolding render
render-set_done p id n {ls} h = rw (
  length-set_status p.lines id done {ls' = ls} h,
  visible_from-set_done (utf16_length (header_text p.verbs p.outcome)) p.lines id {ls' = ls} h,
)

-- A recorded success leaves the text of the bubble as it was; if it is accepted, the generation
-- advances all the same.
pub render-record_success :
    (p : TurnProgress) (id : String)
    → (render (record_success p id).0 ≡ render p)
      × ((record_success p id).1 ≡ true → (record_success p id).0.generation ≡ p.generation + 1)
unfolding record_success record_status
render-record_success p id = elim (Bool-cases (closed p)) [
  | inl refused ↦ rw refused (refl, λ h. cc)
  | inr taken ↦ elim (Option-cases (set_status p.lines id done)) [
    | inl missing ↦ rw (taken, missing) (refl, λ h. cc)
    | inr (ls, found) ↦
        rw (taken, found) (render-set_done p id (p.generation + 1) {ls = ls} found, λ h. refl)
  ]
]

visible_from-all :
    (used : ℕ) (ls : List StepLine)
    → length ls < 10 ^ 10
    → used + joined_length (map render_step ls) + 25 ≤ max_progress_characters
    → visible_from used ls ≡ map render_step ls
unfolding visible_from
visible_from-all used [] n h = refl
visible_from-all used (l ∷ ls) n h =
    let used' = used + (1 + utf16_length (render_step l)) in
    ground (
      arith,
      footer_length_bound (length ls) (omega arith),
      visible_from-all used' ls (omega arith) (omega arith),
    )

-- If the header and all steps leave room for a footer of 25 units within the limit, and the steps
-- are fewer than 10^10, then every step is shown, each below the header, and no footer.
pub render_shows_all :
    (p : TurnProgress)
    → has_steps p ≡ true
    → length p.lines < 10 ^ 10
    → utf16_length (header_text p.verbs p.outcome) + joined_length (map render_step p.lines) + 25
      ≤ max_progress_characters
    → render p ≡ join_lines (header_text p.verbs p.outcome ∷ map render_step p.lines)
unfolding render footer_lines
render_shows_all p h n fits =
    let shown = visible_from-all (utf16_length (header_text p.verbs p.outcome)) p.lines n fits in
    let none_left : length p.lines - length (map render_step p.lines) ≡ 0 =
      omega (arith, length-map render_step p.lines) in
    rw (h, shown, none_left, append-nil)
