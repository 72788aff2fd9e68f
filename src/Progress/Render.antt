-- ===== src/Progress/Render.antt =====
-- packages/telegram-renderer-mcp/src/progress-state.ts: the text of the bubble, `renderStep` and
-- `TurnProgress.render`.
pub mod Bounds
pub mod Changes
use claude_code_telegram_kit.Prelude.{
  ℕ, ◌+◌, ◌-◌, String, Option, none, some, Bool, true, false, List, [], ◌∷◌, ◌++◌, str_eq, any,
  if◌then◌else◌, ltb, ◌<>◌, utf16_length, join_lines, decimal, length,
}
use claude_code_telegram_kit.Prelude.JsMap
use claude_code_telegram_kit.Prelude.JsMap.{JsMap}
use claude_code_telegram_kit.Progress.Steps.{ProgressStep, inline, command, connector_text}
use claude_code_telegram_kit.Progress.Verbs.{TurnVerbPair}
use claude_code_telegram_kit.Progress.Turn.{
  TurnProgress, StepLine, StepStatus, failed, TurnOutcome, stop, stop_failure, has_steps,
}

abbrev pub max_progress_characters : ℕ
max_progress_characters = 4096

unfoldable pub is_failed : StepStatus → Bool
is_failed failed = true
is_failed _ = false

-- `!line.step.preview`
unfoldable pub preview_or_empty : Option String → String
preview_or_empty none = ""
preview_or_empty (some preview) = preview

-- the three shapes of a rendered step
unfoldable pub step_text : ProgressStep → String → String → String
unfolding preview_or_empty
step_text step prefix count =
    let head = prefix <> step.emoji <> " " <> step.label <> count in
    let preview = preview_or_empty step.preview in
    if str_eq preview "" then head else elim step.kind [
      | command ↦ head <> "\n```shell\n" <> preview <> "\n```"
      | inline ↦
          prefix
          <> step.emoji
          <> " "
          <> step.label
          <> connector_text step.connector
          <> preview
          <> count
    ]

unfoldable pub render_step : StepLine → String
render_step line =
    let statuses = JsMap.values line.tool_statuses in
    step_text line.step (if any is_failed statuses then "❌ " else "")
      (if ltb 1 (length statuses) then " ×" <> decimal (length statuses) else "")

unfoldable pub more_steps : ℕ → String
more_steps n = "… +" <> decimal n <> " more steps"

unfoldable pub header_text : TurnVerbPair → Option TurnOutcome → String
header_text verbs none = verbs.active
header_text verbs (some stop) = verbs.complete
header_text verbs (some stop_failure) = "Failed"

-- the length that the footer adds, with its newline; the footer is empty where no line remains
unfoldable pub footer_length : ℕ → ℕ
footer_length remaining = if ltb 0 remaining then 1 + utf16_length (more_steps remaining) else 0

-- the loop of `render`; a line that does not fit ends it
unfoldable pub visible_from : ℕ → List StepLine → List String
visible_from used [] = []
visible_from used (l ∷ lines) =
    let line = render_step l in
    let rest = visible_from (used + (1 + utf16_length line)) lines in
    if ltb max_progress_characters (used + 1 + utf16_length line + footer_length (length lines))
    then []
    else line ∷ rest

unfoldable pub footer_lines : ℕ → List String
footer_lines overflow = if ltb 0 overflow then more_steps overflow ∷ [] else []

unfoldable pub render : TurnProgress → String
render p =
    if has_steps p
    then (let header = header_text p.verbs p.outcome in
        let visible = visible_from (utf16_length header) p.lines in
        join_lines (header ∷ visible ++ footer_lines (length p.lines - length visible)))
    else ""
