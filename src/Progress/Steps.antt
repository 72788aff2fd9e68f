-- ===== src/Progress/Steps.antt =====
-- The fixed presentation of a tool (packages/telegram-renderer-mcp/src/progress-labels.ts) and the
-- step that is shown (progress-preview.ts, `ProgressStep`).
pub mod Labels
use text.Mathlib.Text.{starts_with}
use claude_code_telegram_kit.Prelude.{
  String, Option, none, some, Bool, true, false, ◌&&◌, List, [], ◌∷◌, str_eq, any, if◌then◌else◌,
  ◌<>◌,
}
use claude_code_telegram_kit.Prelude.JsMap
use claude_code_telegram_kit.Prelude.JsMap.{JsMap}

pub data StepPresentationKind : Type 0 where
  inline command : StepPresentationKind

-- The two connectors " " and " for ".
pub data Connector : Type 0 where
  space for : Connector

-- SAFE_STEP_LABELS; a label is one of these texts.
abbrev pub safe_step_labels : List String
safe_step_labels =
    "Reading" ∷ "Reading notebook" ∷ "Finding files" ∷ "Searching code" ∷ "Editing" ∷ "Writing"
    ∷ "Editing files" ∷ "Editing notebook" ∷ "terminal" ∷ "Reading command output"
    ∷ "Stopping command" ∷ "Reading web page" ∷ "Searching web" ∷ "Updating plan"
    ∷ "Finishing planning" ∷ "Reading skill" ∷ "Delegating" ∷ "Finding tool" ∷ "Creating artifact"
    ∷ "Using integration" ∷ "Working" ∷ []

pub record SafeStepPresentation : Type 0 where
  pub emoji : String
  pub label : String
  pub kind : StepPresentationKind
  pub connector : Connector

-- `ProgressStep`: a presentation with an optional preview.
pub record ProgressStep : Type 0 where
  pub emoji : String
  pub label : String
  pub kind : StepPresentationKind
  pub connector : Connector
  pub preview : Option String

abbrev inline_step : String → String → Connector → SafeStepPresentation
inline_step emoji label connector = record {
  emoji = emoji;
  label = label;
  kind = inline;
  connector = connector;
}

abbrev sidecar_servers : List String
sidecar_servers = "telegram-renderer" ∷ "session-control" ∷ []

abbrev pub tool_presentations : JsMap SafeStepPresentation
tool_presentations =
    ("Read", inline_step "📖" "Reading" space)
    ∷ ("NotebookRead", inline_step "📓" "Reading notebook" space)
    ∷ ("Glob", inline_step "🗂\u{fe0f}" "Finding files" space)
    ∷ ("Grep", inline_step "🔎" "Searching code" for)
    ∷ ("Edit", inline_step "🔧" "Editing" space)
    ∷ ("Write", inline_step "✍\u{fe0f}" "Writing" space)
    ∷ ("MultiEdit", inline_step "🔧" "Editing files" space)
    ∷ ("NotebookEdit", inline_step "🔧" "Editing notebook" space)
    ∷ ("Bash", record { emoji = "💻"; label = "terminal"; kind = command; connector = space })
    ∷ ("BashOutput", inline_step "🖥\u{fe0f}" "Reading command output" space)
    ∷ ("KillShell", inline_step "🛑" "Stopping command" space)
    ∷ ("KillBash", inline_step "🛑" "Stopping command" space)
    ∷ ("WebFetch", inline_step "🌐" "Reading web page" space)
    ∷ ("WebSearch", inline_step "🔍" "Searching web" for)
    ∷ ("TodoWrite", inline_step "📋" "Updating plan" space)
    ∷ ("ExitPlanMode", inline_step "✅" "Finishing planning" space)
    ∷ ("Skill", inline_step "📚" "Reading skill" space)
    ∷ ("Task", inline_step "👥" "Delegating" space)
    ∷ ("Agent", inline_step "👥" "Delegating" space)
    ∷ ("ToolSearch", inline_step "🧰" "Finding tool" space)
    ∷ ("Artifact", inline_step "📦" "Creating artifact" space)
    ∷ []

abbrev integration_presentation : SafeStepPresentation
integration_presentation = inline_step "🔌" "Using integration" space

abbrev unknown_presentation : SafeStepPresentation
unknown_presentation = inline_step "⚙\u{fe0f}" "Working" space

unfoldable pub is_internal_sidecar_tool : String → Bool
is_internal_sidecar_tool tool_name =
    any (λ server. starts_with tool_name ("mcp__" <> server <> "__")) sidecar_servers

-- what follows the lookup in the table of known tools
unfoldable pub presentation_or : Option SafeStepPresentation → String → SafeStepPresentation
presentation_or (some known) tool_name = known
presentation_or none tool_name =
    if starts_with tool_name "mcp__" then integration_presentation else unknown_presentation

-- The source's second argument, the agent's id, is not read.
unfoldable pub safe_step_presentation : String → Option SafeStepPresentation
safe_step_presentation tool_name =
    if is_internal_sidecar_tool tool_name
    then none
    else some (presentation_or (JsMap.get tool_presentations tool_name) tool_name)

same_kind : StepPresentationKind → StepPresentationKind → Bool
same_kind inline inline = true
same_kind command command = true
same_kind _ _ = false

same_connector : Connector → Connector → Bool
same_connector space space = true
same_connector for for = true
same_connector _ _ = false

same_preview : Option String → Option String → Bool
same_preview none none = true
same_preview (some a) (some b) = str_eq a b
same_preview _ _ = false

-- progress-state.ts, `sameStep`
unfoldable pub same_step : ProgressStep → ProgressStep → Bool
unfolding same_kind same_connector same_preview
same_step left right =
    str_eq left.emoji right.emoji
    && str_eq left.label right.label
    && same_kind left.kind right.kind
    && same_connector left.connector right.connector
    && same_preview left.preview right.preview

abbrev pub connector_text : Connector → String
connector_text space = " "
connector_text for = " for "
