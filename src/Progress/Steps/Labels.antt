-- ===== src/Progress/Steps/Labels.antt =====
-- Only texts of the allowlist are shown for a tool.
use claude_code_telegram_kit.Prelude.{
  String, Option, none, some, true, false, ◌≡◌, ◌⊎◌, refl, inl, inr, [], ◌∷◌, arith, str_eq,
  Bool-cases, All,
}
use claude_code_telegram_kit.Prelude.JsMap
use claude_code_telegram_kit.Prelude.JsMap.{JsMap}
use claude_code_telegram_kit.Prelude.JsSet
use claude_code_telegram_kit.Progress.Steps.{
  presentation_or, safe_step_labels, SafeStepPresentation, tool_presentations,
  is_internal_sidecar_tool, safe_step_presentation,
}
use text.Mathlib.Text.{starts_with}

abbrev IsSafe : SafeStepPresentation → Type 0
IsSafe s = JsSet.has safe_step_labels s.label ≡ true

get-All :
    (m : JsMap SafeStepPresentation) (k : String) {s : SafeStepPresentation}
    → All (λ e. IsSafe e.1) m
    → JsMap.get m k ≡ some s
    → IsSafe s
unfolding JsMap.get
get-All [] k h e = cc
get-All ((j, v) ∷ m) k {s} h e = elim (Bool-cases (str_eq j k)) [
  | inl hit ↦ ground arith
  | inr other ↦ get-All m k h.1 (rw other at e)
]

presentations-All : All (λ e. IsSafe e.1) tool_presentations
unfolding JsSet.has
presentations-All = ground arith

presentation_or-IsSafe :
    (known : Option SafeStepPresentation) (tool_name : String)
    → ((s : SafeStepPresentation) → known ≡ some s → IsSafe s)
    → IsSafe (presentation_or known tool_name)
unfolding presentation_or JsSet.has
presentation_or-IsSafe (some s) tool_name h = h s refl
presentation_or-IsSafe none tool_name h = elim (Bool-cases (starts_with tool_name "mcp__")) [
  | inl integration ↦ rw integration refl
  | inr unknown ↦ rw unknown refl
]

-- A tool of the kit's own sidecars has no presentation. Every other tool, whatever its name, has
-- one, and its label is one of the texts of the allowlist.
pub safe_step_presentation_cases :
    (tool_name : String)
    → ((is_internal_sidecar_tool tool_name ≡ true) × (safe_step_presentation tool_name ≡ none))
      ⊎ ((s : SafeStepPresentation) × (is_internal_sidecar_tool tool_name ≡ false)
          × (safe_step_presentation tool_name ≡ some s)
          × (JsSet.has safe_step_labels s.label ≡ true))
unfolding safe_step_presentation
safe_step_presentation_cases tool_name = elim (Bool-cases (is_internal_sidecar_tool tool_name)) [
  | inl internal ↦ inl (internal, rw internal refl)
  | inr other ↦ inr (
    presentation_or (JsMap.get tool_presentations tool_name) tool_name,
    other,
    rw other refl,
    presentation_or-IsSafe (JsMap.get tool_presentations tool_name) tool_name
        (λ s e. get-All tool_presentations tool_name presentations-All e),
  )
]
