-- ===== src/Progress/AgentsText/Limit.antt =====
-- How long the text of the background bubble can become.
use claude_code_telegram_kit.Prelude.{
  ℕ, suc, ◌+◌, ◌^◌, ◌≤◌, ◌<◌, String, true, false, ◌≡◌, refl, ap, inl, inr, List, [], ◌∷◌, ◌++◌,
  arith, ltb, lt→ltb, Bool-cases, length, length-append, utf16_length, utf16_length-append,
  utf16_length-join_lines, utf16_length-decimal, joined_length, joined_length-append, join_lines,
  decimal, ◌<>◌,
}
use claude_code_telegram_kit.Prelude.JsMap
use claude_code_telegram_kit.Prelude.JsMap.{JsMap}
use claude_code_telegram_kit.Progress.Render.{max_progress_characters}
use claude_code_telegram_kit.Progress.Background.{
  AgentState, BackgroundProgress, empty, has_agents, has_pending_tasks, AgentEvent, run,
}
use claude_code_telegram_kit.Progress.Background.Invariant.{run-empty-IsBounded}
use claude_code_telegram_kit.Progress.AgentsText.{
  additions, count_running, has_status, is_failed, is_stopped, terminal_header, header_text,
  more_agents, add_agents, render,
}

-- the length of a text of lines
abbrev joined : List String → ℕ
joined lines = utf16_length (join_lines lines)

joined-append :
    (x : String) (r ys : List String) → joined (x ∷ r ++ ys) ≡ joined (x ∷ r) + joined_length ys
joined-append x r ys =
    rw (utf16_length-join_lines x (r ++ ys), utf16_length-join_lines x r, joined_length-append r ys)
      (omega arith)

joined-one : (x : String) → joined (x ∷ []) ≡ utf16_length x
unfolding join_lines
joined-one x = refl

joined-more_agents :
    (x : String) (r : List String) → joined (x ∷ r ++ more_agents ∷ []) ≡ joined (x ∷ r) + 14
joined-more_agents x r = rw (joined-append x r (more_agents ∷ [])) (unfold utf16_length in refl)

add_agents_bound :
    (x : String) (r : List String) (agents : List AgentState)
    → joined (x ∷ r) ≤ max_progress_characters
    → joined (add_agents (x ∷ r) agents) ≤ max_progress_characters + 14
unfolding add_agents
add_agents_bound x r [] h = omega arith
add_agents_bound x r (agent ∷ agents) h =
    elim (Bool-cases (ltb max_progress_characters (joined (x ∷ r ++ additions agent)))) [
      | inl over ↦ rw over (omega (arith, joined-more_agents x r))
      | inr fits ↦ rw fits (add_agents_bound x (r ++ additions agent) agents (ground arith))
    ]

count_running-le : (agents : List AgentState) → count_running agents ≤ length agents
unfolding count_running
count_running-le [] = omega arith
count_running-le (agent ∷ agents) = ground (arith, count_running-le agents)

length-values : (m : JsMap AgentState) → length (JsMap.values m) ≡ length m
unfolding JsMap.values
length-values [] = refl
length-values ((k, v) ∷ m) = ap suc (length-values m)

length-active_header :
    (n : ℕ)
    → n < 10 ^ 10
    → utf16_length ("Background work · " <> decimal n <> " running…") ≤ max_progress_characters
length-active_header n h =
    rw (utf16_length-append "Background work · " _, utf16_length-append (decimal n) " running…")
      (unfold utf16_length in omega (arith, utf16_length-decimal 9 n h))

length-terminal_header :
    (agents : List AgentState) → utf16_length (terminal_header agents) ≤ max_progress_characters
unfolding terminal_header
length-terminal_header agents = elim (Bool-cases (has_status is_failed agents)) [
  | inl hit ↦ rw hit (unfold utf16_length in omega arith)
  | inr other ↦ elim (Bool-cases (has_status is_stopped agents)) [
    | inl hit ↦ rw (other, hit) (unfold utf16_length in omega arith)
    | inr clear ↦ rw (other, clear) (unfold utf16_length in omega arith)
  ]
]

length-header_text :
    (b : BackgroundProgress)
    → length b.agents < 10 ^ 10
    → utf16_length (header_text b) ≤ max_progress_characters
unfolding header_text
length-header_text b h = elim (Bool-cases (ltb 0 (count_running (JsMap.values b.agents)))) [
  | inl active ↦ rw active (
      length-active_header (count_running (JsMap.values b.agents))
        (omega (arith, count_running-le (JsMap.values b.agents), length-values b.agents)))
  | inr none_active ↦ elim (Bool-cases (has_pending_tasks b)) [
    | inl pending ↦ rw (none_active, pending) (unfold utf16_length in omega arith)
    | inr settled ↦ rw (none_active, settled) (length-terminal_header (JsMap.values b.agents))
  ]
]

-- Whatever the events since the turn began, the text of the background bubble passes Telegram's
-- 4096 UTF-16 units by at most 14, the length of the line that stands for the dropped agents.
pub utf16_length-render_agents :
    (es : List AgentEvent) → utf16_length (render (run empty es)) ≤ max_progress_characters + 14
unfolding render
utf16_length-render_agents es =
    let b = run empty es in
    elim (Bool-cases (has_agents b)) [
      | inl held ↦ rw held (
          add_agents_bound (header_text b) [] (JsMap.values b.agents) (
            unfold join_lines in
            length-header_text b (omega (arith, (run-empty-IsBounded es).agents_bound))))
      | inr none_held ↦ rw none_held (unfold utf16_length in omega arith)
    ]

-- the lines of the agents, all of them
unfoldable pub all_lines : List AgentState → List String
all_lines [] = []
all_lines (agent ∷ agents) = additions agent ++ all_lines agents

add_agents_cut :
    (x : String) (r : List String) (shown : List AgentState) (next : AgentState)
    (others : List AgentState)
    → joined (x ∷ r) + joined_length (all_lines shown) ≤ max_progress_characters
    → max_progress_characters
      < joined (x ∷ r) + joined_length (all_lines shown) + joined_length (additions next)
    → joined (add_agents (x ∷ r) (shown ++ next ∷ others))
      ≡ joined (x ∷ r) + joined_length (all_lines shown) + 14
unfolding add_agents all_lines
add_agents_cut x r [] next others h over =
    let cut : ltb max_progress_characters (joined (x ∷ r ++ additions next)) ≡ true =
      lt→ltb _ _ (omega (arith, joined-append x r (additions next))) in
    rw (cut, joined-more_agents x r) (omega arith)
add_agents_cut x r (s ∷ shown) next others h over =
    let split = joined_length-append (additions s) (all_lines shown) in
    let grown = joined-append x r (additions s) in
    let fits : ltb max_progress_characters (joined (x ∷ r ++ additions s)) ≡ false = ground arith in
    rw fits (
      omega
        (arith, add_agents_cut x (r ++ additions s) shown next others (omega arith) (omega arith)))

-- If the header and the lines of the first agents take 4083 to 4096 units and the next agent does
-- not fit, then the text of the background bubble is longer than Telegram's 4096 units.
pub render_passes_limit :
    (b : BackgroundProgress) (shown : List AgentState) (next : AgentState)
    (others : List AgentState)
    → JsMap.values b.agents ≡ shown ++ next ∷ others
    → utf16_length (header_text b) + joined_length (all_lines shown) ≤ max_progress_characters
    → max_progress_characters < utf16_length (header_text b) + joined_length (all_lines shown) + 14
    → max_progress_characters
      < utf16_length (header_text b)
        + joined_length (all_lines shown)
        + joined_length (additions next)
    → max_progress_characters < utf16_length (render b)
unfolding render
render_passes_limit b shown next others e h past over =
    let held : has_agents b ≡ true = lt→ltb _ _ (
      omega (
        arith,
        length-values b.agents,
        ap (length {A = AgentState}) e,
        length-append shown (next ∷ others),
      )) in
    let one = joined-one (header_text b) in
    let cut =
      add_agents_cut (header_text b) [] shown next others (omega (arith, one))
        (omega (arith, one)) in
    rw (held, e) (omega (arith, cut, one))
