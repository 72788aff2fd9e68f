-- ===== src/Disclosure/Turns/Eviction.antt =====
-- How many turns are left after an eviction, and which.
use claude_code_telegram_kit.Prelude.{
  ℕ, zero, suc, ◌≤◌, ◌<◌, Bool, true, false, ◌≡◌, refl, inl, inr, [], ◌∷◌, arith, Bool-cases,
}
use claude_code_telegram_kit.Prelude.JsMap.{JsMap}
use claude_code_telegram_kit.Disclosure.Turns.{
  max_retained_turns, max_active_background_turns, Turn, is_active_background, is_inactive,
  evict_oldest, count, evict_down, evict_to, evict,
}

module _ (fits : Turn → Bool) where
  count-evict_oldest :
      (turns : JsMap Turn)
      → 0 < count fits turns
      → suc (count fits (evict_oldest fits turns)) ≡ count fits turns
  unfolding count evict_oldest
  count-evict_oldest [] h = omega arith
  count-evict_oldest ((key, t) ∷ turns) h = elim (Bool-cases (fits t)) [
    | inl goes ↦ rw goes refl
    | inr stays ↦ ground (arith, count-evict_oldest turns)
  ]

  -- An eviction of turns that fit leaves those of another kind.
  count-evict_oldest_other :
      (other : Turn → Bool) (turns : JsMap Turn)
      → ((t : Turn) → fits t ≡ true → other t ≡ false)
      → count other (evict_oldest fits turns) ≡ count other turns
  unfolding count evict_oldest
  count-evict_oldest_other other [] apart = refl
  count-evict_oldest_other other ((key, t) ∷ turns) apart =
      ground (arith, apart t, count-evict_oldest_other other turns apart)

  count-evict_down :
      (limit fuel : ℕ) (turns : JsMap Turn)
      → count fits turns ≤ fuel
      → count fits (evict_down fits limit fuel turns) ≤ limit
  unfolding evict_down
  count-evict_down limit zero turns h = omega (arith, h)
  count-evict_down limit (suc fuel) turns h =
      ground
        (arith, count-evict_oldest turns, count-evict_down limit fuel (evict_oldest fits turns))

  count-evict_down_other :
      (other : Turn → Bool) (limit fuel : ℕ) (turns : JsMap Turn)
      → ((t : Turn) → fits t ≡ true → other t ≡ false)
      → count other (evict_down fits limit fuel turns) ≡ count other turns
  unfolding evict_down
  count-evict_down_other other limit zero turns apart = refl
  count-evict_down_other other limit (suc fuel) turns apart = ground (
    arith,
    count-evict_oldest_other other turns apart,
    count-evict_down_other other limit fuel (evict_oldest fits turns) apart,
  )

-- After an eviction at most 16 turns with active background work and at most 32 others are held.
pub evict_lem :
    (turns : JsMap Turn)
    → (count is_active_background (evict turns) ≤ max_active_background_turns)
      × (count is_inactive (evict turns) ≤ max_retained_turns)
unfolding evict evict_to
evict_lem turns =
    let first = evict_to is_active_background max_active_background_turns turns in
    (
      rw
          (count-evict_down_other is_inactive is_active_background max_retained_turns
            (count is_inactive first) first (λ t h. ground arith))
          (count-evict_down is_active_background max_active_background_turns
            (count is_active_background turns) turns (omega arith)),
      count-evict_down is_inactive max_retained_turns (count is_inactive first) first (omega arith),
    )
