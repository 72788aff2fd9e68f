-- ===== src/Heartbeat/Tests.antt =====
-- The theorems on heartbeats at concrete inputs.
use claude_code_telegram_kit.Prelude.{
  ℕ, zero, suc, ◌+◌, ◌-◌, ◌*◌, ◌/◌, ◌%◌, ◌^◌, ◌≤◌, ◌<◌, String, Option, none, some, Bool, true,
  false, not, ◌&&◌, ◌||◌, ◌≡◌, ◌≢◌, ◌⊎◌, ◌↔◌, refl, sym, ap, ◌∙◌, inl, inr, List, [], ◌∷◌, ◌++◌,
  map, append-nil, append_assoc, arith, str_eq, eq_iff, eq_refl, if◌then◌else◌, ltb, leb, ◌==◌,
  Bool-cases, Option-cases, length, length-append, length-map, is_some, any, all, All, get_elem?,
  utf16_length, utf16_length-append, utf16_length-join_lines, utf16_length-decimal, joined_length,
  joined_length-append, join_lines, decimal, ◌<>◌, max, min,
}
use claude_code_telegram_kit.Heartbeat.{
  Manager, TypingOutcome, sent, transient, end_beat, stop, start,
}
use claude_code_telegram_kit.Heartbeat.Current.{starts, answers, begun, more, Reachable, is_busy}
use claude_code_telegram_kit.Heartbeat.Runs.{empty, busy_once, end_beat_over}

-- a chat starts, starts again, and the send of its new heartbeat is answered
abbrev first : Manager
first = start empty "42" 0

abbrev second : Manager
second = start first "42" 1000

abbrev third : Manager
third = end_beat second 1 sent 1500 true

first_two : Reachable empty second
first_two = more first _ (more empty _ begun (starts empty "42" 0)) (starts first "42" 1000)

runs_test :
    (is_busy (third.heap 1) ≡ true)
    × (is_busy (third.heap 0) ≡ false)
    × (third.next ≡ 2)
    × ((third.heap 1).timer ≡ some 2000)
    × (second.next ≡ 2)
    × ((second.heap 1).started_at ≡ 1000)
    × ((second.heap 1).timer ≡ none)
    × ((third.heap 0).chat_id ≡ (third.heap 1).chat_id)
unfolding claude_code_telegram_kit.Prelude.JsMap.get claude_code_telegram_kit.Prelude.JsMap.put
    claude_code_telegram_kit.Prelude.JsMap.delete claude_code_telegram_kit.Heartbeat.set
    claude_code_telegram_kit.Heartbeat.is_current claude_code_telegram_kit.Heartbeat.stop_heartbeat
    claude_code_telegram_kit.Heartbeat.schedule_next claude_code_telegram_kit.Heartbeat.begin_beat
    claude_code_telegram_kit.Heartbeat.answered claude_code_telegram_kit.Heartbeat.end_beat
    claude_code_telegram_kit.Heartbeat.fire claude_code_telegram_kit.Heartbeat.stop_found
    claude_code_telegram_kit.Heartbeat.fresh claude_code_telegram_kit.Heartbeat.start empty
runs_test = (refl, refl, refl, refl, refl, refl, refl, refl)

third_reached : Reachable empty third
third_reached =
    more second _ first_two (answers second 1 sent 1500 true (rw (runs_test.4) (omega arith)))

busy_once_example : is_busy (third.heap 0) ≡ false
busy_once_example =
    busy_once third 1 0 third_reached (runs_test.0) (runs_test.7) (λ e. ground arith)

end_beat_over_example : is_busy ((end_beat second 1 transient 700000 true).heap 1) ≡ false
end_beat_over_example =
    end_beat_over second 1 transient 700000 true (rw (runs_test.5) (omega arith)) (runs_test.6)
