-- ===== src/Usage/Tests.antt =====
-- The theorems on the watcher at concrete inputs.
use claude_code_telegram_kit.Prelude.{
  ℕ, ◌≤◌, none, some, true, ◌≡◌, refl, List, [], ◌∷◌, arith, length, all,
}
use claude_code_telegram_kit.Prelude.JsSet
use claude_code_telegram_kit.Usage.Lines.{
  accept, cut, keep_rest, ends_line, read_appended, read_all,
}
use claude_code_telegram_kit.Usage.Lines.Chunks.{
  joined, complete_lines, fitting, reader_at, read_all_lem,
}
use claude_code_telegram_kit.Usage.Claims.{claim_all, claim_all_lem}
use claude_code_telegram_kit.Usage.Quota.{
  five_hour, ActiveQuotaState, RuntimeFailureRow, other, QueuedEvent, TranscriptLine, Watch,
  on_lines,
}
use claude_code_telegram_kit.Usage.Quota.Notices.{noticed, is_ahead, on_lines_lem}

-- a line of two bytes that comes in two readings, and the start of another
abbrev chunks : List (List ℕ)
chunks = (97 ∷ []) ∷ (98 ∷ 10 ∷ 99 ∷ []) ∷ []

read_all_lem_example :
    (read_all (reader_at 7) chunks).1 ≡ fitting (complete_lines [] (joined chunks))
read_all_lem_example = read_all_lem 7 chunks (omega arith, (omega arith, tt))

two_readings : (read_all (reader_at 7) chunks).1 ≡ (97 ∷ 98 ∷ []) ∷ []
unfolding read_all read_appended cut accept keep_rest ends_line
two_readings = refl

claim_all_lem_example :
    JsSet.IsDistinct (claim_all 2 ("a" ∷ "b" ∷ "a" ∷ []) []).1
    × (length (claim_all 2 ("a" ∷ "b" ∷ "a" ∷ []) []).0 ≤ 2)
claim_all_lem_example = claim_all_lem 2 ("a" ∷ "b" ∷ "a" ∷ [])

abbrev limit_row : RuntimeFailureRow
limit_row = record { error = "rate_limit"; resets_at = some 900; quota_window = some five_hour }

abbrev hello : QueuedEvent
hello = record { chat_id = "42"; message_id = "7"; kind = other }

abbrev limit_line : TranscriptLine
limit_line = record { now = 1000; failure = some limit_row; event = none }

abbrev hello_line : TranscriptLine
hello_line = record { now = 2000; failure = none; event = some hello }

abbrev idle : Watch
idle = record { quota = none; claims = [] }

on_lines_lem_example :
    (all is_ahead (on_lines true idle (limit_line ∷ hello_line ∷ [])).1 ≡ true)
    × JsSet.IsDistinct (noticed (on_lines true idle (limit_line ∷ hello_line ∷ [])).1)
on_lines_lem_example = on_lines_lem true idle (limit_line ∷ hello_line ∷ [])

abbrev unlabelled : ActiveQuotaState
unlabelled = record { resets_at = 900; window = none }

abbrev labelled : ActiveQuotaState
labelled = record { resets_at = 900; window = some five_hour }
