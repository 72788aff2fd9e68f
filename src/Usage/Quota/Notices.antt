-- ===== src/Usage/Quota/Notices.antt =====
-- When a notice is sent, and how the quota state moves.
use claude_code_telegram_kit.Prelude.{
  ℕ, ◌+◌, ◌*◌, ◌≤◌, ◌<◌, String, Option, none, some, Bool, true, false, ◌&&◌, ◌||◌, ◌≡◌, ◌≢◌, ◌⊎◌,
  refl, ap, inl, inr, List, [], ◌∷◌, ◌++◌, arith, eq_iff, ltb, leb, Bool-cases, Option-cases,
  is_some, all, max,
}
use claude_code_telegram_kit.Prelude.JsSet
use claude_code_telegram_kit.Usage.Claims.{
  max_control_claims, claim_key, claim, has-claim, claim_granted,
}
use claude_code_telegram_kit.Usage.Quota.{
  on_command, max_quota_future_ms, ActiveQuotaState, RuntimeFailureRow, supersedes, merge,
  is_plausible, with_reset, with_failure, update_quota, CommandKind, usage, other, another,
  QueuedEvent, TranscriptLine, Call, quota_state, dispatch, send_quota_notice, Watch, quota_changed,
  notify, on_event, on_line, on_lines,
}

-- the keys of the messages that are answered by a notice
unfoldable pub noticed : List Call → List String
noticed [] = []
noticed (send_quota_notice key resets_at now ∷ calls) = key ∷ noticed calls
noticed (quota_state quota ∷ calls) = noticed calls
noticed (dispatch message_id ∷ calls) = noticed calls

-- a notice is sent for a reset that lies ahead
unfoldable pub is_ahead : Call → Bool
is_ahead (send_quota_notice key resets_at now) = ltb now (resets_at * 1000)
is_ahead _ = true

noticed-append : (a b : List Call) → noticed (a ++ b) ≡ noticed a ++ noticed b
unfolding noticed
noticed-append [] b = refl
noticed-append (send_quota_notice key resets_at now ∷ a) b = ap (λ l. key ∷ l) (noticed-append a b)
noticed-append (quota_state quota ∷ a) b = noticed-append a b
noticed-append (dispatch message_id ∷ a) b = noticed-append a b

all-append : (a b : List Call) → all is_ahead (a ++ b) ≡ (all is_ahead a && all is_ahead b)
all-append [] b = refl
all-append (call ∷ a) b = ground (arith, all-append a b)

changes_are_silent :
    (before after : Option ActiveQuotaState)
    → (noticed (quota_changed before after) ≡ [])
      × (all is_ahead (quota_changed before after) ≡ true)
unfolding quota_changed noticed is_ahead
changes_are_silent before after = (ground arith, ground arith)

-- what one line does to the claims: nothing is sent, or the one key that is claimed
notify_lem :
    (w : Watch) (event : QueuedEvent) (now : ℕ) (quota : Option ActiveQuotaState)
    → let r = notify w event now quota in
      let key = claim_key event.chat_id event.message_id in
      (all is_ahead r.1 ≡ true)
      × (((noticed r.1 ≡ []) × (r.0.claims ≡ w.claims))
          ⊎ ((noticed r.1 ≡ key ∷ [])
              × ((claim max_control_claims key w.claims).1 ≡ true)
              × (r.0.claims ≡ (claim max_control_claims key w.claims).0)))
unfolding notify noticed is_ahead
notify_lem w event now none = (refl, inl (refl, refl))
notify_lem w event now (some quota) =
    let key = claim_key event.chat_id event.message_id in
    elim (Bool-cases (leb (quota.resets_at * 1000) now)) [
      | inl over ↦ rw over (refl, inl (refl, refl))
      | inr active ↦ elim (Bool-cases (claim max_control_claims key w.claims).1) [
        | inl granted ↦ rw (active, granted) (ground arith, inr (refl, refl, refl))
        | inr refused ↦ rw (active, refused) (refl, inl (refl, refl))
      ]
    ]

-- the two cases of a line
abbrev Silent : Watch → Watch × List Call → Type 0
Silent w r = (noticed r.1 ≡ []) × (r.0.claims ≡ w.claims)

abbrev Sends : Watch → Watch × List Call → Type 0
Sends w r =
    (key : String) × (noticed r.1 ≡ key ∷ [])
    × ((claim max_control_claims key w.claims).1 ≡ true)
    × (r.0.claims ≡ (claim max_control_claims key w.claims).0)

on_command_lem :
    (kind : CommandKind) (sends_notices : Bool) (w : Watch) (now : ℕ) (event : QueuedEvent)
    → let r = on_command kind sends_notices w now event in
      (all is_ahead r.1 ≡ true) × (Silent w r ⊎ Sends w r)
unfolding on_command noticed is_ahead
on_command_lem usage sends_notices w now event = (refl, inl (refl, refl))
on_command_lem another sends_notices w now event = (refl, inl (refl, refl))
on_command_lem other false w now event = (refl, inl (refl, refl))
on_command_lem other true w now event =
    let (ahead, cases) = notify_lem w event now w.quota in
    (
      ahead,
      elim cases [
        | inl silent ↦ inl silent
        | inr (sent, granted, after) ↦
            inr (claim_key event.chat_id event.message_id, sent, granted, after)
      ],
    )

on_event_lem :
    (sends_notices : Bool) (w : Watch) (now : ℕ) (event : Option QueuedEvent)
    → let r = on_event sends_notices w now event in
      (all is_ahead r.1 ≡ true) × (Silent w r ⊎ Sends w r)
unfolding on_event noticed is_ahead
on_event_lem sends_notices w now none = (refl, inl (refl, refl))
on_event_lem sends_notices w now (some event) = on_command_lem event.kind sends_notices w now event

on_line_lem :
    (sends_notices : Bool) (w : Watch) (line : TranscriptLine)
    → let r = on_line sends_notices w line in (all is_ahead r.1 ≡ true) × (Silent w r ⊎ Sends w r)
unfolding on_line
on_line_lem sends_notices w line =
    let quota = update_quota w.quota line.failure line.now in
    let handled = on_event sends_notices (record w { quota = quota }) line.now line.event in
    let (quiet, calm) = changes_are_silent w.quota quota in
    let (ahead, cases) =
      on_event_lem sends_notices (record w { quota = quota }) line.now line.event in
    (
      rw (all-append (quota_changed w.quota quota) handled.1, calm) ahead,
      rw (noticed-append (quota_changed w.quota quota) handled.1, quiet) cases,
    )

claimed_is_silent :
    (sends_notices : Bool) (w : Watch) (lines : List TranscriptLine) (k : String)
    → JsSet.has w.claims k ≡ true
    → JsSet.has (noticed (on_lines sends_notices w lines).1) k ≡ false
unfolding on_lines JsSet.has noticed
claimed_is_silent sends_notices w [] k h = refl
claimed_is_silent sends_notices w (line ∷ lines) k h =
    let first = on_line sends_notices w line in
    let later = claimed_is_silent sends_notices first.0 lines k in
    rw (noticed-append first.1 (on_lines sends_notices first.0 lines).1)
      (elim (on_line_lem sends_notices w line).1 [
        | inl (quiet, same) ↦ rw quiet (later (rw same h))
        | inr (key, sent, granted, after) ↦ rw sent (
            ground (
              arith,
              later (rw after (has-claim max_control_claims key k w.claims h)),
              claim_granted max_control_claims key w.claims,
              eq_iff key k,
            ))
      ])

-- Whatever lines a transcript brings, with the failures, messages and times that they carry: each
-- notice is sent for a reset that lies ahead of the clock, and no message is answered by a notice
-- twice.
pub on_lines_lem :
    (sends_notices : Bool) (w : Watch) (lines : List TranscriptLine)
    → let calls = (on_lines sends_notices w lines).1 in
      (all is_ahead calls ≡ true) × JsSet.IsDistinct (noticed calls)
unfolding on_lines noticed
on_lines_lem sends_notices w [] = (refl, tt)
on_lines_lem sends_notices w (line ∷ lines) =
    let first = on_line sends_notices w line in
    let rest = (on_lines sends_notices first.0 lines).1 in
    let (ahead, cases) = on_line_lem sends_notices w line in
    let (all_ahead, distinct) = on_lines_lem sends_notices first.0 lines in
    (
      rw (all-append first.1 rest, ahead) all_ahead,
      rw (noticed-append first.1 rest) (elim cases [
        | inl (quiet, same) ↦ rw quiet distinct
        | inr (key, sent, granted, after) ↦ rw sent (
          claimed_is_silent sends_notices first.0 lines key
              (rw after (claim_granted max_control_claims key w.claims granted).1),
          distinct,
        )
      ]),
    )

-- Merging never loses a reset: while the current reset lies ahead, the result has the later one of
-- the two, and a window that is known for that reset stays known; once it is over, the next state
-- is taken as it is.
pub merge_lem :
    (current next : ActiveQuotaState) (now : ℕ)
    → (now < current.resets_at * 1000
        → ((merge (some current) next now).resets_at ≡ max current.resets_at next.resets_at)
          × (current.resets_at ≡ next.resets_at
              → is_some (merge (some current) next now).window
                ≡ (is_some current.window || is_some next.window)))
      × (current.resets_at * 1000 ≤ now → merge (some current) next now ≡ next)
unfolding merge supersedes
merge_lem current next now = (λ h. (ground arith, λ e. ground arith), λ h. ground arith)

with_failure_lem :
    (quota q : ActiveQuotaState) (row : RuntimeFailureRow) (now : ℕ)
    → with_failure (some quota) row now ≡ some q
    → (quota.resets_at ≤ q.resets_at)
      × (q.resets_at ≢ quota.resets_at
          → (now < q.resets_at * 1000) × (q.resets_at * 1000 ≤ now + max_quota_future_ms))
unfolding with_failure with_reset is_plausible
with_failure_lem quota q row now e = elim (Option-cases row.resets_at) [
  | inl missing ↦ ground arith
  | inr (resets_at, there) ↦ ground arith
]

-- A failure row never takes an earlier reset for a later one, and a reset that it sets lies ahead
-- of the clock by no more than seven days.
pub update_quota_lem :
    (quota q : ActiveQuotaState) (row : Option RuntimeFailureRow) (now : ℕ)
    → update_quota (some quota) row now ≡ some q
    → (quota.resets_at ≤ q.resets_at)
      × (q.resets_at ≢ quota.resets_at
          → (now < q.resets_at * 1000) × (q.resets_at * 1000 ≤ now + max_quota_future_ms))
unfolding update_quota
update_quota_lem quota q none now e = ground arith
update_quota_lem quota q (some row) now e = with_failure_lem quota q row now e
