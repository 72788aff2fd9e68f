-- ===== src/Heartbeat/Runs.antt =====
-- What holds of the heartbeats after any events.
use claude_code_telegram_kit.Prelude.{
  ℕ, ◌+◌, ◌-◌, ◌≤◌, ◌<◌, String, Option, none, some, Bool, true, false, ◌≡◌, ◌≢◌, refl, ◌∙◌, inl,
  inr, List, [], ◌∷◌, arith, str_eq, eq_iff, eq_refl, if◌then◌else◌, leb, Bool-cases,
}
use mathlib.Core.Path.{subst}
use claude_code_telegram_kit.Prelude.JsMap
use claude_code_telegram_kit.Prelude.JsMap.{JsMap}
use claude_code_telegram_kit.Heartbeat.{
  stop_each, default_typing_max_duration_ms, Heartbeat, Manager, TypingOutcome, is_current,
  silenced, stop_heartbeat, is_live, schedule_next, begin_beat, delay_of, is_rejected, answered,
  end_beat, fire, stop_found, stop, fresh, start,
}
use claude_code_telegram_kit.Heartbeat.Current.{
  Step, starts, stops, stops_all, cancels, fires, answers, Reachable, begun, more, IsTidy, is_busy,
  touched, set_other, set_own, set-cases, get-stop, current_get, get_current, stop_heartbeat-IsTidy,
  touch-IsTidy,
}

begin_beat-IsTidy : (m : Manager) (i : ℕ) → IsTidy m → IsTidy (begin_beat m i)
unfolding begin_beat
begin_beat-IsTidy m i h = elim (Bool-cases (is_live m i)) [
  | inl live ↦
      rw live (touch-IsTidy m i (record (m.heap i) { abort = true }) refl refl (λ e. live) h)
  | inr over ↦ rw over h
]

answered-IsTidy : (m : Manager) (i : ℕ) → IsTidy m → IsTidy (answered m i)
unfolding answered
answered-IsTidy m i h =
    touch-IsTidy m i (record (m.heap i) { abort = false }) refl refl
      (λ e. h.timers i (ground arith)) h

schedule_next-IsTidy :
    (m : Manager) (i delay now : ℕ) (schedules : Bool)
    → IsTidy m
    → IsTidy (schedule_next m i delay now schedules)
unfolding schedule_next
schedule_next-IsTidy m i delay now schedules h = elim (Bool-cases (is_live m i)) [
  | inr over ↦ rw over h
  | inl live ↦
      elim (Bool-cases (leb default_typing_max_duration_ms (now - (m.heap i).started_at))) [
        | inl long ↦ rw (live, long) (stop_heartbeat-IsTidy m i h)
        | inr young ↦
            rw (live, young)
              (touch-IsTidy m i
                (record (m.heap i) { timer = (if schedules then some delay else none) }) refl refl
                (λ e. live) h)
      ]
]

end_beat-IsTidy :
    (m : Manager) (i : ℕ) (outcome : TypingOutcome) (now : ℕ) (schedules : Bool)
    → IsTidy m
    → IsTidy (end_beat m i outcome now schedules)
unfolding end_beat
end_beat-IsTidy m i outcome now schedules h =
    let rest = answered-IsTidy m i h in
    elim (Bool-cases (is_live (answered m i) i)) [
      | inr over ↦ rw over rest
      | inl live ↦ elim (Bool-cases (is_rejected outcome)) [
        | inl no_more ↦ rw (live, no_more) (stop_heartbeat-IsTidy (answered m i) i rest)
        | inr again ↦
            rw (live, again)
              (schedule_next-IsTidy (answered m i) i (delay_of outcome) now schedules rest)
      ]
    ]

fire-IsTidy : (m : Manager) (i : ℕ) → IsTidy m → IsTidy (fire m i)
unfolding fire
fire-IsTidy m i h = begin_beat-IsTidy (touched m i (record (m.heap i) { timer = none })) i (
    touch-IsTidy m i (record (m.heap i) { timer = none }) refl refl (λ e. h.timers i (ground arith))
      h)

-- after `stop` the chat has no heartbeat
get-stopped :
    (m : Manager) (chat_id : String)
    → IsTidy m
    → IsTidy (stop m chat_id) × (JsMap.get (stop m chat_id).heartbeats chat_id ≡ none)
unfolding stop_found
get-stopped m chat_id h = go (JsMap.get m.heartbeats chat_id) refl
  where
    go :
        (found : Option ℕ)
        → JsMap.get m.heartbeats chat_id ≡ found
        → IsTidy (stop_found m found) × (JsMap.get (stop_found m found).heartbeats chat_id ≡ none)
    go none e = (h, e)
    go (some i) e =
        let chat : (m.heap i).chat_id ≡ chat_id = (h.entries chat_id i e).0 in
        let now : is_current m i ≡ true = get_current m i (rw chat e) in
        (stop_heartbeat-IsTidy m i h, get-stop m i chat_id ∙ (rw (now, chat, eq_refl chat_id) refl))

newborn : String → ℕ → Heartbeat
newborn chat_id now = record {
  chat_id = chat_id;
  timer = none;
  abort = false;
  stopped = false;
  started_at = now;
}

fresh_live :
    (m : Manager) (chat_id : String) (now k : ℕ)
    → JsMap.get m.heartbeats chat_id ≡ none
    → k ≢ m.next
    → is_live m k ≡ true
    → is_live (fresh m chat_id now) k ≡ true
unfolding fresh newborn
fresh_live m chat_id now k free other live =
    let same : (fresh m chat_id now).heap k ≡ m.heap k =
      set_other m.heap m.next k (newborn chat_id now) other in
    let own : JsMap.get m.heartbeats (m.heap k).chat_id ≡ some k = current_get m k (ground arith) in
    let kept : JsMap.get (JsMap.put m.heartbeats chat_id m.next) (m.heap k).chat_id ≡ some k =
      ground (
        arith,
        JsMap.get-put m.heartbeats chat_id (m.heap k).chat_id m.next,
        eq_iff chat_id (m.heap k).chat_id,
      ) in
    let here : is_current (fresh m chat_id now) k ≡ true =
      get_current (fresh m chat_id now) k (rw same kept) in
    let awake : (m.heap k).stopped ≡ false = ground (arith, live) in rw (same, here, awake) refl

fresh_own :
    (m : Manager) (chat_id other : String)
    → IsTidy m
    → JsMap.get (JsMap.put m.heartbeats chat_id m.next) other ≡ some m.next
    → chat_id ≡ other
fresh_own m chat_id other h e = elim (Bool-cases (str_eq chat_id other)) [
  | inl same ↦ (eq_iff chat_id other).0 same
  | inr apart_ ↦
      let old : JsMap.get m.heartbeats other ≡ some m.next =
        ground (arith, JsMap.get-put m.heartbeats chat_id other m.next) in
      let below : m.next < m.next = (h.entries other m.next old).2 in ground (arith, below)
]

fresh_old :
    (m : Manager) (chat_id other : String) (k : ℕ)
    → k ≢ m.next
    → JsMap.get (JsMap.put m.heartbeats chat_id m.next) other ≡ some k
    → JsMap.get m.heartbeats other ≡ some k
fresh_old m chat_id other k apart_ e =
    ground (arith, JsMap.get-put m.heartbeats chat_id other m.next)

fresh-IsTidy :
    (m : Manager) (chat_id : String) (now : ℕ)
    → JsMap.get m.heartbeats chat_id ≡ none
    → IsTidy m
    → IsTidy (fresh m chat_id now)
unfolding fresh newborn
fresh-IsTidy m chat_id now free h = record {
  timers =
      set-cases (λ k x. is_busy x ≡ true → is_live (fresh m chat_id now) k ≡ true) m.heap m.next
        (newborn chat_id now) (λ e. ground arith)
        (λ k apart_ e. fresh_live m chat_id now k free apart_ (h.timers k e));
  entries = λ other.
      set-cases
        (λ k x.
          JsMap.get (JsMap.put m.heartbeats chat_id m.next) other ≡ some k
          → (x.chat_id ≡ other) × (x.stopped ≡ false) × (k < m.next + 1))
        m.heap m.next (newborn chat_id now)
        (λ e. (fresh_own m chat_id other h e, refl, omega arith))
        (λ k apart_ e.
          let parts = h.entries other k (fresh_old m chat_id other k apart_ e) in
          (parts.0, parts.1, omega (arith, parts.2)));
}

start-IsTidy : (m : Manager) (chat_id : String) (now : ℕ) → IsTidy m → IsTidy (start m chat_id now)
unfolding start
start-IsTidy m chat_id now h =
    let stopped_ = get-stopped m chat_id h in
    begin_beat-IsTidy (fresh (stop m chat_id) chat_id now) (stop m chat_id).next
      (fresh-IsTidy (stop m chat_id) chat_id now (stopped_.1) (stopped_.0))

stop_each-IsTidy : (m : Manager) (ids : List ℕ) → IsTidy m → IsTidy (stop_each m ids)
unfolding stop_each
stop_each-IsTidy m [] h = h
stop_each-IsTidy m (i ∷ ids) h =
    stop_each-IsTidy (stop_heartbeat m i) ids (stop_heartbeat-IsTidy m i h)

Step-IsTidy : (m n : Manager) → Step m n → IsTidy m → IsTidy n
Step-IsTidy m n (starts _ chat_id now) h = start-IsTidy m chat_id now h
Step-IsTidy m n (stops _ chat_id) h = (get-stopped m chat_id h).0
Step-IsTidy m n (stops_all _) h = stop_each-IsTidy m (JsMap.values m.heartbeats) h
Step-IsTidy m n (cancels _ i old) h = stop_heartbeat-IsTidy m i h
Step-IsTidy m n (fires _ i set_) h = fire-IsTidy m i h
Step-IsTidy m n (answers _ i outcome now schedules old) h =
    end_beat-IsTidy m i outcome now schedules h

Reachable-IsTidy : (a m : Manager) → IsTidy a → Reachable a m → IsTidy m
Reachable-IsTidy a m h begun = h
Reachable-IsTidy a n h (more m _ r step_) = Step-IsTidy m n step_ (Reachable-IsTidy a m h r)

-- no heartbeats yet
unfoldable pub empty : Manager
empty = record {
  heap = λ _. record { chat_id = ""; timer = none; abort = false; stopped = true; started_at = 0 };
  next = 0;
  heartbeats = [];
}

empty-IsTidy : IsTidy empty
unfolding empty JsMap.get
empty-IsTidy = record { timers = λ i e. ground arith; entries = λ chat_id i e. ground arith }

busy_current :
    (m : Manager) (i : ℕ)
    → IsTidy m
    → is_busy (m.heap i) ≡ true
    → JsMap.get m.heartbeats (m.heap i).chat_id ≡ some i
busy_current m i h b = current_get m i (ground (arith, h.timers i b))

-- After any events, where a heartbeat of a chat has a timer that is set or a send that is neither
-- answered nor aborted, no other heartbeat of that chat has one: the old ones have no timer, and
-- the sends that they began are answered or aborted.
pub busy_once :
    (m : Manager) (i k : ℕ)
    → Reachable empty m
    → is_busy (m.heap i) ≡ true
    → (m.heap k).chat_id ≡ (m.heap i).chat_id
    → k ≢ i
    → is_busy (m.heap k) ≡ false
busy_once m i k r b same other = elim (Bool-cases (is_busy (m.heap k))) [
  | inr quiet ↦ quiet
  | inl busy_ ↦
      let h = Reachable-IsTidy empty m empty-IsTidy r in
      let one = busy_current m i h b in
      let two : JsMap.get m.heartbeats (m.heap i).chat_id ≡ some k =
        subst (λ c. JsMap.get m.heartbeats c ≡ some k) same (busy_current m k h busy_) in
      ground arith
]

stop_heartbeat_quiet : (m : Manager) (i : ℕ) → is_busy ((stop_heartbeat m i).heap i) ≡ false
unfolding stop_heartbeat
stop_heartbeat_quiet m i = rw (set_own m.heap i (silenced (m.heap i))) refl

schedule_next_over :
    (m : Manager) (i delay now : ℕ) (schedules : Bool)
    → is_live m i ≡ true
    → (m.heap i).started_at + default_typing_max_duration_ms ≤ now
    → is_busy ((schedule_next m i delay now schedules).heap i) ≡ false
unfolding schedule_next
schedule_next_over m i delay now schedules live long =
    let over : leb default_typing_max_duration_ms (now - (m.heap i).started_at) ≡ true =
      ground (arith, long) in
    rw (live, over) (stop_heartbeat_quiet m i)

-- The typing ends: a beat that is answered ten minutes or more after the start of its heartbeat,
-- which has no timer while it waits, leaves the heartbeat without a timer and without a send that
-- is neither answered nor aborted, whatever the answer.
pub end_beat_over :
    (m : Manager) (i : ℕ) (outcome : TypingOutcome) (now : ℕ) (schedules : Bool)
    → (m.heap i).started_at + default_typing_max_duration_ms ≤ now
    → (m.heap i).timer ≡ none
    → is_busy ((end_beat m i outcome now schedules).heap i) ≡ false
unfolding end_beat answered
end_beat_over m i outcome now schedules long idle =
    let own = set_own m.heap i (record (m.heap i) { abort = false }) in
    elim (Bool-cases (is_live (answered m i) i)) [
      | inr over ↦ rw over (rw (own, idle) refl)
      | inl live ↦ elim (Bool-cases (is_rejected outcome)) [
        | inl no_more ↦ rw (live, no_more) (stop_heartbeat_quiet (answered m i) i)
        | inr again ↦
            rw (live, again)
              (schedule_next_over (answered m i) i (delay_of outcome) now schedules live
                (rw own long))
      ]
    ]
