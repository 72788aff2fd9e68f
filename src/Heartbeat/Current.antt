-- ===== src/Heartbeat/Current.antt =====
-- A timer or a send is of the heartbeat that its chat has.
use mathlib.Core.Path.{subst}
use claude_code_telegram_kit.Prelude.{
  ℕ, ◌<◌, String, none, some, Bool, true, false, ◌&&◌, ◌||◌, ◌≡◌, ◌≢◌, refl, sym, ◌∙◌, inl, inr,
  arith, str_eq, eq_iff, if◌then◌else◌, ◌==◌, Bool-cases, Option-cases, is_some,
}
use claude_code_telegram_kit.Prelude.JsMap
use claude_code_telegram_kit.Prelude.JsMap.{JsMap}
use claude_code_telegram_kit.Heartbeat.{
  stop_all, Heartbeat, Manager, TypingOutcome, set, is_current, silenced, stop_heartbeat, is_live,
  end_beat, fire, stop, start,
}

-- One event: a chat starts or stops, all stop, a heartbeat is cancelled, its timer goes off, its send is answered.
pub data Step : Manager → Manager → Type 0 where
  starts : (m : Manager) (chat_id : String) (now : ℕ) → Step m (start m chat_id now)
  stops : (m : Manager) (chat_id : String) → Step m (stop m chat_id)
  stops_all : (m : Manager) → Step m (stop_all m)
  cancels : (m : Manager) (i : ℕ) → i < m.next → Step m (stop_heartbeat m i)
  fires : (m : Manager) (i : ℕ) → (m.heap i).timer ≢ none → Step m (fire m i)
  answers :
      (m : Manager) (i : ℕ) (outcome : TypingOutcome) (now : ℕ) (schedules : Bool)
      → i < m.next
      → Step m (end_beat m i outcome now schedules)

pub data Reachable (a : Manager) : Manager → Type 0 where
  begun : Reachable a a
  more : (m n : Manager) → Reachable a m → Step m n → Reachable a n

-- Whatever is under way is of the heartbeat that the map has for its chat, and the map has heartbeats
-- of their own chats that are not stopped.
pub record IsTidy (m : Manager) : Type 0 where
  pub timers : (i : ℕ) → is_some (m.heap i).timer || (m.heap i).abort ≡ true → is_live m i ≡ true
  pub entries :
      (chat_id : String) (i : ℕ)
      → JsMap.get m.heartbeats chat_id ≡ some i
      → ((m.heap i).chat_id ≡ chat_id) × ((m.heap i).stopped ≡ false) × (i < m.next)

pub current_get :
    (m : Manager) (i : ℕ)
    → is_current m i ≡ true
    → JsMap.get m.heartbeats (m.heap i).chat_id ≡ some i
unfolding is_current
current_get m i h = elim (Option-cases (JsMap.get m.heartbeats (m.heap i).chat_id)) [
  | inl gone ↦ ground arith
  | inr (j, found) ↦ ground arith
]

pub get_current :
    (m : Manager) (i : ℕ)
    → JsMap.get m.heartbeats (m.heap i).chat_id ≡ some i
    → is_current m i ≡ true
unfolding is_current
get_current m i h = rw h (ground arith)

pub set_other : (heap : ℕ → Heartbeat) (i k : ℕ) (v : Heartbeat) → k ≢ i → set heap i v k ≡ heap k
unfolding set
set_other heap i k v h = ground arith

pub set_own : (heap : ℕ → Heartbeat) (i : ℕ) (v : Heartbeat) → set heap i v i ≡ v
unfolding set
set_own heap i v = ground arith

pub get-stop :
    (m : Manager) (i : ℕ) (chat_id : String)
    → JsMap.get (stop_heartbeat m i).heartbeats chat_id ≡ (
        if is_current m i && str_eq (m.heap i).chat_id chat_id
        then none
        else JsMap.get m.heartbeats chat_id)
unfolding stop_heartbeat
get-stop m i chat_id = elim (Bool-cases (is_current m i)) [
  | inl now ↦ rw now (JsMap.get-delete m.heartbeats (m.heap i).chat_id chat_id)
  | inr not_now ↦ rw not_now refl
]

stop_entries :
    (m : Manager) (i : ℕ) (chat_id : String) (k : ℕ)
    → IsTidy m
    → JsMap.get (stop_heartbeat m i).heartbeats chat_id ≡ some k
    → (k ≢ i) × (JsMap.get m.heartbeats chat_id ≡ some k)
stop_entries m i chat_id k h e =
    let kept : JsMap.get m.heartbeats chat_id ≡ some k = ground (arith, get-stop m i chat_id, e) in
    (
      λ same.
          let own : JsMap.get m.heartbeats chat_id ≡ some i = rw (sym same) kept in
          let of_chat : (m.heap i).chat_id ≡ chat_id = (h.entries chat_id i own).0 in
          let now : is_current m i ≡ true = get_current m i (rw of_chat own) in
          ground (arith, get-stop m i chat_id, e, eq_iff (m.heap i).chat_id chat_id),
      kept,
    )

none_kept :
    (m : Manager) (i k : ℕ)
    → k ≢ i
    → JsMap.get m.heartbeats (m.heap k).chat_id ≡ some k
    → (is_current m i && str_eq (m.heap i).chat_id (m.heap k).chat_id) ≡ false
none_kept m i k apart_ own =
    elim (Bool-cases (is_current m i && str_eq (m.heap i).chat_id (m.heap k).chat_id)) [
      | inr no_ ↦ no_
      | inl both ↦
          let chat : (m.heap i).chat_id ≡ (m.heap k).chat_id =
            (eq_iff (m.heap i).chat_id (m.heap k).chat_id).0 (ground arith) in
          let there : JsMap.get m.heartbeats (m.heap k).chat_id ≡ some i =
            rw (sym chat) (current_get m i (ground arith)) in
          ground arith
    ]

stop_live :
    (m : Manager) (i k : ℕ) → k ≢ i → is_live m k ≡ true → is_live (stop_heartbeat m i) k ≡ true
unfolding stop_heartbeat
stop_live m i k apart_ h =
    let same : (stop_heartbeat m i).heap k ≡ m.heap k =
      set_other m.heap i k (silenced (m.heap i)) apart_ in
    let own = current_get m k (ground arith) in
    let kept : JsMap.get (stop_heartbeat m i).heartbeats (m.heap k).chat_id ≡ some k =
      get-stop m i (m.heap k).chat_id ∙ (rw (none_kept m i k apart_ own) own) in
    let now : is_current (stop_heartbeat m i) k ≡ true =
      get_current (stop_heartbeat m i) k (rw same kept) in
    let awake : (m.heap k).stopped ≡ false = ground (arith, h) in rw (same, now, awake) refl

-- what is under way of a heartbeat
abbrev pub is_busy : Heartbeat → Bool
is_busy h = is_some h.timer || h.abort

-- a fact on the heartbeat that is set, and on each of the others, is one on all
pub set-cases :
    (P : ℕ → Heartbeat → Type 0) (heap : ℕ → Heartbeat) (i : ℕ) (v : Heartbeat)
    → P i v
    → ((k : ℕ) → k ≢ i → P k (heap k))
    → (k : ℕ) → P k (set heap i v k)
set-cases P heap i v own others k = elim (Bool-cases (k == i)) [
  | inl same_ ↦
      let same : k ≡ i = ground arith in
      subst (λ x. P x (set heap i v x)) (sym same) (subst (λ h. P i h) (sym (set_own heap i v)) own)
  | inr apart_ ↦
      let other : k ≢ i = λ e. ground arith in
      subst (λ h. P k h) (sym (set_other heap i k v other)) (others k other)
]

pub stop_heartbeat-IsTidy : (m : Manager) (i : ℕ) → IsTidy m → IsTidy (stop_heartbeat m i)
unfolding stop_heartbeat
stop_heartbeat-IsTidy m i h = record {
  timers =
      set-cases (λ k v. is_busy v ≡ true → is_live (stop_heartbeat m i) k ≡ true) m.heap i
        (silenced (m.heap i)) (λ e. ground arith)
        (λ k apart_ e. stop_live m i k apart_ (h.timers k e));
  entries = λ chat_id k e.
      let parts = stop_entries m i chat_id k h e in
      rw (set_other m.heap i k (silenced (m.heap i)) (parts.0)) (h.entries chat_id k (parts.1));
}

abbrev pub touched : Manager → ℕ → Heartbeat → Manager
touched m i v = record m { heap = set m.heap i v }

touched_live :
    (m : Manager) (i k : ℕ) (v : Heartbeat)
    → v.chat_id ≡ (m.heap i).chat_id
    → v.stopped ≡ (m.heap i).stopped
    → is_live m k ≡ true
    → is_live (touched m i v) k ≡ true
unfolding is_current
touched_live m i k v chat stopped h =
    let parts =
      set-cases (λ n x. (x.chat_id ≡ (m.heap n).chat_id) × (x.stopped ≡ (m.heap n).stopped)) m.heap
        i v (chat, stopped) (λ n other. (refl, refl)) k in
    rw (parts.0, parts.1) h

-- a change of the timer or the send of a live heartbeat, or the end of one
pub touch-IsTidy :
    (m : Manager) (i : ℕ) (v : Heartbeat)
    → v.chat_id ≡ (m.heap i).chat_id
    → v.stopped ≡ (m.heap i).stopped
    → (is_busy v ≡ true → is_live m i ≡ true)
    → IsTidy m
    → IsTidy (touched m i v)
touch-IsTidy m i v chat stopped live h = record {
  timers =
      set-cases (λ k x. is_busy x ≡ true → is_live (touched m i v) k ≡ true) m.heap i v
        (λ e. touched_live m i i v chat stopped (live e))
        (λ k apart_ e. touched_live m i k v chat stopped (h.timers k e));
  entries = λ chat_id.
      set-cases
        (λ k x.
          JsMap.get m.heartbeats chat_id ≡ some k
          → (x.chat_id ≡ chat_id) × (x.stopped ≡ false) × (k < m.next))
        m.heap i v
        (λ e. let parts = h.entries chat_id i e in (chat ∙ parts.0, stopped ∙ parts.1, parts.2))
        (λ k apart_ e. h.entries chat_id k e);
}
