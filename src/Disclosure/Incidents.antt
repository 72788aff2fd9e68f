-- ===== src/Disclosure/Incidents.antt =====
-- packages/telegram-renderer-mcp/src/progress-disclosure.ts: `reserveRuntimeIncident`, which lets
-- one message through for a failure of a chat until the reservation expires. Times are in ms.
use claude_code_telegram_kit.Prelude.{
  ℕ, ◌+◌, ◌*◌, ◌≤◌, ◌<◌, String, Option, none, some, Bool, true, false, ◌&&◌, ◌≡◌, List, [], ◌∷◌,
  arith, eq_iff, if◌then◌else◌, ltb, leb, length, ◌<>◌, max,
}
use claude_code_telegram_kit.Prelude.JsMap
use claude_code_telegram_kit.Prelude.JsMap.{JsMap}

abbrev pub runtime_incident_ttl_ms : ℕ
runtime_incident_ttl_ms = 300000

abbrev pub max_runtime_incidents : ℕ
max_runtime_incidents = 32

abbrev pub max_reset_future_ms : ℕ
max_reset_future_ms = 604800000

pub record RuntimeFailure : Type 0 where
  pub error : String
  pub resets_at : Option ℕ

-- the loop that deletes what has expired
unfoldable pub unexpired : ℕ → JsMap ℕ → JsMap ℕ
unexpired now [] = []
unexpired now ((key, expires_at) ∷ m) =
    let rest = unexpired now m in if leb expires_at now then rest else (key, expires_at) ∷ rest

unfoldable pub incident_key : String → RuntimeFailure → String
incident_key chat_id failure = chat_id <> "/" <> failure.error

unfoldable pub reset_ms : RuntimeFailure → ℕ
reset_ms failure = elim failure.resets_at [ none ↦ 0 | some seconds ↦ seconds * 1000 ]

unfoldable pub reset_expiry : ℕ → ℕ → ℕ
reset_expiry now reset = if ltb now reset && leb reset (now + max_reset_future_ms) then reset else 0

unfoldable pub incident_expiry : ℕ → RuntimeFailure → ℕ
incident_expiry now failure =
    max (now + runtime_incident_ttl_ms) (reset_expiry now (reset_ms failure))

-- `(runtimeIncidents.get(key) ?? 0) > current`
unfoldable pub is_live : ℕ → Option ℕ → Bool
is_live now none = false
is_live now (some expires_at) = ltb now expires_at

unfoldable pub reserve : ℕ → String → RuntimeFailure → JsMap ℕ → JsMap ℕ × Bool
reserve now chat_id failure incidents =
    let held = unexpired now incidents in
    let key = incident_key chat_id failure in
    if is_live now (JsMap.get held key)
    then (held, false)
    else if leb max_runtime_incidents (length held)
    then (held, false)
    else (JsMap.put held key (incident_expiry now failure), true)

-- a failure seen in a chat at a time
pub record Incident : Type 0 where
  pub at : ℕ
  pub chat_id : String
  pub failure : RuntimeFailure

unfoldable pub reserve_all : List Incident → JsMap ℕ → JsMap ℕ
reserve_all [] incidents = incidents
reserve_all (i ∷ is) incidents = reserve_all is (reserve i.at i.chat_id i.failure incidents).0

length-unexpired : (now : ℕ) (m : JsMap ℕ) → length (unexpired now m) ≤ length m
unfolding unexpired
length-unexpired now [] = omega arith
length-unexpired now ((key, e) ∷ m) = ground (arith, length-unexpired now m)

get-unexpired :
    (now : ℕ) (m : JsMap ℕ) (k : String) (e : ℕ)
    → JsMap.get m k ≡ some e
    → now < e
    → JsMap.get (unexpired now m) k ≡ some e
unfolding unexpired JsMap.get
get-unexpired now [] k e g l = cc
get-unexpired now ((j, x) ∷ m) k e g l = ground (arith, get-unexpired now m k e)

expiry_bound :
    (now : ℕ) (f : RuntimeFailure) → now + runtime_incident_ttl_ms ≤ incident_expiry now f
unfolding incident_expiry
expiry_bound now f = omega arith

reserve_bound :
    (i : Incident) (m : JsMap ℕ)
    → length m ≤ max_runtime_incidents
    → length (reserve i.at i.chat_id i.failure m).0 ≤ max_runtime_incidents
unfolding reserve
reserve_bound i m h = ground (
  arith,
  length-unexpired i.at m,
  JsMap.length-put (unexpired i.at m) (incident_key i.chat_id i.failure)
      (incident_expiry i.at i.failure),
)

-- From no more than 32 reservations no sequence of failures leads to more.
pub length-reserve_all :
    (is : List Incident) (m : JsMap ℕ)
    → length m ≤ max_runtime_incidents
    → length (reserve_all is m) ≤ max_runtime_incidents
unfolding reserve_all
length-reserve_all [] m h = h
length-reserve_all (i ∷ is) m h =
    length-reserve_all is (reserve i.at i.chat_id i.failure m).0 (reserve_bound i m h)

-- no failure of the list is later than a time
abbrev pub AllBy : ℕ → List Incident → Type 0
AllBy t [] = Unit
AllBy t (i ∷ is) = (i.at ≤ t) × AllBy t is

reserve_keeps :
    (i : Incident) (m : JsMap ℕ) (k : String) (e : ℕ)
    → JsMap.get m k ≡ some e
    → i.at < e
    → JsMap.get (reserve i.at i.chat_id i.failure m).0 k ≡ some e
unfolding reserve is_live
reserve_keeps i m k e g l =
    let key = incident_key i.chat_id i.failure in
    let held = unexpired i.at m in
    ground (
      arith,
      get-unexpired i.at m k e,
      JsMap.get-put held key k (incident_expiry i.at i.failure),
      eq_iff key k,
    )

reserve_all_keeps :
    (is : List Incident) (m : JsMap ℕ) (t : ℕ) (k : String) (e : ℕ)
    → AllBy t is
    → t < e
    → JsMap.get m k ≡ some e
    → JsMap.get (reserve_all is m) k ≡ some e
unfolding reserve_all
reserve_all_keeps [] m t k e a l g = g
reserve_all_keeps (i ∷ is) m t k e (by, a) l g =
    reserve_all_keeps is (reserve i.at i.chat_id i.failure m).0 t k e a l
      (reserve_keeps i m k e g (omega (arith, by, l)))

reserved :
    (i : Incident) (m : JsMap ℕ)
    → (reserve i.at i.chat_id i.failure m).1 ≡ true
    → JsMap.get (reserve i.at i.chat_id i.failure m).0 (incident_key i.chat_id i.failure)
      ≡ some (incident_expiry i.at i.failure)
unfolding reserve
reserved i m h =
    let key = incident_key i.chat_id i.failure in
    ground (
      arith,
      JsMap.get-put (unexpired i.at m) key key (incident_expiry i.at i.failure),
      eq_iff key key,
    )

refused_of_live :
    (now : ℕ) (chat_id : String) (f : RuntimeFailure) (m : JsMap ℕ) (e : ℕ)
    → JsMap.get m (incident_key chat_id f) ≡ some e
    → now < e
    → (reserve now chat_id f m).1 ≡ false
unfolding reserve is_live
refused_of_live now chat_id f m e g l =
    ground (arith, get-unexpired now m (incident_key chat_id f) e)

-- After a reservation is granted, the same failure of the same chat is refused for at least five
-- minutes, and until the announced reset where the reservation took that, whatever other failures
-- are reserved between, if none of them is later than the repeated one.
pub reserve_once :
    (first : Incident) (between : List Incident) (m : JsMap ℕ) (t : ℕ)
    → (reserve first.at first.chat_id first.failure m).1 ≡ true
    → AllBy t between
    → t < incident_expiry first.at first.failure
    → (first.at + runtime_incident_ttl_ms ≤ incident_expiry first.at first.failure)
      × ((reserve t first.chat_id first.failure
            (reserve_all between (reserve first.at first.chat_id first.failure m).0)).1
          ≡ false)
reserve_once first between m t granted by early =
    let after = (reserve first.at first.chat_id first.failure m).0 in
    let expiry = incident_expiry first.at first.failure in
    let key = incident_key first.chat_id first.failure in
    (
      expiry_bound first.at first.failure,
      refused_of_live t first.chat_id first.failure (reserve_all between after) expiry
          (reserve_all_keeps between after t key expiry by early (reserved first m granted)) early,
    )
