-- ===== src/Title/State/Machine/Updates.antt =====
-- An update of the file, and when it keeps the file in order.
use claude_code_telegram_kit.Prelude.{
  ℕ, ◌+◌, String, Option, none, some, true, false, ◌≡◌, refl, inl, inr, arith, Bool-cases,
  Option-cases,
}
use claude_code_telegram_kit.Prelude.Uuid.{is_uuid}
use claude_code_telegram_kit.Title.State.{SessionTitleState, validate, canonical}
use claude_code_telegram_kit.Title.State.Store.{
  Leaf, holds, Outcome, thrown, returned, found, validated, read_leaf, update,
}
use claude_code_telegram_kit.Title.State.Roundtrip.{IsValid, validate-canonical}
use claude_code_telegram_kit.Title.State.Machine.{Spent, IsKept, fresh, kept}

-- what an update does once the record is read
abbrev pub settle : Option SessionTitleState → SessionTitleState → Leaf × Outcome
settle none s = (holds (canonical s), returned false)
settle (some s') s = (holds (canonical s'), returned true)

pub read_kept :
    (id : String) (s : SessionTitleState)
    → IsValid s
    → s.session_id ≡ id
    → read_leaf (holds (canonical s)) id ≡ found s
unfolding read_leaf validated
read_kept id s v e =
    let r : validate (canonical s) id ≡ some s = cc (e, validate-canonical s v) in rw r refl

pub update_lem :
    (id : String) (next : SessionTitleState → Option SessionTitleState) (s : SessionTitleState)
    → IsValid s
    → s.session_id ≡ id
    → is_uuid id ≡ true
    → update id next (holds (canonical s)) ≡ settle (next s) s
unfolding update
update_lem id next s v e u =
    rw (u, read_kept id s v e, update)
      (elim (Option-cases (next s)) [ inl stays ↦ rw stays refl | inr (s', goes) ↦ rw goes refl ])

pub update_of_bad_id :
    (id : String) (next : SessionTitleState → Option SessionTitleState) (leaf : Leaf)
    → is_uuid id ≡ false
    → update id next leaf ≡ (leaf, thrown)
unfolding update
update_of_bad_id id next leaf u = rw u refl

-- what an update must give for the file to stay in order
abbrev pub Keeps : String → Option SessionTitleState → ℕ → ℕ → Type 0
Keeps id none gain n = Unit
Keeps id (some s) gain n = IsValid s × (s.session_id ≡ id) × Spent s.status s.attempts (n + gain)

unfoldable pub gained : ℕ → Outcome → ℕ
gained gain (returned true) = gain
gained gain _ = 0

pub n_plus_0 : (n : ℕ) → n + 0 ≡ n
n_plus_0 n = omega arith

pub settle-IsKept :
    (id : String) (s : SessionTitleState) (next : Option SessionTitleState) (gain n : ℕ)
    → IsKept id (holds (canonical s)) n
    → Keeps id next gain n
    → IsKept id (settle next s).0 (n + gained gain (settle next s).1)
unfolding gained
settle-IsKept id s none gain n k ok = rw (n_plus_0 n) k
settle-IsKept id s (some s') gain n k (v, e, c) = kept s' (n + gain) v e c

pub update-IsKept :
    (id : String) (next : SessionTitleState → Option SessionTitleState) (gain : ℕ) (leaf : Leaf)
    (n : ℕ)
    → ((s : SessionTitleState)
        → IsValid s
        → s.session_id ≡ id
        → Spent s.status s.attempts n
        → Keeps id (next s) gain n)
    → IsKept id leaf n
    → IsKept id (update id next leaf).0 (n + gained gain (update id next leaf).1)
unfolding gained
update-IsKept id next gain leaf n ok k = elim (Bool-cases (is_uuid id)) [
  | inl good ↦ known good leaf n ok k
  | inr bad ↦ rw (update_of_bad_id id next leaf bad, n_plus_0 n) k
]
  where
    known :
        is_uuid id ≡ true
        → (leaf : Leaf) (n : ℕ)
        → ((s : SessionTitleState)
            → IsValid s
            → s.session_id ≡ id
            → Spent s.status s.attempts n
            → Keeps id (next s) gain n)
        → IsKept id leaf n
        → IsKept id (update id next leaf).0 (n + gained gain (update id next leaf).1)
    known u _ _ ok fresh = unfold update read_leaf in rw u fresh
    known u _ _ ok (kept s n v e c) =
        rw (update_lem id next s v e u)
          (settle-IsKept id s (next s) gain n (kept s n v e c) (ok s v e c))
