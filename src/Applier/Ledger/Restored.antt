-- ===== src/Applier/Ledger/Restored.antt =====
-- What the restoring of the ledger leaves.
use claude_code_telegram_kit.Prelude.{
  String, Option, none, some, Bool, true, false, ◌&&◌, ◌≡◌, ◌⊎◌, refl, ap, inl, inr, arith, eq_iff,
  eq_refl, Bool-cases, is_some,
}
use claude_code_telegram_kit.Applier.Leaf.{byte_length}
use claude_code_telegram_kit.Applier.Ledger.{
  restore_read, StateFile, state_size_ok, read_state, write_state, Codec, state_hash, same_hash,
  parses, Restore, restored, already, conflicting, threw, restore_bytes, restore_managed_ledger,
}

-- the hash of the ledger file, and none within for a missing one; none where it cannot be read
unfoldable pub hash_of_read : Codec → Option (Option String) → Option (Option String)
hash_of_read c none = none
hash_of_read c (some bytes) = some (state_hash c.hash bytes)

abbrev pub ledger_hash : Codec → Option (StateFile String) → Option (Option String)
ledger_hash c file = hash_of_read c (read_state file)

-- neither a conflict nor a throw
unfoldable pub is_done : Restore → Bool
is_done restored = true
is_done already = true
is_done conflicting = false
is_done threw = false

unfoldable pub is_restorable : Codec → Option String → Bool
is_restorable c none = true
is_restorable c (some bytes) = is_some (parses c bytes) && state_size_ok (byte_length bytes)

pub same_hash-eq : (a b : Option String) → same_hash a b ≡ true → a ≡ b
same_hash-eq none none h = refl
same_hash-eq none (some b) h = ground arith
same_hash-eq (some a) none h = ground arith
same_hash-eq (some a) (some b) h = ground (arith, eq_iff a b)

pub same_hash_refl : (a : Option String) → same_hash a a ≡ true
same_hash_refl none = refl
same_hash_refl (some a) = eq_refl a

pub ledger_hash-write_state :
    (c : Codec) (old : Option (StateFile String)) (bytes : String)
    → (write_state old bytes).1 ≡ true
    → ledger_hash c (write_state old bytes).0 ≡ some (some (c.hash bytes))
unfolding write_state read_state hash_of_read state_hash
ledger_hash-write_state c old bytes h = elim (Bool-cases (state_size_ok (byte_length bytes))) [
  | inl small ↦ rw (small, small) refl
  | inr large ↦ ground arith
]

restore_bytes_sound :
    (c : Codec) (file : Option (StateFile String)) (before : Option String)
    → is_done (restore_bytes c file before).1 ≡ true
    → ledger_hash c (restore_bytes c file before).0 ≡ some (state_hash c.hash before)
unfolding restore_bytes is_done hash_of_read state_hash read_state
restore_bytes_sound c file none h = refl
restore_bytes_sound c file (some bytes) h = elim (Bool-cases (is_some (parses c bytes))) [
  | inl known ↦ elim (Bool-cases (write_state file bytes).1) [
    | inl ok ↦ rw known (ledger_hash-write_state c file bytes ok)
    | inr failed ↦ ground arith
  ]
  | inr unknown ↦ ground arith
]

restore_bytes_complete :
    (c : Codec) (file : Option (StateFile String)) (before : Option String)
    → is_restorable c before ≡ true
    → is_done (restore_bytes c file before).1 ≡ true
unfolding restore_bytes is_done is_restorable write_state
restore_bytes_complete c file none h = refl
restore_bytes_complete c file (some bytes) h = ground arith

restore_read_sound :
    (c : Codec) (file : Option (StateFile String)) (before : Option String) (after : String)
    (current : Option (Option String))
    → read_state file ≡ current
    → is_done (restore_read c file before after current).1 ≡ true
    → ledger_hash c (restore_read c file before after current).0 ≡ some (state_hash c.hash before)
unfolding restore_read is_done hash_of_read
restore_read_sound c file before after none e h = ground arith
restore_read_sound c file before after (some current) e h =
    elim (Bool-cases (same_hash (state_hash c.hash current) (state_hash c.hash before))) [
      | inl same ↦
          rw (same, e)
            (ap (λ s. some s)
              (same_hash-eq (state_hash c.hash current) (state_hash c.hash before) same))
      | inr other ↦ elim (Bool-cases (same_hash (state_hash c.hash current) (some after))) [
        | inl ours ↦ rw (other, ours) (restore_bytes_sound c file before (rw (other, ours) at h))
        | inr theirs ↦ ground arith
      ]
    ]

-- A restoring that is done leaves a ledger with the hash it had before.
pub restore_sound :
    (c : Codec) (file : Option (StateFile String)) (before : Option String) (after : String)
    → is_done (restore_managed_ledger c file before after).1 ≡ true
    → ledger_hash c (restore_managed_ledger c file before after).0 ≡ some (state_hash c.hash before)
restore_sound c file before after h =
    restore_read_sound c file before after (read_state file) refl h

restore_read_complete :
    (c : Codec) (file : Option (StateFile String)) (before : Option String) (after : String)
    (current : Option (Option String))
    → is_restorable c before ≡ true
    → (hash_of_read c current ≡ some (state_hash c.hash before))
      ⊎ (hash_of_read c current ≡ some (some after))
    → is_done (restore_read c file before after current).1 ≡ true
unfolding restore_read is_done hash_of_read
restore_read_complete c file before after none small (inl e) = ground arith
restore_read_complete c file before after none small (inr e) = ground arith
restore_read_complete c file before after (some current) small (inl e) =
    let known : state_hash c.hash current ≡ state_hash c.hash before = ground arith in
    rw (known, same_hash_refl (state_hash c.hash before)) refl
restore_read_complete c file before after (some current) small (inr e) =
    let known : state_hash c.hash current ≡ some after = ground arith in
    elim (Bool-cases (same_hash (state_hash c.hash current) (state_hash c.hash before))) [
      | inl same ↦ rw same refl
      | inr other ↦
          let ours : same_hash (state_hash c.hash current) (some after) ≡ true =
            rw known (eq_refl after) in
          rw (other, ours) (restore_bytes_complete c file before small)
    ]

-- A ledger as it was before, or as the applier would leave it, is restored.
pub restore_complete :
    (c : Codec) (file : Option (StateFile String)) (before : Option String) (after : String)
    → is_restorable c before ≡ true
    → (ledger_hash c file ≡ some (state_hash c.hash before))
      ⊎ (ledger_hash c file ≡ some (some after))
    → is_done (restore_managed_ledger c file before after).1 ≡ true
restore_complete c file before after small h =
    restore_read_complete c file before after (read_state file) small h
