-- ===== src/Disclosure/Finish/Deliveries.antt =====
-- How often a turn delivers its final message.
use claude_code_telegram_kit.Prelude.{
  ℕ, suc, ◌+◌, ◌-◌, ◌≤◌, String, Bool, true, false, not, ◌≡◌, refl, inl, inr, List, [], ◌∷◌, ◌++◌,
  arith, if◌then◌else◌, ltb, Bool-cases,
}
use claude_code_telegram_kit.Disclosure.Turns.{shows_agents}
use claude_code_telegram_kit.Disclosure.Finish.{
  FinalDeliveryOutcome, delivered, unconfirmed, too_large, refused_final, Ending, Finish,
  stop_failure, stop_silent, stop_with, Meanwhile, Delivery, final_message, too_long_notice,
  runtime_failure, finished, max_unified_content_characters, Finished, remove, leave,
  deliver_failure, too_long, after_delivery, deliver, finish_message, finish_shown, finish_turn,
  finish_all,
}

unfoldable pub finals : List Delivery → ℕ
finals [] = 0
finals (final_message text ∷ ds) = suc (finals ds)
finals (too_long_notice ∷ ds) = finals ds
finals (runtime_failure ∷ ds) = finals ds

-- how many final deliveries a turn may still make
abbrev allowance : Bool → ℕ → ℕ
allowance true retries = 0
allowance false retries = 2 - retries

-- A return that delivers no more than the turn allowed before, less what it allows afterwards.
abbrev IsWithin : ℕ → Finished → Type 0
IsWithin before (e, ds, disposition) =
    (finals ds + allowance e.attempted e.retries ≤ before) × (e.retries ≤ 1)

branch-IsWithin :
    (b : Bool) (n : ℕ) (x y : Finished)
    → (b ≡ true → IsWithin n x)
    → (b ≡ false → IsWithin n y)
    → IsWithin n (if b then x else y)
branch-IsWithin true n x y first second = first refl
branch-IsWithin false n x y first second = second refl

allowance_of_fresh : (b : Bool) (retries : ℕ) → b ≡ false → allowance b retries ≡ 2 - retries
allowance_of_fresh b retries h = rw h refl

finals-append : (a b : List Delivery) → finals (a ++ b) ≡ finals a + finals b
unfolding finals
finals-append [] b = omega arith
finals-append (final_message t ∷ a) b = omega (arith, finals-append a b)
finals-append (too_long_notice ∷ a) b = finals-append a b
finals-append (runtime_failure ∷ a) b = finals-append a b

leave_counts : (e : Ending) → ((leave e).attempted ≡ e.attempted) × ((leave e).retries ≡ e.retries)
unfolding leave remove
leave_counts e = (ground arith, ground arith)

left-IsWithin :
    (e : Ending) (ds : List Delivery) (before : ℕ)
    → finals ds + allowance e.attempted e.retries ≤ before
    → e.retries ≤ 1
    → IsWithin before (leave e, ds, finished)
left-IsWithin e ds before h few = let (a, r) = leave_counts e in rw (a, r) (h, few)

deliver_failure-IsWithin :
    (m : Meanwhile) (e : Ending)
    → e.retries ≤ 1
    → IsWithin (allowance e.attempted e.retries) (deliver_failure m e)
unfolding deliver_failure remove finals
deliver_failure-IsWithin m e few = (ground arith, ground arith)

finals_with_notice :
    (m : Meanwhile) (ds : List Delivery)
    → finals (if m.authorized then ds ++ too_long_notice ∷ [] else ds) ≡ finals ds
unfolding finals
finals_with_notice m ds = ground (arith, finals-append ds (too_long_notice ∷ []))

too_long-IsWithin :
    (m : Meanwhile) (before : List Delivery) (e : Ending)
    → finals before ≤ 1
    → e.attempted ≡ true
    → e.retries ≤ 1
    → IsWithin (2 - e.retries) (too_long m before e)
unfolding too_long
too_long-IsWithin m before e once tried few = elim (Bool-cases (ltb e.retries 1)) [
  | inl again ↦ rw again (ground arith, ground arith)
  | inr over ↦ rw over (
      left-IsWithin e (if m.authorized then before ++ too_long_notice ∷ [] else before)
        (2 - e.retries) (rw (finals_with_notice m before, tried) (omega (arith, once, few))) few)
]

after_delivery-IsWithin :
    (m : Meanwhile) (text : String) (outcome : FinalDeliveryOutcome) (e : Ending)
    → e.attempted ≡ true
    → e.retries ≤ 1
    → IsWithin (2 - e.retries) (after_delivery m (final_message text ∷ []) outcome e)
unfolding after_delivery finals
after_delivery-IsWithin m text too_large e tried few =
    too_long-IsWithin m (final_message text ∷ []) e (omega arith) tried few
after_delivery-IsWithin m text delivered e tried few =
    left-IsWithin e (final_message text ∷ []) (2 - e.retries) (rw tried (omega (arith, few))) few
after_delivery-IsWithin m text unconfirmed e tried few =
    left-IsWithin e (final_message text ∷ []) (2 - e.retries) (rw tried (omega (arith, few))) few
after_delivery-IsWithin m text refused_final e tried few =
    left-IsWithin e (final_message text ∷ []) (2 - e.retries) (rw tried (omega (arith, few))) few

deliver-IsWithin :
    (m : Meanwhile) (text : String) (size : ℕ) (e : Ending)
    → e.retries ≤ 1
    → IsWithin (2 - e.retries) (deliver m text size e)
unfolding deliver finals
deliver-IsWithin m text size e few =
    let tried = record e { attempted = true } in
    let limit = 2 - e.retries in
    branch-IsWithin (ltb max_unified_content_characters size) limit (too_long m [] tried)
      (if m.authorized
        then after_delivery m (final_message text ∷ []) m.outcome tried
        else (leave tried, [], finished))
      (λ long. too_long-IsWithin m [] tried (omega arith) refl few)
      (λ fits.
        branch-IsWithin m.authorized limit
          (after_delivery m (final_message text ∷ []) m.outcome tried) (leave tried, [], finished)
          (λ may. after_delivery-IsWithin m text m.outcome tried refl few)
          (λ barred. left-IsWithin tried [] limit (omega arith) few))

finish_message-IsWithin :
    (m : Meanwhile) (f : Finish) (e : Ending)
    → e.retries ≤ 1
    → IsWithin (allowance e.attempted e.retries) (finish_message m f e)
unfolding finish_message finals
finish_message-IsWithin m stop_failure e few = deliver_failure-IsWithin m e few
finish_message-IsWithin m stop_silent e few =
    let limit = allowance e.attempted e.retries in
    branch-IsWithin e.attempted limit (e, [], finished) (leave e, [], finished)
      (λ done. (omega arith, few)) (λ fresh. left-IsWithin e [] limit (omega arith) few)
finish_message-IsWithin m (stop_with text size) e few =
    let limit = allowance e.attempted e.retries in
    branch-IsWithin e.attempted limit (e, [], finished)
      (if m.delivers then deliver m text size e else (leave e, [], finished))
      (λ done. (omega arith, few))
      (λ fresh.
        branch-IsWithin m.delivers limit (deliver m text size e) (leave e, [], finished)
          (λ delivers.
            let (within, few') = deliver-IsWithin m text size e few in
            (omega (arith, within, allowance_of_fresh e.attempted e.retries fresh), few'))
          (λ silent. left-IsWithin e [] limit (omega arith) few))

finish_shown-IsWithin :
    (m : Meanwhile) (f : Finish) (e : Ending)
    → e.retries ≤ 1
    → IsWithin (allowance e.attempted e.retries) (finish_shown m f e)
unfolding finish_shown finals
finish_shown-IsWithin m stop_failure e few = deliver_failure-IsWithin m e few
finish_shown-IsWithin m stop_silent e few = (omega arith, few)
finish_shown-IsWithin m (stop_with text size) e few = (omega arith, few)

finish_turn-IsWithin :
    (m : Meanwhile) (f : Finish) (e : Ending)
    → e.retries ≤ 1
    → IsWithin (allowance e.attempted e.retries) (finish_turn m f e)
unfolding finish_turn finals remove
finish_turn-IsWithin m f e few =
    let limit = allowance e.attempted e.retries in
    let quiet = record e { typing = false } in
    let lost = record e { held = false; typing = false } in
    let last = if e.killed then (remove e, [], finished) else finish_message m f quiet in
    let held_on = if not m.still_held then (lost, [], finished) else last in
    branch-IsWithin (not e.held) limit (e, [], finished)
      (if shows_agents e.phase then finish_shown m f e else held_on) (λ away. (omega arith, few))
      (λ here.
        branch-IsWithin (shows_agents e.phase) limit (finish_shown m f e) held_on
          (λ shown. finish_shown-IsWithin m f e few)
          (λ direct.
            branch-IsWithin (not m.still_held) limit (lost, [], finished) last
              (λ gone. (omega arith, few))
              (λ there.
                branch-IsWithin e.killed limit (remove e, [], finished) (finish_message m f quiet)
                  (λ dead. (omega arith, few)) (λ alive. finish_message-IsWithin m f quiet few))))

-- Whatever Stop and StopFailure hooks a turn gets, with whatever texts and whatever happens while
-- they wait: it delivers a final message at most twice in all, once after its one retry, and not
-- at all after a delivery that was not answered by a retry.
pub finals-finish_all :
    (fs : List (Meanwhile × Finish)) (e : Ending)
    → e.retries ≤ 1
    → finals (finish_all fs e).1 ≤ (if e.attempted then 0 else 2 - e.retries)
unfolding finish_all finals
finals-finish_all [] e few = omega arith
finals-finish_all ((m, f) ∷ fs) e few =
    let turn = finish_turn m f e in
    let (within, few') = finish_turn-IsWithin m f e few in
    rw (finals-append turn.1 (finish_all fs turn.0).1)
      (ground (arith, within, finals-finish_all fs turn.0 few'))
