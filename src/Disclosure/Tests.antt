-- ===== src/Disclosure/Tests.antt =====
-- The theorems on routes, incidents and the bubble at concrete inputs.
use claude_code_telegram_kit.Prelude.{
  ◌+◌, ◌*◌, if◌then◌else◌, is_some, not, ◌&&◌, ◌≤◌, ◌<◌, String, none, some, true, false, ◌≡◌, refl,
  List, [], ◌∷◌, arith, eq_iff, length,
}
use claude_code_telegram_kit.Prelude.JsMap
use claude_code_telegram_kit.Prelude.JsSet
use claude_code_telegram_kit.Disclosure.Routes.{
  max_background_task_routes, BackgroundTaskRoute, Routing, prune,
}
use claude_code_telegram_kit.Disclosure.Routes.Aliases.{IsRouted}
use claude_code_telegram_kit.Disclosure.Routes.Pruning.{prune_lem}
use claude_code_telegram_kit.Disclosure.Incidents.{
  runtime_incident_ttl_ms, RuntimeFailure, unexpired, reset_ms, reset_expiry, incident_expiry,
  is_live, reserve, Incident, reserve_all, reserve_once,
}
use claude_code_telegram_kit.Disclosure.Bubble.{
  sent, uncertain, gone, have, no_bubble, Visible, edit, send, is_final, attempt_request,
  begin_flush, after_gone, after_edit, after_send, Flow, count_send, proceed, FlowEvent, flush,
  edit_ends, send_ends, drops, edit_ended, send_ended, step, run, at_rest,
}
use claude_code_telegram_kit.Disclosure.Bubble.Sends.{phases, sends-run, sends-run_dropped}
use claude_code_telegram_kit.Prelude.Json
use claude_code_telegram_kit.Prelude.Json.{safe_of}
use claude_code_telegram_kit.Disclosure.Transport.{
  Answer, message, message_id_of, positive_message_id, refused_or_lost, send_outcome,
  unconfirmed_is_last,
}
use claude_code_telegram_kit.Disclosure.Bubble.Final.{uncertain_is_last}

abbrev task_1 : String
task_1 = "s/t1"

abbrev task_2 : String
task_2 = "s/t2"

abbrev route : BackgroundTaskRoute
route = record {
  chat_id = "42";
  quote_message_id = "7";
  owner_key = "s/p";
  tool_use_id = "t1";
  task_aliases = "s/a" ∷ [];
  depth = 1;
  expires_at = 5000;
}

abbrev routing : Routing
routing = record { routes = ("s/t1", route) ∷ []; aliases = ("s/a", "s/t1") ∷ [] }

routing-IsRouted : IsRouted routing
unfolding JsMap.get JsSet.has
routing-IsRouted = record {
  listed = λ alias key e. ground (arith, eq_iff "s/a" alias, eq_iff "s/t1" key);
}

prune_lem_example :
    (length (prune 4000 routing).routes ≤ max_background_task_routes)
    × (JsMap.get (prune 4000 routing).routes "s/t1" ≡ some route
        → (JsMap.get routing.routes "s/t1" ≡ some route) × (4000 < route.expires_at))
prune_lem_example = prune_lem 4000 routing "s/t1" route

abbrev limit : RuntimeFailure
limit = record { error = "rate_limit"; resets_at = some 900 }

abbrev overload : RuntimeFailure
overload = record { error = "overloaded"; resets_at = none }

abbrev limit_seen : Incident
limit_seen = record { at = 100000; chat_id = "42"; failure = limit }

abbrev overload_seen : Incident
overload_seen = record { at = 200000; chat_id = "42"; failure = overload }

reserve_once_example :
    (100000 + runtime_incident_ttl_ms ≤ incident_expiry 100000 limit)
    × ((reserve 800000 "42" limit
          (reserve_all (overload_seen ∷ []) (reserve 100000 "42" limit []).0)).1
        ≡ false)
unfolding reserve unexpired is_live JsMap.get incident_expiry reset_expiry reset_ms
reserve_once_example =
    reserve_once limit_seen (overload_seen ∷ []) [] 800000 refl (ground arith) (ground arith)

abbrev one_step : Visible
one_step = record { has_steps = true; closed = false; text = "Reading" }

abbrev flow_events : List FlowEvent
flow_events = flush one_step true ∷ send_ends (sent 9) ∷ []

sends-run_example : (run at_rest flow_events).sends ≤ 2 * phases (run at_rest flow_events).agents
sends-run_example = sends-run flow_events

abbrev sending : Flow
sending = record { agents = false; bubble = no_bubble; flight = some (send "Reading" 0); sends = 1 }

uncertain_is_last_example :
    ((run (step sending (send_ends uncertain)) flow_events).flight ≡ none)
    × ((run (step sending (send_ends uncertain)) flow_events).sends ≡ sending.sends)
unfolding run step begin_flush proceed send_ended after_send is_final
uncertain_is_last_example = uncertain_is_last sending "Reading" 0 flow_events refl refl

-- a bubble whose edit is in flight
abbrev editing : Flow
editing = record {
  agents = false;
  bubble = record {
    message_id = some 9;
    state = have;
    replacement_used = false;
    last_sent_text = some "Reading";
  };
  flight = some (edit 9 "Writing" 0);
  sends = 1;
}

sends-run_dropped_example :
    (run (step editing drops) (edit_ends gone ∷ [])).sends
    ≤ editing.sends
      + (if is_some editing.flight && not editing.bubble.replacement_used then 1 else 0)
unfolding run step edit_ended proceed after_edit after_gone
sends-run_dropped_example = sends-run_dropped editing (edit_ends gone ∷ []) refl

-- The edit of a dropped turn that finds its message gone sends a new bubble.
dropped_sends_again : (run (step editing drops) (edit_ends gone ∷ [])).sends ≡ 2
unfolding run step edit_ended proceed after_edit after_gone attempt_request count_send
dropped_sends_again = refl

abbrev nameless : Answer
nameless = record {
  status = 200;
  ok = true;
  result = message (some (Json.number 0));
  description = "";
}

unconfirmed_is_last_example :
    ((run
        (step sending (send_ends (send_outcome (some nameless))))
        (flush one_step true ∷ [])).flight
      ≡ none)
    × ((run
          (step sending (send_ends (send_outcome (some nameless))))
          (flush one_step true ∷ [])).sends
        ≡ 1)
unfolding run step begin_flush proceed send_ended after_send is_final send_outcome message_id_of
    positive_message_id safe_of refused_or_lost
unconfirmed_is_last_example =
    unconfirmed_is_last sending "Reading" 0 (some nameless) (flush one_step true ∷ []) refl
      (λ id h. ground arith) refl
