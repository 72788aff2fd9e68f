-- ===== src/Disclosure/Turns/Tests.antt =====
-- The theorems on hooks, endings and answers at concrete inputs.
use claude_code_telegram_kit.Prelude.{
  ◌≤◌, none, some, true, false, ◌≡◌, refl, List, [], ◌∷◌, arith, eq_iff,
}
use claude_code_telegram_kit.Prelude.JsMap
use claude_code_telegram_kit.Prelude.JsSet
use claude_code_telegram_kit.Disclosure.Bubble.{no_bubble}
use claude_code_telegram_kit.Disclosure.Routes.{
  BackgroundTaskRoute, no_routes, background_route_key,
}
use claude_code_telegram_kit.Disclosure.Routes.Aliases.{IsRouted}
use claude_code_telegram_kit.Disclosure.Turns.{
  max_retained_turns, max_active_background_turns, foreground, World, is_active_background,
  is_inactive, count,
}
use claude_code_telegram_kit.Disclosure.Turns.Hooks.{ToolInput}
use claude_code_telegram_kit.Disclosure.Turns.Binding.{
  DirectMessage, TerminalTaskNotification, direct, BindInput, key_of, find, conflicts, route_key,
  live, route_of, bind_message, bind_notification,
}
use claude_code_telegram_kit.Disclosure.Turns.Runs.{
  HookEvent, binds, tool, success, run, run-IsRouted, bind_message_lem,
}
use claude_code_telegram_kit.Progress.Background.{AgentTerminalStatus}
use claude_code_telegram_kit.Disclosure.Turns.Consumption.{bind_notification_once}
use claude_code_telegram_kit.Disclosure.Finish.{delivered, Ending, stop_with, Meanwhile, finish_all}
use claude_code_telegram_kit.Disclosure.Finish.Deliveries.{finals, finals-finish_all}

abbrev hello : DirectMessage
hello = record { chat_id = "42"; message_id = "7"; body = "hello"; is_control = false }

abbrev opening : BindInput
opening = record {
  session_id = "s";
  prompt_id = "p";
  prompt = direct hello;
  tracks = false;
  watches = false;
}

abbrev agent_tool : ToolInput
agent_tool = record {
  session_id = "s";
  prompt_id = "p";
  tool_use_id = "t1";
  tool_name = "Task";
  agent_id = none;
  task_status = some "async_launched";
  task_id = some "a";
}

abbrev hooks : List HookEvent
hooks = binds 1000 true opening ∷ tool 1001 agent_tool none ∷ success agent_tool ∷ []

abbrev empty_world : World
empty_world = record { turns = []; routing = no_routes }

no_routes-IsRouted : IsRouted no_routes
unfolding JsMap.get
no_routes-IsRouted = record { listed = λ alias key e. cc }

run-IsRouted_example : IsRouted (run hooks empty_world).routing
run-IsRouted_example = run-IsRouted hooks empty_world no_routes-IsRouted

bind_message_lem_example :
    (count is_active_background (bind_message true opening hello empty_world).turns
      ≤ max_active_background_turns)
    × (count is_inactive (bind_message true opening hello empty_world).turns ≤ max_retained_turns)
bind_message_lem_example = bind_message_lem opening hello empty_world refl

abbrev shown_turn : Ending
shown_turn = record {
  held = true;
  phase = foreground;
  killed = false;
  has_active_agents = false;
  failure_attempted = false;
  attempted = false;
  retries = 0;
  background = false;
  typing = true;
  bubble = no_bubble;
}

abbrev calm : Meanwhile
calm = record {
  still_held = true;
  authorized = true;
  reserved = true;
  delivers = true;
  outcome = delivered;
}

finals-finish_all_example :
    finals
      (finish_all
        ((calm, stop_with "too long" 100001) ∷ (calm, stop_with "done" 4) ∷ [])
        shown_turn).1
    ≤ 2
finals-finish_all_example =
    finals-finish_all ((calm, stop_with "too long" 100001) ∷ (calm, stop_with "done" 4) ∷ [])
      shown_turn (omega arith)

abbrev task_route : BackgroundTaskRoute
task_route = record {
  chat_id = "42";
  quote_message_id = "7";
  owner_key = "s/p";
  tool_use_id = "t1";
  task_aliases = "s/a" ∷ [];
  depth = 1;
  expires_at = 5000;
}

abbrev task_world : World
task_world = record {
  turns = [];
  routing = record { routes = ("s/t1", task_route) ∷ []; aliases = ("s/a", "s/t1") ∷ [] };
}

task_world-IsRouted : IsRouted task_world.routing
unfolding JsMap.get JsSet.has
task_world-IsRouted = record {
  listed = λ alias key e. ground (arith, eq_iff "s/a" alias, eq_iff "s/t1" key);
}

abbrev task_ended : TerminalTaskNotification
task_ended = record {
  tool_use_id = some "t1";
  task_id = some "a";
  status = AgentTerminalStatus.completed;
}

bind_notification_once_example :
    let w' = bind_notification 1000 true opening task_ended task_world in
    bind_notification 2000 true opening task_ended w' ≡ w'
unfolding route_of route_key find key_of conflicts live JsMap.get JsSet.has background_route_key
bind_notification_once_example =
    bind_notification_once 1000 2000 true opening opening task_ended task_world "s/t1" task_route
      task_world-IsRouted refl refl refl
