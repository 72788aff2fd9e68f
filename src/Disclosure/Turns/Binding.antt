-- ===== src/Disclosure/Turns/Binding.antt =====
-- packages/telegram-renderer-mcp/src/progress-disclosure.ts: `bindTurn`. The parsed prompt is an
-- input: a direct message, a notification that a background task ended, or neither; with a message
-- comes whether it is a control command or a reply of the model menu.
use claude_code_telegram_kit.Prelude.{
  ℕ, String, Option, none, some, Bool, true, false, not, ◌&&◌, ◌||◌, [], ◌∷◌, str_eq, if◌then◌else◌,
  ltb, leb, length,
}
use claude_code_telegram_kit.Prelude.JsMap
use claude_code_telegram_kit.Prelude.JsMap.{JsMap}
use claude_code_telegram_kit.Prelude.JsSet
use claude_code_telegram_kit.Progress.Turn.{start}
use claude_code_telegram_kit.Progress.Background
use claude_code_telegram_kit.Progress.Background.{AgentTerminalStatus, BackgroundProgress, failed}
use claude_code_telegram_kit.Disclosure.Bubble.{no_bubble}
use claude_code_telegram_kit.Disclosure.Routes.{
  BackgroundTaskRoute, Routing, background_route_key, delete_route, prune,
}
use claude_code_telegram_kit.Disclosure.Turns.{
  foreground, Turn, World, turn_key, shows_agents, is_active_background, evict,
}
use claude_code_telegram_kit.Disclosure.Turns.Hooks.{put_turn, touch_if}

pub record DirectMessage : Type 0 where
  pub chat_id : String
  pub message_id : String
  pub body : String
  pub is_control : Bool

pub record TerminalTaskNotification : Type 0 where
  pub tool_use_id : Option String
  pub task_id : Option String
  pub status : AgentTerminalStatus

pub data Prompt : Type 0 where
  direct : DirectMessage → Prompt
  notification : TerminalTaskNotification → Prompt
  neither : Prompt

-- `tracks` and `watches` say that the dependencies and the transcript path for artifacts and for
-- runtime failures are there.
pub record BindInput : Type 0 where
  pub session_id : String
  pub prompt_id : String
  pub prompt : Prompt
  pub tracks : Bool
  pub watches : Bool

unfoldable pub key_of : String → Option String → Option String
key_of session_id none = none
key_of session_id (some id) = some (background_route_key session_id id)

-- `map.get(key)`, where there is a key
unfoldable pub find {ℓ} : {V : Type ℓ} → JsMap V → Option String → Option V
find m none = none
find m (some key) = JsMap.get m key

-- the direct route is there, but the notification names another task than it does
unfoldable pub conflicts : BackgroundTaskRoute → String → Option String → Option String → Bool
conflicts route direct_key none alias_route = false
conflicts route direct_key (some alias) alias_route =
    (ltb 0 (length route.task_aliases) && not (JsSet.has route.task_aliases alias))
    || (elim alias_route [ none ↦ false | some canonical ↦ not (str_eq canonical direct_key) ])

-- `routeToConsume`, if there is no conflict
unfoldable pub route_key :
    Option String → Option BackgroundTaskRoute → Option String → Option String → Option String
route_key (some direct_key) (some route) alias alias_route =
    if conflicts route direct_key alias alias_route then none else some direct_key
route_key direct_key _ alias alias_route = alias_route

unfoldable pub live : ℕ → Option BackgroundTaskRoute → Option BackgroundTaskRoute
live now none = none
live now (some route) = if leb route.expires_at now then none else some route

unfoldable pub route_of : Routing → String → TerminalTaskNotification → Option String
route_of r session_id n =
    let direct_key = key_of session_id n.tool_use_id in
    let alias = key_of session_id n.task_id in
    route_key direct_key (find r.routes direct_key) alias (find r.aliases alias)

unfoldable pub opened : BindInput → String → String → String → Turn
opened input chat_id quote_message_id body = record {
  chat_id = chat_id;
  quote_message_id = quote_message_id;
  user_message = body;
  tool_use_ids = [];
  background = false;
  background_depth = 0;
  background_terminal_status = none;
  progress = start (record {
    chat_id = chat_id;
    message_id = quote_message_id;
    session_id = input.session_id;
    prompt_id = input.prompt_id;
  });
  background_progress = Background.empty;
  progress_phase = foreground;
  bubble = no_bubble;
  scheduled = false;
  typing = true;
  watched = input.watches;
  tracked = input.tracks;
  flushes = 0;
}

unfoldable pub is_failed : AgentTerminalStatus → Bool
is_failed failed = true
is_failed _ = false

unfoldable pub opened_by_task : BindInput → BackgroundTaskRoute → AgentTerminalStatus → Turn
opened_by_task input route status = record (opened input route.chat_id route.quote_message_id "") {
  background = true;
  background_depth = route.depth;
  background_terminal_status = some status;
  typing = false;
  watched = is_failed status && input.watches;
  tracked = false;
}

-- A newer direct prompt retires the older direct turns of its chat.
unfoldable pub retire : String → JsMap Turn → JsMap Turn
retire chat_id [] = []
retire chat_id ((key, t) ∷ turns) =
    let rest = retire chat_id turns in
    if str_eq t.chat_id chat_id && not t.background && not (is_active_background t)
    then rest
    else (key, t) ∷ rest

-- the new turn goes to the end, and the oldest ones may go
unfoldable pub insert_turn : String → Turn → JsMap Turn → JsMap Turn
insert_turn key t turns = evict (JsMap.put (JsMap.delete turns key) key t)

-- the agent of the task ends too, if the route knows the task
unfoldable pub end_task_agent :
    String
    → TerminalTaskNotification
    → BackgroundTaskRoute
    → BackgroundProgress
    → BackgroundProgress × Bool
end_task_agent session_id n route b = elim n.task_id [
  | none ↦ (b, false)
  | some task_id ↦
      if JsSet.has route.task_aliases (background_route_key session_id task_id)
      then Background.record_agent_terminal b task_id n.status
      else (b, false)
]

-- what the end of the task changes in the turn that started it
unfoldable pub end_of_task : String → TerminalTaskNotification → BackgroundTaskRoute → Turn → Turn
end_of_task session_id n route owner =
    let task = Background.record_task_terminal owner.background_progress route.tool_use_id in
    let agent = end_task_agent session_id n route task.0 in
    touch_if ((task.1 || agent.1) && shows_agents owner.progress_phase)
      (record owner { background_progress = agent.0 })

unfoldable pub consume : String → TerminalTaskNotification → String → World → World
consume session_id n key w =
    let deleted = delete_route w.routing key in
    let w' = record w { routing = deleted.0 } in
    elim deleted.1 [
      | none ↦ w'
      | some route ↦ elim (JsMap.get w'.turns route.owner_key) [
        | none ↦ w'
        | some owner ↦ put_turn w' route.owner_key (end_of_task session_id n route owner)
      ]
    ]

unfoldable pub bind_message : Bool → BindInput → DirectMessage → World → World
bind_message authorized input message w =
    let key = turn_key input.session_id input.prompt_id in
    let t = opened input message.chat_id message.message_id message.body in
    if message.is_control || not authorized
    then w
    else record w { turns = insert_turn key t (retire message.chat_id w.turns) }

unfoldable pub bind_task :
    Bool → BindInput → TerminalTaskNotification → String → BackgroundTaskRoute → World → World
bind_task authorized input n key route w =
    let w' = consume input.session_id n key w in
    if not authorized then w else record w' {
      turns =
          insert_turn (turn_key input.session_id input.prompt_id)
            (opened_by_task input route n.status) w'.turns;
    }

unfoldable pub bind_notification : ℕ → Bool → BindInput → TerminalTaskNotification → World → World
bind_notification now authorized input n w = elim (route_of w.routing input.session_id n) [
  | none ↦ w
  | some key ↦ elim (live now (JsMap.get w.routing.routes key)) [
    | none ↦ w
    | some route ↦ bind_task authorized input n key route w
  ]
]

-- the part of `bindTurn` after the pruning
unfoldable pub bind_prompt : ℕ → Bool → BindInput → Prompt → World → World
bind_prompt now authorized input (direct message) w = bind_message authorized input message w
bind_prompt now authorized input (notification n) w = bind_notification now authorized input n w
bind_prompt now authorized input neither w = w

-- `bindTurn`
unfoldable pub bind_turn : ℕ → Bool → BindInput → World → World
bind_turn now authorized input w =
    bind_prompt now authorized input input.prompt (record w { routing = prune now w.routing })
