-- ===== src/Lib.antt =====
-- A model of claude-code-telegram-kit: sidecar servers that show the progress of Claude Code in
-- Telegram and let a chat control its sessions. The renderer server gets hooks of the agent, keeps
-- one turn per prompt, and draws one message, the bubble, that is edited as tools run; at the end of
-- a turn it delivers the final message. The control server keeps titles of sessions, the numbered
-- lists of sessions that chats were shown, and watches the transcripts for commands and quota limits.
-- Facts that a review of a turn proposes are applied to the native memory of the agent under a journal.
--
-- Parts and files, with the paths of the code:
--   * Progress: packages/telegram-renderer-mcp/src/progress-state.ts, background-progress.ts,
--     progress-labels.ts. Progress/Steps and Verbs hold the fixed texts, Progress/Turn the methods of
--     TurnProgress, Progress/Render its text, Progress/Background the methods of BackgroundProgress,
--     Progress/AgentsText its text. A method returns the new state and its result.
--   * Disclosure: packages/telegram-renderer-mcp/src/progress-disclosure.ts, progress-transport.ts.
--     Routes is the table of background tasks, Incidents is reserveRuntimeIncident, Bubble is flush,
--     Turns is the map of turns with the hooks (Hooks, Outcomes, Binding), Finish is finishTurn,
--     Transport is the reading of the answers of Telegram. The hooks use Progress and Routes; a flush
--     that a hook puts at the end of a turn's chain is a step of Bubble, as are a drop of the turn and
--     its going over to background agents.
--   * Title: packages/session-control-mcp/src/session-title-state.ts. State, with State/Words, is the
--     record with its check and its written form, State/Store the operations on the file of a
--     session, State/Machine their sequences.
--   * Selection: packages/session-control-mcp/src/session-selection.ts.
--   * Usage: packages/session-control-mcp/src/usage-queue-watcher.ts. Lines is readAppendedLines,
--     Claims is createControlMessageClaims, Quota is the quota state and the body of the loop.
--   * Applier: packages/shared/src/memory-applier.ts, memory-applier-state.ts, memory-turn-authority.ts
--     and the check of memory-review-proposal.ts. Names is the patterns, Leaf the files of the memory and
--     their compared writes, Ledger the ledger of owned files, Journal the journals and
--     rollbackJournal, Binding is validateBinding, Apply what an apply reads and decides, Run its writes,
--     Recover the recovery, Entry the two exported operations with their options and claims. Outcome says
--     what a result promises.
--   * Control: packages/session-control-mcp/src/control-command.ts. Challenge is
--     ConfirmationChallengeStore; the parsing of messages is not modelled.
--   * Heartbeat: packages/telegram-renderer-mcp/src/typing-heartbeat.ts, as steps of one manager.
--   * Prelude: lists, texts, JavaScript's Map and Set, JSON values and the pattern of a session id.
--
-- State is passed along: an operation takes the state and returns the new one with its result. An
-- asynchronous function is cut where it waits, or what happens meanwhile is an input. A Map and a Set
-- keep insertion order. The length of a text counts UTF-16 units, as in the code. Numbers are natural;
-- times are in ms, resets of quotas in seconds. A thrown error is a value: none, `thrown` or `refused`.
--
-- The writes of an apply are a list of actions, each of which works, throws before or after its effect,
-- or is where the process ends; an end after an effect is an end before the next action. A write to
-- a file, with its temporary file and rename, is one action. Before each action other processes, or the
-- callback beforeWrite, may change the memory (`others`); the roll-back is taken as one step that meets
-- no failing call, no other writer and no end of the process.
--
-- Loops that are no structural recursion run on fuel, the size of the collection that they shrink:
-- drop_oldest in Progress/Background, prune_oldest in Disclosure/Routes, evict_down in
-- Disclosure/Turns. Each round removes an element, so the fuel is enough; the bounds that are stated of
-- their results would fail if it were not.
--
-- Not modelled: the network, files, locks, processes and timers, the schemas of the hooks, regular
-- expressions and parsers whose results come as inputs, the digest that names a snapshot file (a
-- parameter), SHA-256, JSON and the order of localeCompare in the applier (parameters), the texts of
-- the errors that it reports, and the parts of the code that the files above do not name: the memory review, the
-- session catalog, the dispatch of commands, and the rendering of final messages.
pub mod Applier
pub mod Control
pub mod Disclosure
pub mod Heartbeat
pub mod Prelude
pub mod Progress
pub mod Selection
pub mod Title
pub mod Usage
