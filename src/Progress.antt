-- ===== src/Progress.antt =====
-- The progress bubble of a turn (packages/telegram-renderer-mcp/src): what a step looks like, the
-- foreground steps, and the background agents.
pub mod Steps
pub mod Verbs
pub mod Turn
pub mod Render
pub mod Background
pub mod AgentsText
mod Tests
