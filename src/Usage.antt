-- ===== src/Usage.antt =====
-- packages/session-control-mcp/src/usage-queue-watcher.ts: the watcher of the transcripts.
pub mod Lines
pub mod Claims
pub mod Quota
mod Tests
