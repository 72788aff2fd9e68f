-- ===== src/Title.antt =====
-- packages/session-control-mcp/src/session-title-*.ts: automatic titles of sessions.
pub mod State
mod Tests
