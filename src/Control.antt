-- ===== src/Control.antt =====
-- packages/session-control-mcp/src/control-command.ts: what a chat may ask of its sessions.
pub mod Challenge
mod Tests
