-- ===== src/Disclosure.antt =====
-- packages/telegram-renderer-mcp/src/progress-disclosure.ts
pub mod Routes
pub mod Incidents
pub mod Bubble
pub mod Turns
pub mod Transport
pub mod Finish
mod Tests
