-- ===== src/Applier.antt =====
-- packages/shared/src/memory-applier.ts and memory-applier-state.ts: reviewed proposals are applied
-- to the files of the native memory, under a journal that a crash leaves behind.
pub mod Names
pub mod Leaf
pub mod Ledger
pub mod Journal
pub mod Apply
pub mod Run
pub mod Recover
pub mod Outcome
pub mod Binding
pub mod Entry
mod Tests
