-- ===== src/Context.antt =====
-- packages/backend/src/automation/context.service.ts: the variables that automations share in the
-- context of a vault.
pub mod Slots
pub mod Expand
mod Tests
