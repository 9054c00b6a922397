-- ===== src/Shared.antt =====
-- packages/shared/src: what the editor, the backend and the assistant share.
pub mod Schema
pub mod Text
pub mod Digits
pub mod Amount
pub mod Roles
mod Tests
