-- ===== src/Mcp.antt =====
-- packages/mcp/src: the assistant's server, which signs in the owner's name.
pub mod Gate
pub mod Drafts
pub mod Confirmation
pub mod Tokens
pub mod Limits
pub mod Money
pub mod Inspect
pub mod Deploy
pub mod Intent
mod Tests
