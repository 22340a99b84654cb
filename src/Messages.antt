-- ===== src/Messages.antt =====
-- messages/: the request of the Messages API and what the proxy does to it.
pub mod Content
pub mod Rewrite
pub mod Images
pub mod Writes
pub mod Rewritten
pub mod Validate
pub mod Context
pub mod Accepted
pub mod Normalized
pub mod Recent
pub mod Wire
