-- ===== src/Mcp.antt =====
-- internal/mcp: from the bytes that a client sends to the handlers and back.
pub mod Transport
pub mod Validation
pub mod Revision
pub mod Registry
pub mod Router
pub mod Server
pub mod Tools
pub mod Initialize
