-- ===== src/Mcp/Tools.antt =====
-- internal/mcp/tools: the tools that act on the files, and the two handlers that offer them.
pub mod Arguments
pub mod Outcome
pub mod Schema
pub mod Tool
pub mod Reading
pub mod Writing
pub mod Transfer
pub mod Calling
pub mod Listing
pub mod Conformance
