-- ===== src/Fs.antt =====
-- internal/fs: the operations on files and directories that the tools of the server offer.
pub mod Types
pub mod Reading
pub mod Writing
pub mod Moving
mod Tests
