-- ===== src/Command.antt =====
-- cmd/server: the program that is started.
pub mod Boot
pub mod Cli
mod Tests
