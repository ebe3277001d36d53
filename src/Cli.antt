-- ===== src/Cli.antt =====
-- The command line: src/cli.c.
pub mod Args
pub mod Items
pub mod Inspect
pub mod Counts
pub mod Main
pub mod Stats
pub mod Run
pub mod Tests
