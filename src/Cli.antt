-- ===== src/Cli.antt =====
-- src/cli: the decisions of the commands.
pub mod Trim
pub mod Exit
pub mod Grammar
pub mod Generations
