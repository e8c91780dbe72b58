-- ===== src/Meta.antt =====
-- src/meta.rs: the meta commands of the text protocol. `Flags` has the flags and their validators,
-- `Parse` the parser of the command lines and the echo of flags.
pub mod Flags
pub mod Parse
pub mod Handlers
