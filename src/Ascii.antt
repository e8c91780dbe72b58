-- ===== src/Ascii.antt =====
-- src/ascii.rs: the memcached text protocol. `Words` has the standard library's splitting at white
-- space, `Line` finds the end of a line, `Command` has the parsed commands,
-- `Validate` the check of keys, `Parse` the parsers and `Data` the readers of data blocks.
pub mod Words
pub mod Line
pub mod Command
pub mod Validate
pub mod Parse
pub mod Data
pub mod Handlers
pub mod Dispatch
pub mod Session
