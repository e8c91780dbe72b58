-- ===== src/Server.antt =====
-- src/lib.rs: the state of the module and the binary connection. `Stats` has the counters,
-- `Handler` what every command handler shares, `Ops` the handlers, `Dispatch` the function
-- `handle`, `Loop` the loop over the frames of a buffer, `Session` the connection with its
-- reads and writes, and `Detect` the detection of the protocol.
pub mod Stats
pub mod Handler
pub mod Ops
pub mod Dispatch
pub mod Answers
pub mod Loop
pub mod Session
pub mod Detect
