-- ===== src/Server/Ops.antt =====
-- The command handlers `op_*` of src/lib.rs. Each takes the request's opcode, which `handle` has
-- found to be known (`req.hdr.opcode.unwrap()`), runs one script or command, and reads the reply.
pub mod Get
pub mod Store
pub mod Delete
pub mod Counter
pub mod Touch
pub mod Concat
pub mod Plain
pub mod Stat
