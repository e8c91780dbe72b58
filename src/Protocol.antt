-- ===== src/Protocol.antt =====
-- src/protocol.rs: the memcached binary protocol. `Wire` and `Status` have the constants, `Opcode`
-- the opcodes, `Header` and `Frame` the parser of requests, `Build` the writer of request frames
-- and `Response` the writer of responses. The proofs are in the children of these.
pub mod Wire
pub mod Status
pub mod Opcode
pub mod Header
pub mod Frame
pub mod Build
pub mod Response
