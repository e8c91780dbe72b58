-- ===== src/Tests.antt =====
-- Tests of the definitions, and the theorems at concrete inputs.
mod Protocol
pub mod Server
mod Ascii
mod Meta
mod Detect
pub mod Lua
mod Served
mod Connection
