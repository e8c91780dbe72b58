-- ===== src/Lua.antt =====
-- The Lua scripts of src/lib.rs. Redis and Lua are no part of the repository: `Number` is the
-- interface of Lua's numbers, `Keyspace` that of the commands which the scripts call, with what
-- their documentation says of them. `Program` has the form of a script and how it runs, and
-- `Scripts` the scripts.
pub mod Number
pub mod Keyspace
pub mod Program
pub mod Scripts
pub mod Refinement
pub mod Executes
pub mod Served
pub mod Touched
pub mod Retrieved
