-- ===== src/Lib.antt =====
-- A verification library for RedCouch, a Redis module that serves memcached clients.
--
-- A connection is detected by its first byte as binary or text. A binary connection (src/lib.rs)
-- reads into a buffer, parses the frames that are complete (src/protocol.rs), runs a handler for
-- each, which asks Redis by a Lua script or a command, collects the responses and sends them before
-- the next read. A text connection (src/ascii.rs) does the same line by line, with data blocks behind
-- the lines that announce them; its meta commands are parsed in src/meta.rs. The scripts keep an item
-- as a hash in Redis, and draw its CAS value from a counter.
--
--   Base, Decimal   lists of bytes, texts, UTF-8 validity and decimal numbers as in the standard
--                   library
--   ByteOrder       the interface of the byteorder crate: reads and writes of big-endian integers
--   Protocol        src/protocol.rs: Wire and Status (constants), Opcode, Header, Frame
--                   (try_parse_request, parse_request), Build (build_raw_request_frame,
--                   build_request_frame), Response (write_raw_response and its callers)
--   Hex             src/lib.rs: hex_decode, and the hex encoding in the scripts
--   Redis           src/lib.rs: make_redis_key, the readers of replies, eval_lua; Redis itself is an
--                   interface, with a database of an unknown type
--   Server          src/lib.rs: Stats (the counters), Handler (the state of a handler), Ops (the op_*
--                   handlers), Dispatch (handle), Loop and Session (handle_binary_conn), Detect
--                   (handle_conn)
--   Ascii           src/ascii.rs: Words (white space as in the standard library), Line
--                   (find_line_end), Command (AsciiCmd and its queries), Validate (validate_key),
--                   Parse (parse_command_line and the parsers of the commands), Data
--                   (read_data_block, drain_data_block), Handlers (the ascii_* handlers), Dispatch
--                   (dispatch_cmd), Session (handle_ascii_conn)
--   Meta            src/meta.rs: Flags (MetaFlag and the validators), Parse (parse_meta_command,
--                   write_meta_flag_echo); Handlers (the meta_* handlers and dispatch_meta_cmd of
--                   src/ascii.rs)
--   Lua             the scripts LUA_* of src/lib.rs: Number and Keyspace (the interfaces of Lua's
--                   numbers and of the Redis commands that they call, with their documented laws),
--                   Program (a script as the tree of its calls, and how it runs), Scripts (the
--                   scripts, and the lemmas on each), Refinement (the scripts against Items), Executes
--                   (Redis with the scripts as it runs them), Served, Retrieved and Touched (handlers of
--                   src/ascii.rs with their scripts against Items)
--   Items           what the scripts are held against: a map from keys to items with a value, flags,
--                   a CAS value and an expiry, and the counter of the CAS values
--   Tests           runs and examples
--
-- Bytes and integers are natural numbers; a cast or an addition that wraps is a remainder. A buffer
-- or a slice is a list, and `out` is the list of the bytes written so far. A handler returns its
-- result with the changed state. The loop over the frames of a buffer runs on fuel, one unit for a
-- frame; a frame takes at least 24 bytes off the buffer, so the buffer's length is enough, and
-- Session gives one more than that. The loop of the text connection runs on the bytes in the buffer
-- and those that arrive, and one for each read, since every turn takes one of them. A socket is the list of the outcomes of its reads and writes.
--
-- Not modelled: threads, time-outs as durations and the listener; the texts of log lines and of
-- Redis errors; of the scripts LUA_META_GET, LUA_FLUSH and LUA_COUNT_ITEMS, which call TTL and SCAN.
mod Base
pub mod Ascii
pub mod ByteOrder
pub mod Decimal
pub mod Hex
pub mod Items
pub mod Lua
pub mod Meta
pub mod Protocol
pub mod Redis
pub mod Server
mod Tests
