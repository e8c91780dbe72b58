-- ===== src/Ascii/Handlers.antt =====
-- The command handlers of src/ascii.rs. They append to `out`, and with `noreply` they do not.
pub mod Store
pub mod Retrieve
pub mod Change
pub mod Told
pub mod Stats
use red_couch.Base.{Bool, ◌++◌, Bytes, codes, if◌then◌else◌}
use red_couch.Redis.{Redis}
use red_couch.Server.Handler.{done, Conn, Handled}

abbrev pub server_error : Bytes
server_error = codes "SERVER_ERROR internal"

abbrev pub non_numeric : Bytes
non_numeric = codes "CLIENT_ERROR cannot increment or decrement non-numeric value"

-- the end of a line
abbrev pub crlf : Bytes
crlf = codes "\r\n"

module _ {r : Redis} where
  -- `out.extend_from_slice(...); Ok(())`
  unfoldable pub tell : Bytes → Conn r → Handled r
  tell line c = (done, record c { out = c.out ++ (line ++ codes "\r\n") })

  -- `if !noreply { out.extend_from_slice(...); } Ok(())`
  unfoldable pub tell_unless : Bool → Bytes → Conn r → Handled r
  unfolding tell
  tell_unless noreply line c = if noreply then (done, c) else tell line c
