-- ===== src/Meta/Handlers.antt =====
-- The handlers of the meta commands, of src/ascii.rs, and `dispatch_meta_cmd`.
pub mod Get
pub mod Set
pub mod Delete
pub mod Count
pub mod Dispatch
pub mod Told
use red_couch.Base.{Bool, List, ◌++◌, Bytes, codes, if◌then◌else◌}
use red_couch.Meta.Flags.{MetaFlag}
use red_couch.Meta.Parse.{write_meta_flag_echo}
use red_couch.Redis.{Redis}
use red_couch.Server.Handler.{done, Conn, Handled}

module _ {r : Redis} where
  -- a code and what follows it, with the flags that are echoed and the end of the line
  unfoldable pub echoed : Bytes → List MetaFlag → Bytes → Conn r → Conn r
  echoed code flags key c = record c {
    out = write_meta_flag_echo (c.out ++ code) flags key ++ codes "\r\n";
  }

  -- `if !quiet { ... }`
  unfoldable pub echo_unless : Bool → Bytes → List MetaFlag → Bytes → Conn r → Handled r
  unfolding echoed
  echo_unless quiet code flags key c = (done, if quiet then c else echoed code flags key c)
