-- ===== src/Ascii/Dispatch.antt =====
-- `dispatch_cmd` of src/ascii.rs.
pub mod Told
use red_couch.Base.{Bool, true, false, Option, none, some, [], Bytes, codes, unwrap_or}
use red_couch.Ascii.Command.{
  StoreOp, AsciiCmd, store, cas, append_prepend, retrieval, delete, counter, touch, flush_all,
  version, stats, verbosity, quit,
}
use red_couch.Ascii.Handlers.{tell, tell_unless}
use red_couch.Ascii.Handlers.Change.{ascii_delete, ascii_counter, ascii_touch, ascii_flush}
use red_couch.Ascii.Handlers.Retrieve.{ascii_retrieval}
use red_couch.Ascii.Handlers.Stats.{ascii_stats}
use red_couch.Ascii.Handlers.Store.{ascii_store, ascii_append_prepend}
use red_couch.Redis.{Redis}
use red_couch.Server.Handler.{connection_aborted, failed, Conn, Handled}
use red_couch.Server.Ops.Stat.{Process}

abbrev pub version_string : Bytes
version_string = codes "VERSION RedCouch 0.1.0"

module _ {r : Redis} (p : Process) where
  unfoldable pub dispatch_cmd : AsciiCmd → Option Bytes → Conn r → Handled r
  dispatch_cmd (store op key flags exptime bytes noreply) data_bytes =
      ascii_store (record { op = op; flags = flags; exptime = exptime; cas = 0; noreply = noreply })
        key (unwrap_or data_bytes [])
  dispatch_cmd (cas key flags exptime bytes cas_unique noreply) data_bytes =
      ascii_store
        (record {
          op = StoreOp.set;
          flags = flags;
          exptime = exptime;
          cas = cas_unique;
          noreply = noreply;
        })
        key (unwrap_or data_bytes [])
  dispatch_cmd (append_prepend is_prepend key bytes noreply) data_bytes =
      ascii_append_prepend is_prepend key (unwrap_or data_bytes []) noreply
  dispatch_cmd (retrieval op exptime keys) data_bytes = ascii_retrieval op exptime keys
  dispatch_cmd (delete key noreply) data_bytes = ascii_delete key noreply
  dispatch_cmd (counter is_decr key value noreply) data_bytes =
      ascii_counter is_decr key value noreply
  dispatch_cmd (touch key exptime noreply) data_bytes = ascii_touch key exptime noreply
  dispatch_cmd (flush_all delay noreply) data_bytes = ascii_flush noreply
  dispatch_cmd version data_bytes = tell version_string
  dispatch_cmd (stats args) data_bytes = ascii_stats p args
  dispatch_cmd (verbosity noreply) data_bytes = tell_unless noreply (codes "OK")
  dispatch_cmd quit data_bytes = λ c. (failed connection_aborted, c)
