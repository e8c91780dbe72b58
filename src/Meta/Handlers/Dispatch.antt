-- ===== src/Meta/Handlers/Dispatch.antt =====
-- `dispatch_meta_cmd` of src/ascii.rs.
use red_couch.Base.{◌++◌, Option, [], Bytes, codes, unwrap_or}
use red_couch.Ascii.Handlers.{tell}
use red_couch.Ascii.Validate.{Checked, ok, err}
use red_couch.Meta.Flags.{
  has_flag, validate_mg_flags, validate_ms_flags, validate_md_flags, validate_ma_flags,
  validate_mn_flags, validate_me_flags,
}
use red_couch.Meta.Handlers.{echo_unless}
use red_couch.Meta.Handlers.Get.{meta_noop, meta_get}
use red_couch.Meta.Handlers.Set.{meta_set}
use red_couch.Meta.Handlers.Delete.{meta_delete}
use red_couch.Meta.Handlers.Count.{meta_arithmetic}
use red_couch.Meta.Parse.{MetaCmd, get, set, delete, arithmetic, noop, debug}
use red_couch.Redis.{Redis}
use red_couch.Server.Handler.{Conn, Handled}

module _ {r : Redis} where
  -- `if let Err(e) = validate(...) { ...; return Ok(()); }`, and what follows
  unfoldable pub if_valid : Checked (Unit {0}) → (Conn r → Handled r) → Conn r → Handled r
  if_valid (ok _) next c = next c
  if_valid (err e) next c = tell (codes "CLIENT_ERROR " ++ e) c

  unfoldable pub dispatch_meta_cmd : MetaCmd → Option Bytes → Conn r → Handled r
  unfolding if_valid
  dispatch_meta_cmd (noop flags) data_bytes = if_valid (validate_mn_flags flags) (meta_noop flags)
  dispatch_meta_cmd (get key flags) data_bytes =
      if_valid (validate_mg_flags flags) (meta_get key flags)
  dispatch_meta_cmd (set key datalen flags) data_bytes =
      if_valid (validate_ms_flags flags) (meta_set key (unwrap_or data_bytes []) flags)
  dispatch_meta_cmd (delete key flags) data_bytes =
      if_valid (validate_md_flags flags) (meta_delete key flags)
  dispatch_meta_cmd (arithmetic key flags) data_bytes =
      if_valid (validate_ma_flags flags) (meta_arithmetic key flags)
  dispatch_meta_cmd (debug key flags) data_bytes =
      if_valid (validate_me_flags flags) (echo_unless (has_flag flags b'q') (codes "EN") flags key)
