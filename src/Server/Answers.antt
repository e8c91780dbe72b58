-- ===== src/Server/Answers.antt =====
-- `handle` of src/lib.rs gives each request its one response.
mod Basic
mod Reads
mod Writes
pub use Basic.{Answered, Answers}
use mathlib.Core.Path.{subst}
use red_couch.Base.{
  sym, ℕ, zero, suc, pos, negsuc, ◌≡◌, ◌≢◌, refl, not, ◌==◌, Bool, true, false, Option, none, some,
  [], ◌∷◌, Bytes, codes, length, slice, ℤ, minus, int_eq, bytes_eq, is_utf8, unwrap_or,
  if◌then◌else◌, Bool-cases, inl, inr, arith,
}
use red_couch.ByteOrder.{ByteOrder}
use red_couch.Protocol.Frame.{Request}
use red_couch.Protocol.Opcode
use red_couch.Protocol.Opcode.{Opcode, is_quiet}
use red_couch.Protocol.Response.{write_response, write_simple_response}
use red_couch.Redis.{
  Redis, RedisValue, nil, cons, array, integer, static_error, Reply, ok, err, eval_int, eval_str,
  eval_lua, get, make_redis_key,
}
use red_couch.Protocol.Opcode.Bytes.{base_lem}
use red_couch.Server.Dispatch.{handle_base, handle_known, handle}
use red_couch.Server.Handler.{Br, done, failed, Conn, Handled, respond, respond_unless_quiet}
use red_couch.Server.Ops.Get
use red_couch.Server.Ops.Store
use red_couch.Server.Ops.Delete
use red_couch.Server.Ops.Counter
use red_couch.Server.Ops.Get.{write_hit, get_reply, op_get, gat_reply, op_gat}
use red_couch.Server.Ops.Store.{store_status, store_reply, op_store}
use red_couch.Server.Ops.Delete.{
  deleted, not_there, del_reply, delete_status, delete_reply, op_delete,
}
use red_couch.Server.Ops.Counter.{counter_status, counter_reply, op_counter}
use red_couch.Server.Ops.Touch.{touch_status, touch_reply, op_touch}
use red_couch.Server.Ops.Concat.{concat_status, concat_reply, op_append_prepend}
use red_couch.Server.Ops.Plain.{
  flush_reply, op_flush, op_version, op_verbosity, op_sasl_list_mechs, op_sasl_auth, op_sasl_step,
}
use red_couch.Server.Ops.Stat.{Process}
use Basic.{silent, one, respond-Answers}
use Reads.{op_get-Answers, op_gat-Answers, op_touch-Answers, op_flush-Answers, op_sasl_auth-Answers}
use Writes.{op_store-Answers, op_delete-Answers, op_counter-Answers, op_append_prepend-Answers}

module _ ⦃bo : ByteOrder⦄ {r : Redis} (p : Process) where
  -- Of every base but STAT, which answers with many responses, QUIT, which fails behind its
  -- response, and the quiet opcodes, which are no bases.
  handle_base-Answers :
      (b op : Opcode) (req : Request) (c : Conn r)
      → is_quiet b ≡ false
      → b ≢ Opcode.stat
      → b ≢ Opcode.quit
      → Answers op req c.out (handle_base p b op req c)
  unfolding handle_base is_quiet op_version op_verbosity op_sasl_list_mechs op_sasl_step
  handle_base-Answers Opcode.get op req c q s t = op_get-Answers op req c
  handle_base-Answers Opcode.get_k op req c q s t = op_get-Answers op req c
  handle_base-Answers Opcode.set op req c q s t = op_store-Answers op req c
  handle_base-Answers Opcode.add op req c q s t = op_store-Answers op req c
  handle_base-Answers Opcode.replace op req c q s t = op_store-Answers op req c
  handle_base-Answers Opcode.delete op req c q s t = op_delete-Answers op req c
  handle_base-Answers Opcode.increment op req c q s t = op_counter-Answers op req c
  handle_base-Answers Opcode.decrement op req c q s t = op_counter-Answers op req c
  handle_base-Answers Opcode.touch op req c q s t = op_touch-Answers op req c
  handle_base-Answers Opcode.gat op req c q s t = op_gat-Answers op req c
  handle_base-Answers Opcode.append op req c q s t = op_append_prepend-Answers op req c
  handle_base-Answers Opcode.prepend op req c q s t = op_append_prepend-Answers op req c
  handle_base-Answers Opcode.flush op req c q s t = op_flush-Answers op req c
  handle_base-Answers Opcode.version op req c q s t = respond-Answers op _ req _ _ c
  handle_base-Answers Opcode.stat op req c q s t = absurd (s refl)
  handle_base-Answers Opcode.verbosity op req c q s t = respond-Answers op _ req _ [] c
  handle_base-Answers Opcode.sasl_list_mechs op req c q s t = respond-Answers op _ req _ _ _
  handle_base-Answers Opcode.sasl_auth op req c q s t = op_sasl_auth-Answers op req c
  handle_base-Answers Opcode.sasl_step op req c q s t = respond-Answers op _ req _ _ _
  handle_base-Answers Opcode.noop op req c q s t = respond-Answers op _ req _ [] c
  handle_base-Answers Opcode.quit op req c q s t = absurd (t refl)
  handle_base-Answers _ op req c q s t = cc

  -- Of every request with a known opcode other than STAT, QUIT and QUITQ: if `handle` succeeds, it
  -- has written one response, with the request's opcode and opaque, or nothing, and nothing only if
  -- the opcode is quiet; if it fails, it has written nothing.
  pub handle-Answers :
      (req : Request) (op : Opcode) (c : Conn r)
      → req.hdr.opcode ≡ some op
      → Opcode.base op ≢ Opcode.stat
      → Opcode.base op ≢ Opcode.quit
      → Answers op req c.out (handle p req c)
  unfolding handle handle_known
  handle-Answers req op c e s t =
      subst (λ o. Answers op req c.out (handle_known p o req c)) (sym e)
        (handle_base-Answers (Opcode.base op) op req c (base_lem op).0 s t)
