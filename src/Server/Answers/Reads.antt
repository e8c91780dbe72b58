-- ===== src/Server/Answers/Reads.antt =====
-- The handlers of src/lib.rs that change no value: GET, GAT, TOUCH, FLUSH and SASL.
use red_couch.Base.{ℕ, zero, pos, negsuc, refl, not, ◌==◌, [], length, ℤ, minus, int_eq}
use red_couch.ByteOrder.{ByteOrder}
use red_couch.Protocol.Frame.{Request}
use red_couch.Protocol.Opcode.{Opcode}
use red_couch.Redis.{Redis, cons, array, Reply, ok, err, eval_int}
use red_couch.Server.Handler.{Conn}
use red_couch.Server.Ops.Get
use red_couch.Server.Ops.Get.{write_hit, get_reply, op_get, gat_reply, op_gat}
use red_couch.Server.Ops.Touch.{touch_status, touch_reply, op_touch}
use red_couch.Server.Ops.Plain.{flush_reply, op_flush, op_sasl_auth}
use red_couch.Server.Answers.Basic.{
  Answers, respond-Answers, respond_unless_quiet-Answers, if-Answers, write_hit-Answers,
}

module _ ⦃bo : ByteOrder⦄ {r : Redis} where
  pub get_reply-Answers :
      (op : Opcode) (req : Request) (reply : Reply) (c : Conn r)
      → Answers op req c.out (get_reply op req reply c)
  unfolding get_reply
  get_reply-Answers op req (ok (array (cons status (cons hex (cons flags (cons cas _)))))) c =
      if-Answers (int_eq (eval_int status) (minus 1)) op req c.out _ _
        (respond_unless_quiet-Answers op _ req _ [] (record c { stats = Get.count_miss c.stats }))
        (write_hit-Answers op req hex flags cas (record c { stats = Get.count_hit c.stats }))
  get_reply-Answers op req _ c = refl

  pub gat_reply-Answers :
      (op : Opcode) (req : Request) (reply : Reply) (c : Conn r)
      → Answers op req c.out (gat_reply op req reply c)
  unfolding gat_reply
  gat_reply-Answers op req (ok (array (cons status (cons hex (cons flags (cons cas _)))))) c =
      if-Answers (int_eq (eval_int status) (minus 1)) op req c.out _ _
        (respond_unless_quiet-Answers op _ req _ [] c) (write_hit-Answers op req hex flags cas c)
  gat_reply-Answers op req _ c = refl

  pub op_get-Answers :
      (op : Opcode) (req : Request) (c : Conn r) → Answers op req c.out (op_get op req c)
  unfolding op_get
  op_get-Answers op req c = get_reply-Answers op req _ _

  pub op_gat-Answers :
      (op : Opcode) (req : Request) (c : Conn r) → Answers op req c.out (op_gat op req c)
  unfolding op_gat
  op_gat-Answers op req c =
      if-Answers (not (length req.extras == 4)) op req c.out _ _ (respond-Answers op _ req _ [] _)
        (gat_reply-Answers op req _ _)

  pub touch_status-Answers :
      (op : Opcode) (req : Request) (status : ℤ) (new_cas : ℕ) (c : Conn r)
      → Answers op req c.out (touch_status op req status new_cas c)
  unfolding touch_status
  touch_status-Answers op req (pos zero) new_cas c =
      respond_unless_quiet-Answers op _ req new_cas [] c
  touch_status-Answers op req (negsuc zero) new_cas c = respond-Answers op _ req _ [] c
  touch_status-Answers op req _ new_cas c = refl

  pub touch_reply-Answers :
      (op : Opcode) (req : Request) (reply : Reply) (c : Conn r)
      → Answers op req c.out (touch_reply op req reply c)
  unfolding touch_reply
  touch_reply-Answers op req (ok (array (cons status (cons cas _)))) c =
      touch_status-Answers op req (eval_int status) _ c
  touch_reply-Answers op req _ c = refl

  pub op_touch-Answers :
      (op : Opcode) (req : Request) (c : Conn r) → Answers op req c.out (op_touch op req c)
  unfolding op_touch
  op_touch-Answers op req c =
      if-Answers (not (length req.extras == 4)) op req c.out _ _ (respond-Answers op _ req _ [] _)
        (touch_reply-Answers op req _ _)

  pub flush_reply-Answers :
      (op : Opcode) (req : Request) (reply : Reply) (c : Conn r)
      → Answers op req c.out (flush_reply op req reply c)
  unfolding flush_reply
  flush_reply-Answers op req (err e) c = refl
  flush_reply-Answers op req (ok v) c = respond_unless_quiet-Answers op _ req _ [] c

  pub op_flush-Answers :
      (op : Opcode) (req : Request) (c : Conn r) → Answers op req c.out (op_flush op req c)
  unfolding op_flush
  op_flush-Answers op req c = flush_reply-Answers op req _ _

  pub op_sasl_auth-Answers :
      (op : Opcode) (req : Request) (c : Conn r) → Answers op req c.out (op_sasl_auth op req c)
  unfolding op_sasl_auth
  op_sasl_auth-Answers op req c =
      if-Answers _ op req c.out _ _ (respond-Answers op _ req _ _ _)
        (respond-Answers op _ req _ _ _)
