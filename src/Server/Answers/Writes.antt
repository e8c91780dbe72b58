-- ===== src/Server/Answers/Writes.antt =====
-- The handlers of src/lib.rs that write or delete a value.
use red_couch.Base.{
  ℕ, zero, suc, pos, negsuc, refl, not, ◌==◌, [], Bytes, length, ℤ, Bool-cases, inl, inr,
}
use red_couch.ByteOrder.{ByteOrder}
use red_couch.Protocol.Frame.{Request}
use red_couch.Protocol.Opcode.{Opcode, is_quiet}
use red_couch.Redis.{Redis, cons, array, integer, Reply, ok, eval_int}
use red_couch.Server.Handler.{Conn}
use red_couch.Server.Ops.Store
use red_couch.Server.Ops.Delete
use red_couch.Server.Ops.Store.{store_status, store_reply, op_store}
use red_couch.Server.Ops.Delete.{
  deleted, not_there, del_reply, delete_status, delete_reply, op_delete,
}
use red_couch.Server.Ops.Counter.{counter_status, counter_reply, op_counter}
use red_couch.Server.Ops.Concat.{concat_status, concat_reply, op_append_prepend}
use red_couch.Server.Answers.Basic.{
  silent, one, Answers, respond-Answers, respond_unless_quiet-Answers, if-Answers,
}

module _ ⦃bo : ByteOrder⦄ {r : Redis} where
  pub store_status-Answers :
      (op : Opcode) (req : Request) (status : ℤ) (new_cas : ℕ) (c : Conn r)
      → Answers op req c.out (store_status op req status new_cas c)
  unfolding store_status
  store_status-Answers op req (pos zero) new_cas c =
      respond_unless_quiet-Answers op _ req new_cas []
        (record c { stats = Store.count_if_cas req Store.count_hit c.stats })
  store_status-Answers op req (negsuc zero) new_cas c =
      respond-Answers op _ req _ []
        (record c { stats = Store.count_if_cas req Store.count_miss c.stats })
  store_status-Answers op req (negsuc (suc zero)) new_cas c =
      respond-Answers op _ req _ []
        (record c { stats = Store.count_if_cas req Store.count_badval c.stats })
  store_status-Answers op req _ new_cas c = refl

  pub store_reply-Answers :
      (op : Opcode) (req : Request) (reply : Reply) (c : Conn r)
      → Answers op req c.out (store_reply op req reply c)
  unfolding store_reply
  store_reply-Answers op req (ok (array (cons status (cons cas _)))) c =
      store_status-Answers op req (eval_int status) _ c
  store_reply-Answers op req _ c = refl

  pub op_store-Answers :
      (op : Opcode) (req : Request) (c : Conn r) → Answers op req c.out (op_store op req c)
  unfolding op_store
  op_store-Answers op req c =
      if-Answers (not (length req.extras == 8)) op req c.out _ _ (respond-Answers op _ req _ [] _)
        (store_reply-Answers op req _ _)

  pub deleted-Answers :
      (op : Opcode) (req : Request) (c : Conn r) → Answers op req c.out (deleted op req c)
  unfolding deleted
  deleted-Answers op req c = elim (Bool-cases (is_quiet op)) [
    | inl q ↦ rw q (silent q refl)
    | inr loud ↦ rw loud (respond-Answers op _ req _ [] _)
  ]

  pub not_there-Answers :
      (op : Opcode) (req : Request) (c : Conn r) → Answers op req c.out (not_there op req c)
  unfolding not_there
  not_there-Answers op req c =
      respond-Answers op _ req _ [] (record c { stats = Delete.count_miss c.stats })

  pub del_reply-Answers :
      (op : Opcode) (req : Request) (reply : Reply) (c : Conn r)
      → Answers op req c.out (del_reply op req reply c)
  unfolding del_reply
  del_reply-Answers op req (ok (integer (pos (suc n)))) c = deleted-Answers op req c
  del_reply-Answers op req (ok (integer (pos zero))) c = not_there-Answers op req c
  del_reply-Answers op req (ok (integer (negsuc n))) c = not_there-Answers op req c
  del_reply-Answers op req _ c = refl

  pub delete_status-Answers :
      (op : Opcode) (req : Request) (status : ℤ) (c : Conn r)
      → Answers op req c.out (delete_status op req status c)
  unfolding delete_status
  delete_status-Answers op req (pos zero) c = deleted-Answers op req c
  delete_status-Answers op req (negsuc zero) c = not_there-Answers op req c
  delete_status-Answers op req (negsuc (suc zero)) c = respond-Answers op _ req _ [] c
  delete_status-Answers op req _ c = refl

  pub delete_reply-Answers :
      (op : Opcode) (req : Request) (reply : Reply) (c : Conn r)
      → Answers op req c.out (delete_reply op req reply c)
  unfolding delete_reply
  delete_reply-Answers op req (ok (integer n)) c = delete_status-Answers op req n c
  delete_reply-Answers op req _ c = refl

  pub op_delete-Answers :
      (op : Opcode) (req : Request) (c : Conn r) → Answers op req c.out (op_delete op req c)
  unfolding op_delete
  op_delete-Answers op req c =
      if-Answers (req.hdr.cas == 0) op req c.out _ _ (del_reply-Answers op req _ _)
        (delete_reply-Answers op req _ _)

  pub counter_status-Answers :
      (op : Opcode) (req : Request) (status : ℤ) (value : Bytes) (new_cas : ℕ) (c : Conn r)
      → Answers op req c.out (counter_status op req status value new_cas c)
  unfolding counter_status
  counter_status-Answers op req (pos zero) value new_cas c = elim (Bool-cases (is_quiet op)) [
    | inl q ↦ rw q (silent q refl)
    | inr loud ↦ rw loud (one _ _ _ _ _ refl)
  ]
  counter_status-Answers op req (negsuc zero) value new_cas c = respond-Answers op _ req _ [] _
  counter_status-Answers op req (negsuc (suc (suc zero))) value new_cas c =
      respond-Answers op _ req _ _ c
  counter_status-Answers op req _ value new_cas c = refl

  pub counter_reply-Answers :
      (op : Opcode) (req : Request) (reply : Reply) (c : Conn r)
      → Answers op req c.out (counter_reply op req reply c)
  unfolding counter_reply
  counter_reply-Answers op req (ok (array (cons status (cons value (cons cas _))))) c =
      counter_status-Answers op req (eval_int status) _ _ c
  counter_reply-Answers op req _ c = refl

  pub op_counter-Answers :
      (op : Opcode) (req : Request) (c : Conn r) → Answers op req c.out (op_counter op req c)
  unfolding op_counter
  op_counter-Answers op req c =
      if-Answers (not (length req.extras == 20)) op req c.out _ _ (respond-Answers op _ req _ [] c)
        (counter_reply-Answers op req _ _)

  pub concat_status-Answers :
      (op : Opcode) (req : Request) (status : ℤ) (new_cas : ℕ) (c : Conn r)
      → Answers op req c.out (concat_status op req status new_cas c)
  unfolding concat_status
  concat_status-Answers op req (pos zero) new_cas c =
      respond_unless_quiet-Answers op _ req new_cas [] c
  concat_status-Answers op req (negsuc (suc (suc (suc (suc zero))))) new_cas c =
      respond-Answers op _ req _ [] c
  concat_status-Answers op req (negsuc (suc zero)) new_cas c = respond-Answers op _ req _ [] c
  concat_status-Answers op req _ new_cas c = refl

  pub concat_reply-Answers :
      (op : Opcode) (req : Request) (reply : Reply) (c : Conn r)
      → Answers op req c.out (concat_reply op req reply c)
  unfolding concat_reply
  concat_reply-Answers op req (ok (array (cons status (cons cas _)))) c =
      concat_status-Answers op req (eval_int status) _ c
  concat_reply-Answers op req _ c = refl

  pub op_append_prepend-Answers :
      (op : Opcode) (req : Request) (c : Conn r) → Answers op req c.out (op_append_prepend op req c)
  unfolding op_append_prepend
  op_append_prepend-Answers op req c =
      if-Answers (not (length req.extras == 0)) op req c.out _ _ (respond-Answers op _ req _ [] _)
        (concat_reply-Answers op req _ _)
