-- ===== src/Ascii/Handlers/Told.antt =====
-- What a command handler appends to `out`.
use red_couch.Base.{
  ℕ, zero, suc, ◌≡◌, refl, sym, Bool, true, false, [], ◌++◌, Bytes, append-nil, ℤ, pos, negsuc,
}
use red_couch.Ascii.Handlers.{crlf, tell_unless}
use red_couch.Ascii.Handlers.Store.{
  StoreParams, store_status, store_reply, ascii_store, concat_status, concat_reply,
  ascii_append_prepend,
}
use red_couch.Ascii.Handlers.Change.{
  delete_reply, ascii_delete, counter_status, counter_reply, ascii_counter, touch_status,
  touch_reply, ascii_touch, flush_reply, ascii_flush,
}
use red_couch.Redis.{Redis, integer, array, static_error, cons, Reply, ok, err, eval_int, eval_str}
use red_couch.Server.Handler.{BridgeErr, done, failed, Conn, Handled}

-- With `noreply` nothing is appended. Without it, a handler that returns `Ok` appends a text that
-- ends a line, and one that fails may have appended a part of its answer.
abbrev pub Told : {r : Redis} → Bool → Bytes → Handled r → Type 0
Told true before (br, c) = c.out ≡ before
Told false before (done, c) = (text : Bytes) × (c.out ≡ before ++ (text ++ crlf))
Told false before (failed e, c) = (text : Bytes) × (c.out ≡ before ++ text)

module _ {r : Redis} where
  pub unchanged-Told :
      (noreply : Bool) (e : BridgeErr) (c : Conn r) → Told noreply c.out (failed e, c)
  unchanged-Told true e c = refl
  unchanged-Told false e c = ([], sym (append-nil c.out))

  pub tell_unless-Told :
      (noreply : Bool) (line : Bytes) (c : Conn r) → Told noreply c.out (tell_unless noreply line c)
  unfolding tell_unless
  tell_unless-Told true line c = refl
  tell_unless-Told false line c = (line, refl)

  store_status-Told :
      (p : StoreParams) (status : ℤ) (c : Conn r) → Told p.noreply c.out (store_status p status c)
  unfolding store_status
  store_status-Told p (pos zero) c = tell_unless-Told p.noreply _ _
  store_status-Told p (negsuc zero) c = tell_unless-Told p.noreply _ _
  store_status-Told p (negsuc (suc zero)) c = tell_unless-Told p.noreply _ _
  store_status-Told p _ c = tell_unless-Told p.noreply _ _

  store_reply-Told :
      (p : StoreParams) (reply : Reply) (c : Conn r) → Told p.noreply c.out (store_reply p reply c)
  unfolding store_reply
  store_reply-Told p (err e) c = unchanged-Told p.noreply _ c
  store_reply-Told p (ok (static_error e)) c = tell_unless-Told p.noreply _ _
  store_reply-Told p (ok (array (cons status (cons cas _)))) c =
      store_status-Told p (eval_int status) c
  store_reply-Told p _ c = tell_unless-Told p.noreply _ _

  pub ascii_store-Told :
      (p : StoreParams) (key value : Bytes) (c : Conn r)
      → Told p.noreply c.out (ascii_store p key value c)
  unfolding ascii_store
  ascii_store-Told p key value c = store_reply-Told p _ _

  concat_status-Told :
      (noreply : Bool) (status : ℤ) (c : Conn r)
      → Told noreply c.out (concat_status noreply status c)
  unfolding concat_status
  concat_status-Told noreply (pos zero) c = tell_unless-Told noreply _ _
  concat_status-Told noreply (negsuc (suc (suc (suc (suc zero))))) c = tell_unless-Told noreply _ _
  concat_status-Told noreply _ c = tell_unless-Told noreply _ _

  concat_reply-Told :
      (noreply : Bool) (reply : Reply) (c : Conn r)
      → Told noreply c.out (concat_reply noreply reply c)
  unfolding concat_reply
  concat_reply-Told noreply (err e) c = unchanged-Told noreply _ c
  concat_reply-Told noreply (ok (static_error e)) c = tell_unless-Told noreply _ _
  concat_reply-Told noreply (ok (array (cons status _))) c =
      concat_status-Told noreply (eval_int status) c
  concat_reply-Told noreply _ c = tell_unless-Told noreply _ _

  pub ascii_append_prepend-Told :
      (is_prepend : Bool) (key value : Bytes) (noreply : Bool) (c : Conn r)
      → Told noreply c.out (ascii_append_prepend is_prepend key value noreply c)
  unfolding ascii_append_prepend
  ascii_append_prepend-Told is_prepend key value noreply c = concat_reply-Told noreply _ _

  delete_reply-Told :
      (noreply : Bool) (reply : Reply) (c : Conn r)
      → Told noreply c.out (delete_reply noreply reply c)
  unfolding delete_reply
  delete_reply-Told noreply (err e) c = unchanged-Told noreply _ c
  delete_reply-Told noreply (ok (static_error e)) c = tell_unless-Told noreply _ _
  delete_reply-Told noreply (ok (integer (pos (suc n)))) c = tell_unless-Told noreply _ _
  delete_reply-Told noreply (ok (integer _)) c = tell_unless-Told noreply _ _
  delete_reply-Told noreply _ c = tell_unless-Told noreply _ _

  pub ascii_delete-Told :
      (key : Bytes) (noreply : Bool) (c : Conn r) → Told noreply c.out (ascii_delete key noreply c)
  unfolding ascii_delete
  ascii_delete-Told key noreply c = delete_reply-Told noreply _ _

  counter_status-Told :
      (is_decr noreply : Bool) (status : ℤ) (value : Bytes) (c : Conn r)
      → Told noreply c.out (counter_status is_decr noreply status value c)
  unfolding counter_status
  counter_status-Told is_decr noreply (pos zero) value c = tell_unless-Told noreply _ _
  counter_status-Told is_decr noreply (negsuc zero) value c = tell_unless-Told noreply _ _
  counter_status-Told is_decr noreply (negsuc (suc (suc zero))) value c =
      tell_unless-Told noreply _ _
  counter_status-Told is_decr noreply _ value c = tell_unless-Told noreply _ _

  counter_reply-Told :
      (is_decr noreply : Bool) (reply : Reply) (c : Conn r)
      → Told noreply c.out (counter_reply is_decr noreply reply c)
  unfolding counter_reply
  counter_reply-Told is_decr noreply (err e) c = unchanged-Told noreply _ c
  counter_reply-Told is_decr noreply (ok (static_error e)) c = tell_unless-Told noreply _ _
  counter_reply-Told is_decr noreply (ok (array (cons status (cons value (cons cas _))))) c =
      counter_status-Told is_decr noreply (eval_int status) (eval_str r value) c
  counter_reply-Told is_decr noreply _ c = tell_unless-Told noreply _ _

  pub ascii_counter-Told :
      (is_decr : Bool) (key : Bytes) (delta : ℕ) (noreply : Bool) (c : Conn r)
      → Told noreply c.out (ascii_counter is_decr key delta noreply c)
  unfolding ascii_counter
  ascii_counter-Told is_decr key delta noreply c = counter_reply-Told is_decr noreply _ _

  touch_status-Told :
      (noreply : Bool) (status : ℤ) (c : Conn r)
      → Told noreply c.out (touch_status noreply status c)
  unfolding touch_status
  touch_status-Told noreply (pos zero) c = tell_unless-Told noreply _ _
  touch_status-Told noreply _ c = tell_unless-Told noreply _ _

  touch_reply-Told :
      (noreply : Bool) (reply : Reply) (c : Conn r)
      → Told noreply c.out (touch_reply noreply reply c)
  unfolding touch_reply
  touch_reply-Told noreply (err e) c = unchanged-Told noreply _ c
  touch_reply-Told noreply (ok (static_error e)) c = tell_unless-Told noreply _ _
  touch_reply-Told noreply (ok (array (cons status _))) c =
      touch_status-Told noreply (eval_int status) c
  touch_reply-Told noreply _ c = tell_unless-Told noreply _ _

  pub ascii_touch-Told :
      (key : Bytes) (exptime : ℕ) (noreply : Bool) (c : Conn r)
      → Told noreply c.out (ascii_touch key exptime noreply c)
  unfolding ascii_touch
  ascii_touch-Told key exptime noreply c = touch_reply-Told noreply _ _

  flush_reply-Told :
      (noreply : Bool) (reply : Reply) (c : Conn r)
      → Told noreply c.out (flush_reply noreply reply c)
  unfolding flush_reply
  flush_reply-Told noreply (err e) c = unchanged-Told noreply _ c
  flush_reply-Told noreply (ok _) c = tell_unless-Told noreply _ _

  pub ascii_flush-Told : (noreply : Bool) (c : Conn r) → Told noreply c.out (ascii_flush noreply c)
  unfolding ascii_flush
  ascii_flush-Told noreply c = flush_reply-Told noreply _ _
