-- ===== src/Meta/Handlers/Told.antt =====
-- What a meta command appends to `out`.
pub mod Commands
use red_couch.Base.{
  ℕ, zero, suc, ◌≡◌, refl, sym, ap, ◌∙◌, ◌⊎◌, inl, inr, Bool, true, false, not, ◌&&◌, ◌||◌,
  if◌then◌else◌, List, [], ◌∷◌, ◌++◌, Bytes, codes, append_assoc, append-nil, ℤ, pos, negsuc,
  Option, none, some, bytes_eq, unwrap_or, length, Bool-cases, int_eq, minus,
}
use red_couch.Ascii.Handlers.{crlf, tell, tell_unless, server_error, non_numeric}
use red_couch.Ascii.Handlers.Told.{Told, unchanged-Told, tell_unless-Told}
use red_couch.Ascii.Validate.{Checked, ok, err}
use red_couch.Decimal.{to_string}
use red_couch.Meta.Flags.{
  MetaFlag, has_flag, get_flag_token, is_word, validate_ms_flags, validate_md_flags,
  validate_ma_flags, validate_mn_flags, validate_me_flags, validate_mg_flags,
}
use red_couch.Meta.Handlers.{echoed, echo_unless}
use red_couch.Meta.Handlers.Count.{
  write_count, meta_counter_status, meta_counter_reply, meta_arithmetic,
}
use red_couch.Meta.Handlers.Delete.{
  meta_delete_status, meta_delete_reply, meta_delete, delete_status_of,
}
use red_couch.Meta.Handlers.Dispatch.{if_valid, dispatch_meta_cmd}
use red_couch.Meta.Handlers.Get.{meta_noop}
use red_couch.Meta.Handlers.Set.{
  stored_line, meta_concat_status, meta_concat_reply, meta_concat, meta_store_status,
  meta_store_reply, meta_store, meta_set, token_or,
}
use red_couch.Meta.Parse.{
  MetaCmd, get, set, delete, arithmetic, noop, debug, write_meta_flag_echo, echo_opaque,
}
use red_couch.Redis.{
  Redis, RedisValue, RedisValues, nil, integer, array, static_error, cons, Reply, eval_int,
  eval_str,
}
use red_couch.Server.Handler.{Br, done, failed, Conn, Handled}

opaque-append :
    (opaque : Option Bytes) (out : Bytes) → (text : Bytes) × (echo_opaque opaque out ≡ out ++ text)
unfolding echo_opaque
opaque-append none out = ([], sym (append-nil out))
opaque-append (some opaque) out = (codes " O" ++ opaque, refl)

-- the echo of flags comes behind what is in `out`
write_meta_flag_echo-append :
    (out : Bytes) (flags : List MetaFlag) (key : Bytes)
    → (text : Bytes) × (write_meta_flag_echo out flags key ≡ out ++ text)
unfolding write_meta_flag_echo
write_meta_flag_echo-append out flags key =
    let (text, e) = opaque-append (get_flag_token flags b'O') out in
    elim (Bool-cases (has_flag flags b'k')) [
      | inl k ↦ rw k (
        text ++ (codes " k" ++ key),
        ap (λ o. o ++ (codes " k" ++ key)) e ∙ append_assoc out text (codes " k" ++ key),
      )
      | inr k ↦ rw k (text, e)
    ]

module _ {r : Redis} where
  pub echoed-ends :
      (code : Bytes) (flags : List MetaFlag) (key : Bytes) (c : Conn r)
      → (text : Bytes) × ((echoed code flags key c).out ≡ c.out ++ (text ++ crlf))
  unfolding echoed
  echoed-ends code flags key c =
      let (text, e) = write_meta_flag_echo-append (c.out ++ code) flags key in
      (
        code ++ text,
        ap (λ o. o ++ crlf) (e ∙ append_assoc c.out code text)
            ∙ append_assoc c.out (code ++ text) crlf,
      )

  pub echo_unless-Told :
      (quiet : Bool) (code : Bytes) (flags : List MetaFlag) (key : Bytes) (c : Conn r)
      → Told quiet c.out (echo_unless quiet code flags key c)
  unfolding echo_unless
  echo_unless-Told true code flags key c = refl
  echo_unless-Told false code flags key c = echoed-ends code flags key c

  meta_concat_status-Told :
      (quiet : Bool) (flags : List MetaFlag) (key cas : Bytes) (status : ℤ) (new_cas : Bytes)
      (c : Conn r)
      → Told quiet c.out (meta_concat_status quiet flags key cas status new_cas c)
  unfolding meta_concat_status
  meta_concat_status-Told quiet flags key cas (pos zero) new_cas c =
      echo_unless-Told quiet _ flags key c
  meta_concat_status-Told quiet flags key cas (negsuc (suc (suc (suc (suc zero))))) new_cas c =
      echo_unless-Told quiet _ flags key c
  meta_concat_status-Told quiet flags key cas (negsuc (suc zero)) new_cas c =
      echo_unless-Told quiet _ flags key c
  meta_concat_status-Told quiet flags key cas _ new_cas c = tell_unless-Told quiet _ _

  meta_concat_reply-Told :
      (quiet : Bool) (flags : List MetaFlag) (key cas : Bytes) (reply : Reply) (c : Conn r)
      → Told quiet c.out (meta_concat_reply quiet flags key cas reply c)
  unfolding meta_concat_reply
  meta_concat_reply-Told quiet flags key cas (Reply.err e) c = unchanged-Told quiet _ c
  meta_concat_reply-Told quiet flags key cas (Reply.ok (static_error e)) c =
      tell_unless-Told quiet _ _
  meta_concat_reply-Told quiet flags key cas (Reply.ok (array (cons status (cons new_cas _)))) c =
      meta_concat_status-Told quiet flags key cas (eval_int status) (eval_str r new_cas) c
  meta_concat_reply-Told quiet flags key cas _ c = tell_unless-Told quiet _ _

  meta_store_status-Told :
      (quiet : Bool) (flags : List MetaFlag) (key cas : Bytes) (status : ℤ) (new_cas : Bytes)
      (c : Conn r)
      → Told quiet c.out (meta_store_status quiet flags key cas status new_cas c)
  unfolding meta_store_status
  meta_store_status-Told quiet flags key cas (pos zero) new_cas c =
      echo_unless-Told quiet _ flags key _
  meta_store_status-Told quiet flags key cas (negsuc zero) new_cas c =
      echo_unless-Told quiet _ flags key c
  meta_store_status-Told quiet flags key cas (negsuc (suc zero)) new_cas c =
      elim (Bool-cases (not (bytes_eq cas (codes "0")))) [
        | inl e ↦ rw e (echo_unless-Told quiet _ flags key _)
        | inr e ↦ rw e (echo_unless-Told quiet _ flags key c)
      ]
  meta_store_status-Told quiet flags key cas _ new_cas c = tell_unless-Told quiet _ _

  meta_store_reply-Told :
      (quiet : Bool) (flags : List MetaFlag) (key cas : Bytes) (reply : Reply) (c : Conn r)
      → Told quiet c.out (meta_store_reply quiet flags key cas reply c)
  unfolding meta_store_reply
  meta_store_reply-Told quiet flags key cas (Reply.err e) c = unchanged-Told quiet _ c
  meta_store_reply-Told quiet flags key cas (Reply.ok (static_error e)) c =
      tell_unless-Told quiet _ _
  meta_store_reply-Told quiet flags key cas (Reply.ok (array (cons status (cons new_cas _)))) c =
      meta_store_status-Told quiet flags key cas (eval_int status) (eval_str r new_cas) c
  meta_store_reply-Told quiet flags key cas _ c = tell_unless-Told quiet _ _

  pub meta_set-Told :
      (key data_bytes : Bytes) (flags : List MetaFlag) (c : Conn r)
      → Told (has_flag flags b'q') c.out (meta_set key data_bytes flags c)
  unfolding meta_set meta_concat meta_store
  meta_set-Told key data_bytes flags c =
      elim (Bool-cases (
        is_word (token_or flags b'M' (codes "S")) "A"
        || is_word (token_or flags b'M' (codes "S")) "P")) [
          | inl e ↦ rw e (meta_concat_reply-Told (has_flag flags b'q') flags key _ _ _)
          | inr e ↦
              rw e
                (elim (Bool-cases (
                  is_word (token_or flags b'M' (codes "S")) "S"
                  || is_word (token_or flags b'M' (codes "S")) "E"
                  || is_word (token_or flags b'M' (codes "S")) "R")) [
                    | inl e' ↦ rw e' (meta_store_reply-Told (has_flag flags b'q') flags key _ _ _)
                    | inr e' ↦ rw e' (tell_unless-Told (has_flag flags b'q') _ _)
                  ])
        ]

  meta_delete_status-Told :
      (quiet : Bool) (flags : List MetaFlag) (key : Bytes) (status : ℤ) (c : Conn r)
      → Told quiet c.out (meta_delete_status quiet flags key status c)
  unfolding meta_delete_status
  meta_delete_status-Told quiet flags key (pos zero) c = echo_unless-Told quiet _ flags key _
  meta_delete_status-Told quiet flags key (negsuc zero) c = echo_unless-Told quiet _ flags key _
  meta_delete_status-Told quiet flags key (negsuc (suc zero)) c =
      echo_unless-Told quiet _ flags key c
  meta_delete_status-Told quiet flags key _ c = tell_unless-Told quiet _ _

  meta_delete_reply-Told :
      (direct quiet : Bool) (flags : List MetaFlag) (key : Bytes) (reply : Reply) (c : Conn r)
      → Told quiet c.out (meta_delete_reply direct quiet flags key reply c)
  unfolding meta_delete_reply
  meta_delete_reply-Told direct quiet flags key (Reply.err e) c = unchanged-Told quiet _ c
  meta_delete_reply-Told direct quiet flags key (Reply.ok (static_error e)) c =
      tell_unless-Told quiet _ _
  meta_delete_reply-Told direct quiet flags key (Reply.ok (integer n)) c =
      meta_delete_status-Told quiet flags key (delete_status_of direct n) c
  meta_delete_reply-Told direct quiet flags key _ c = tell_unless-Told quiet _ _

  pub meta_delete-Told :
      (key : Bytes) (flags : List MetaFlag) (c : Conn r)
      → Told (has_flag flags b'q') c.out (meta_delete key flags c)
  unfolding meta_delete
  meta_delete-Told key flags c = meta_delete_reply-Told _ (has_flag flags b'q') flags key _ _
