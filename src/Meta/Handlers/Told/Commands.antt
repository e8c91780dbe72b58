-- ===== src/Meta/Handlers/Told/Commands.antt =====
-- What `dispatch_meta_cmd` appends to `out`.
use red_couch.Base.{
  zero, suc, ◌≡◌, refl, sym, ap, ◌∙◌, ◌⊎◌, inl, inr, Bool, true, false, ◌&&◌, List, [], ◌++◌, Bytes,
  codes, append_assoc, append-nil, ℤ, pos, negsuc, Option, none, some, unwrap_or, Bool-cases,
  int_eq, minus,
}
use red_couch.Ascii.Handlers.{crlf, tell}
use red_couch.Ascii.Handlers.Told.{Told, unchanged-Told, tell_unless-Told}
use red_couch.Ascii.Validate.{Checked, ok, err}
use red_couch.Meta.Flags.{
  MetaFlag, has_flag, validate_ms_flags, validate_md_flags, validate_ma_flags, validate_mn_flags,
  validate_me_flags, validate_mg_flags,
}
use red_couch.Meta.Handlers.{echo_unless}
use red_couch.Meta.Handlers.Count.{
  write_count, meta_counter_status, meta_counter_reply, meta_arithmetic,
}
use red_couch.Meta.Handlers.Delete.{meta_delete}
use red_couch.Meta.Handlers.Dispatch.{if_valid, dispatch_meta_cmd}
use red_couch.Meta.Handlers.Get.{meta_noop}
use red_couch.Meta.Handlers.Set.{meta_set}
use red_couch.Meta.Parse.{MetaCmd, get, set, delete, arithmetic, noop, debug}
use red_couch.Redis.{Redis, array, static_error, cons, Reply, eval_int, eval_str}
use red_couch.Server.Handler.{Conn, Handled}
use red_couch.Meta.Handlers.Get.{
  write_meta_hit, meta_get_reply, get_with_ttl, after_touch, touch_first, meta_get,
}
use red_couch.Meta.Handlers.Told.{echoed-ends, echo_unless-Told, meta_set-Told, meta_delete-Told}

-- a value and the end of its line, behind a line
value_behind :
    (before value : Bytes) {o : Bytes}
    → ((text : Bytes) × (o ≡ before ++ (text ++ crlf)))
    → (text : Bytes) × (o ++ (value ++ crlf) ≡ before ++ (text ++ crlf))
value_behind before value (text, e) = (
  (text ++ crlf) ++ value,
  ap (λ x. x ++ (value ++ crlf)) e
      ∙ append_assoc before (text ++ crlf) (value ++ crlf)
      ∙ ap (λ x. before ++ x) (sym (append_assoc (text ++ crlf) value crlf)),
)

-- a quiet miss appends nothing, and anything else what ends a line
abbrev QuietMiss : {r : Redis} → Bool → Bytes → Handled r → Type 0
QuietMiss quiet before (br, c) = Told false before (br, c) ⊎ ((quiet ≡ true) × (c.out ≡ before))

-- do the flags pass?
abbrev pub passes : Checked (Unit {0}) → Bool
passes (ok _) = true
passes (err _) = false

-- the commands whose flag `q` stands for silence
abbrev pub is_silent : MetaCmd → Bool
is_silent (set key datalen flags) = passes (validate_ms_flags flags) && has_flag flags b'q'
is_silent (delete key flags) = passes (validate_md_flags flags) && has_flag flags b'q'
is_silent (arithmetic key flags) = passes (validate_ma_flags flags) && has_flag flags b'q'
is_silent (debug key flags) = passes (validate_me_flags flags) && has_flag flags b'q'
is_silent _ = false

abbrev pub MetaTold : {r : Redis} → MetaCmd → Bytes → Handled r → Type 0
MetaTold (get key flags) before h = QuietMiss (has_flag flags b'q') before h
MetaTold cmd before h = Told (is_silent cmd) before h

module _ {r : Redis} where
  write_count-ends :
      (flags : List MetaFlag) (key value cas : Bytes) (c : Conn r)
      → (text : Bytes) × ((write_count flags key value cas c).out ≡ c.out ++ (text ++ crlf))
  unfolding write_count
  write_count-ends flags key value cas c = elim (Bool-cases (has_flag flags b'v')) [
    | inl e ↦ rw e (value_behind c.out value (echoed-ends _ flags key c))
    | inr e ↦ rw e (echoed-ends _ flags key c)
  ]

  counter_status-Told :
      (quiet : Bool) (flags : List MetaFlag) (key : Bytes) (status : ℤ) (value cas : Bytes)
      (c : Conn r)
      → Told quiet c.out (meta_counter_status quiet flags key status value cas c)
  unfolding meta_counter_status
  counter_status-Told true flags key (pos zero) value cas c = refl
  counter_status-Told false flags key (pos zero) value cas c =
      write_count-ends flags key value cas c
  counter_status-Told quiet flags key (negsuc zero) value cas c =
      echo_unless-Told quiet _ flags key c
  counter_status-Told quiet flags key (negsuc (suc (suc zero))) value cas c =
      tell_unless-Told quiet _ _
  counter_status-Told quiet flags key _ value cas c = tell_unless-Told quiet _ _

  counter_reply-Told :
      (is_decr quiet : Bool) (flags : List MetaFlag) (key : Bytes) (reply : Reply) (c : Conn r)
      → Told quiet c.out (meta_counter_reply is_decr quiet flags key reply c)
  unfolding meta_counter_reply
  counter_reply-Told is_decr quiet flags key (Reply.err e) c = unchanged-Told quiet _ c
  counter_reply-Told is_decr quiet flags key (Reply.ok (static_error e)) c =
      tell_unless-Told quiet _ _
  counter_reply-Told is_decr quiet flags key
        (Reply.ok (array (cons status (cons value (cons cas _))))) c =
      counter_status-Told quiet flags key (eval_int status) (eval_str r value) (eval_str r cas) _
  counter_reply-Told is_decr quiet flags key _ c = tell_unless-Told quiet _ _

  meta_arithmetic-Told :
      (key : Bytes) (flags : List MetaFlag) (c : Conn r)
      → Told (has_flag flags b'q') c.out (meta_arithmetic key flags c)
  unfolding meta_arithmetic
  meta_arithmetic-Told key flags c = counter_reply-Told _ (has_flag flags b'q') flags key _ _

  tell-Told : (line : Bytes) (c : Conn r) → Told false c.out (tell line c)
  unfolding tell
  tell-Told line c = (line, refl)

  hit-Told :
      (flags : List MetaFlag) (key value item_flags cas : Bytes) (ttl size : ℤ) (c : Conn r)
      → (text : Bytes) × ((write_meta_hit flags key value item_flags cas ttl size c).out
          ≡ c.out ++ (text ++ crlf))
  unfolding write_meta_hit
  hit-Told flags key value item_flags cas ttl size c = elim (Bool-cases (has_flag flags b'v')) [
    | inl e ↦ rw e (value_behind c.out value (echoed-ends _ flags key c))
    | inr e ↦ rw e (echoed-ends _ flags key c)
  ]

  miss-QuietMiss :
      (quiet : Bool) (flags : List MetaFlag) (key : Bytes) (c : Conn r)
      → QuietMiss quiet c.out (echo_unless quiet (codes "EN") flags key c)
  unfolding echo_unless
  miss-QuietMiss true flags key c = inr (refl, refl)
  miss-QuietMiss false flags key c = inl (echoed-ends (codes "EN") flags key c)

  get_reply-QuietMiss :
      (flags : List MetaFlag) (key : Bytes) (reply : Reply) (c : Conn r)
      → QuietMiss (has_flag flags b'q') c.out (meta_get_reply flags key reply c)
  unfolding meta_get_reply
  get_reply-QuietMiss flags key (Reply.err e) c = inl ([], sym (append-nil c.out))
  get_reply-QuietMiss flags key (Reply.ok (static_error e)) c = inl (tell-Told _ c)
  get_reply-QuietMiss flags key
        (Reply.ok
          (array (cons status (cons hex (cons item_flags (cons cas (cons ttl (cons size _))))))))
        c =
      elim (Bool-cases (int_eq (eval_int status) (minus 1))) [
        | inl e ↦ rw e (miss-QuietMiss (has_flag flags b'q') flags key _)
        | inr e ↦ rw e (inl (hit-Told flags key _ _ _ _ _ _))
      ]
  get_reply-QuietMiss flags key _ c = inl (tell-Told _ c)

  after_touch-QuietMiss :
      (flags : List MetaFlag) (key : Bytes) (reply : Reply) (c : Conn r)
      → QuietMiss (has_flag flags b'q') c.out (after_touch flags key reply c)
  unfolding after_touch get_with_ttl
  after_touch-QuietMiss flags key (Reply.err e) c = inl ([], sym (append-nil c.out))
  after_touch-QuietMiss flags key (Reply.ok v) c = get_reply-QuietMiss flags key _ _

  touch_first-QuietMiss :
      (flags : List MetaFlag) (key : Bytes) (ttl : Option Bytes) (c : Conn r)
      → QuietMiss (has_flag flags b'q') c.out (touch_first flags key ttl c)
  unfolding touch_first get_with_ttl
  touch_first-QuietMiss flags key none c = get_reply-QuietMiss flags key _ _
  touch_first-QuietMiss flags key (some ttl) c = after_touch-QuietMiss flags key _ _

  if_valid-Told :
      (checked : Checked (Unit {0})) (quiet : Bool) (next : Conn r → Handled r) (c : Conn r)
      → Told quiet c.out (next c)
      → Told (passes checked && quiet) c.out (if_valid checked next c)
  unfolding if_valid
  if_valid-Told (ok _) quiet next c h = h
  if_valid-Told (err e) quiet next c h = tell-Told _ c

  loud :
      (checked : Checked (Unit {0})) (next : Conn r → Handled r) (c : Conn r)
      → Told false c.out (next c)
      → Told false c.out (if_valid checked next c)
  unfolding if_valid
  loud (ok _) next c h = h
  loud (err e) next c h = tell-Told _ c

  if_valid-QuietMiss :
      (checked : Checked (Unit {0})) (quiet : Bool) (next : Conn r → Handled r) (c : Conn r)
      → QuietMiss quiet c.out (next c)
      → QuietMiss quiet c.out (if_valid checked next c)
  unfolding if_valid
  if_valid-QuietMiss (ok _) quiet next c h = h
  if_valid-QuietMiss (err e) quiet next c h = inl (tell-Told _ c)

  -- A meta set, delete, arithmetic or debug command with valid flags and `q` among them appends nothing
  -- to `out`, whatever Redis answers; `mg` with `q` appends nothing or, as it does without, what ends
  -- a line. Every other command that succeeds appends a text that ends a line, flags that are not
  -- valid included, and one that fails at most a part of an answer.
  pub dispatch_meta_cmd-MetaTold :
      (cmd : MetaCmd) (data_bytes : Option Bytes) (c : Conn r)
      → MetaTold cmd c.out (dispatch_meta_cmd cmd data_bytes c)
  unfolding dispatch_meta_cmd meta_noop meta_get
  dispatch_meta_cmd-MetaTold (noop flags) d c =
      loud (validate_mn_flags flags) (meta_noop flags) c (tell-Told _ c)
  dispatch_meta_cmd-MetaTold (get key flags) d c =
      if_valid-QuietMiss (validate_mg_flags flags) (has_flag flags b'q') (meta_get key flags) c
        (touch_first-QuietMiss flags key _ _)
  dispatch_meta_cmd-MetaTold (set key datalen flags) d c =
      if_valid-Told (validate_ms_flags flags) (has_flag flags b'q')
        (meta_set key (unwrap_or d []) flags) c (meta_set-Told key (unwrap_or d []) flags c)
  dispatch_meta_cmd-MetaTold (delete key flags) d c =
      if_valid-Told (validate_md_flags flags) (has_flag flags b'q') (meta_delete key flags) c
        (meta_delete-Told key flags c)
  dispatch_meta_cmd-MetaTold (arithmetic key flags) d c =
      if_valid-Told (validate_ma_flags flags) (has_flag flags b'q') (meta_arithmetic key flags) c
        (meta_arithmetic-Told key flags c)
  dispatch_meta_cmd-MetaTold (debug key flags) d c =
      if_valid-Told (validate_me_flags flags) (has_flag flags b'q')
        (echo_unless (has_flag flags b'q') (codes "EN") flags key) c
        (echo_unless-Told (has_flag flags b'q') (codes "EN") flags key c)
