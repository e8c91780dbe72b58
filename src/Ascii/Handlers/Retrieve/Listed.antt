-- ===== src/Ascii/Handlers/Retrieve/Listed.antt =====
-- What `ascii_retrieval` writes for its keys.
use mathlib.Core.Path.{subst}
use red_couch.Base.{
  ℕ, ◌≡◌, refl, sym, ap, ◌∙◌, ◌⊎◌, inl, inr, Bool, false, Option, List, [], ◌∷◌, ◌++◌, Bytes, codes,
  append_assoc, append-nil, int_eq, minus, Bool-cases,
}
use red_couch.Hex.{hex_decode}
use red_couch.Ascii.Command.{RetrievalOp}
use red_couch.Ascii.Handlers.{crlf, tell}
use red_couch.Ascii.Handlers.Told.{Told}
use red_couch.Ascii.Handlers.Retrieve.{
  include_cas, value_block, write_value, retrieval_reply, retrieve_one, next_key, ascii_retrieval,
}
use red_couch.Redis.{
  Redis, RedisValue, RedisValues, array, static_error, cons, Reply, ok, err, eval_int, eval_str,
}
use red_couch.Server.Handler.{done, failed, Conn, Handled}

-- nothing, or the block of a hit
abbrev pub IsBlock : Bool → Bytes → Bytes → Type 0
IsBlock with_cas key block =
    (block ≡ [])
    ⊎ ((flags : Bytes) × (value : Bytes) × (cas : Bytes) × (block
          ≡ value_block with_cas key flags value cas))

-- for each key in turn nothing or its block, and then `END`
abbrev pub Listed : Bool → List Bytes → Bytes → Type 0
Listed with_cas [] text = text ≡ codes "END" ++ crlf
Listed with_cas (key ∷ keys) text =
    (block : Bytes) × (rest : Bytes) × ((text ≡ block ++ rest)
      × (IsBlock with_cas key block × Listed with_cas keys rest))

-- `Ok` with a whole answer, or an error with a part of it
abbrev pub Retrieved : {r : Redis} → Bool → List Bytes → Bytes → Handled r → Type 0
Retrieved with_cas keys before (done, c) =
    (text : Bytes) × ((c.out ≡ before ++ text) × Listed with_cas keys text)
Retrieved with_cas keys before (failed e, c) = (text : Bytes) × (c.out ≡ before ++ text)

abbrev OneBlock : {r : Redis} → Bool → Bytes → Bytes → Conn r → Type 0
OneBlock with_cas key before c =
    (block : Bytes) × ((c.out ≡ before ++ block) × IsBlock with_cas key block)

module _ {r : Redis} where
  no_block : (with_cas : Bool) (key : Bytes) (c : Conn r) → OneBlock with_cas key c.out c
  no_block with_cas key c = ([], (sym (append-nil c.out), inl refl))

  hit_or_miss :
      (with_cas : Bool) (key : Bytes) (status hex flags cas : RedisValue) (rest : RedisValues)
      (c : Conn r)
      → OneBlock with_cas key c.out
          (retrieval_reply with_cas key
            (ok (array (cons status (cons hex (cons flags (cons cas rest))))))
            c).1
  unfolding retrieval_reply write_value
  hit_or_miss with_cas key status hex flags cas rest c =
      elim (Bool-cases (int_eq (eval_int status) (minus 1))) [
        | inl missing ↦ rw missing (no_block with_cas key c)
        | inr hit ↦
            rw hit
              (_, (refl, inr (eval_str r flags, hex_decode (eval_str r hex), eval_str r cas, refl)))
      ]

  retrieval_reply-OneBlock :
      (with_cas : Bool) (key : Bytes) (reply : Reply) (c : Conn r)
      → OneBlock with_cas key c.out (retrieval_reply with_cas key reply c).1
  unfolding retrieval_reply
  retrieval_reply-OneBlock with_cas key (err e) c = no_block with_cas key c
  retrieval_reply-OneBlock with_cas key (ok (static_error e)) c = no_block with_cas key c
  retrieval_reply-OneBlock with_cas key
        (ok (array (cons status (cons hex (cons flags (cons cas rest)))))) c =
      hit_or_miss with_cas key status hex flags cas rest c
  retrieval_reply-OneBlock with_cas key _ c = no_block with_cas key c

  retrieve_one-OneBlock :
      (cmd : RetrievalOp) (exptime : Option ℕ) (key : Bytes) (c : Conn r)
      → OneBlock (include_cas cmd) key c.out (retrieve_one cmd exptime key c).1
  unfolding retrieve_one
  retrieve_one-OneBlock cmd exptime key c = retrieval_reply-OneBlock (include_cas cmd) key _ _

  longer :
      (with_cas : Bool) (key : Bytes) (keys : List Bytes) (before block : Bytes) (h : Handled r)
      → IsBlock with_cas key block
      → Retrieved with_cas keys (before ++ block) h
      → Retrieved with_cas (key ∷ keys) before h
  longer with_cas key keys before block (done, c) b (text, (e, listed)) =
      (block ++ text, (e ∙ append_assoc before block text, (block, text, (refl, (b, listed)))))
  longer with_cas key keys before block (failed x, c) b (text, e) =
      (block ++ text, e ∙ append_assoc before block text)

  next_key-Retrieved :
      (with_cas : Bool) (key : Bytes) (keys : List Bytes) (before : Bytes)
      (next : Conn r → Handled r)
      → ((c : Conn r) → Retrieved with_cas keys c.out (next c))
      → (h : Handled r) → OneBlock with_cas key before h.1
      → Retrieved with_cas (key ∷ keys) before (next_key h next)
  unfolding next_key
  next_key-Retrieved with_cas key keys before next all (done, c) (block, (e, b)) =
      longer with_cas key keys before block (next c) b
        (subst (λ o. Retrieved with_cas keys o (next c)) e (all c))
  next_key-Retrieved with_cas key keys before next all (failed x, c) (block, (e, b)) = (block, e)

  -- whatever Redis answers: for every key nothing or some block, and then `END`, or an error with a part
  -- of that
  pub ascii_retrieval-Retrieved :
      (cmd : RetrievalOp) (exptime : Option ℕ) (keys : List Bytes) (c : Conn r)
      → Retrieved (include_cas cmd) keys c.out (ascii_retrieval cmd exptime keys c)
  unfolding ascii_retrieval tell
  ascii_retrieval-Retrieved cmd exptime [] c = (codes "END" ++ crlf, (refl, refl))
  ascii_retrieval-Retrieved cmd exptime (key ∷ keys) c =
      next_key-Retrieved (include_cas cmd) key keys c.out (ascii_retrieval cmd exptime keys)
        (ascii_retrieval-Retrieved cmd exptime keys) (retrieve_one cmd exptime key c)
        (retrieve_one-OneBlock cmd exptime key c)

Listed-ends :
    (with_cas : Bool) (keys : List Bytes) (text : Bytes)
    → Listed with_cas keys text
    → (t : Bytes) × (text ≡ t ++ crlf)
Listed-ends with_cas [] text e = (codes "END", e)
Listed-ends with_cas (key ∷ keys) text (block, rest, (e, (b, listed))) =
    let (t, e') = Listed-ends with_cas keys rest listed in
    (block ++ t, e ∙ ap (λ x. block ++ x) e' ∙ sym (append_assoc block t crlf))

pub Retrieved-Told :
    {r : Redis} (with_cas : Bool) (keys : List Bytes) (before : Bytes) (h : Handled r)
    → Retrieved with_cas keys before h
    → Told false before h
Retrieved-Told with_cas keys before (done, c) (text, (e, listed)) =
    let (t, e') = Listed-ends with_cas keys text listed in (t, e ∙ ap (λ x. before ++ x) e')
Retrieved-Told with_cas keys before (failed x, c) h = h
