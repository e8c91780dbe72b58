-- ===== src/Protocol/Frame/Sound.antt =====
-- What `try_parse_request` takes off the buffer.
use red_couch.Base.{
  ℕ, ◌+◌, ◌≤◌, ◌≡◌, ap, ◌∙◌, sym, some, [], ◌∷◌, ◌++◌, Bytes, length, slice, take,
  take-append-slice, length-slice, arith,
}
use red_couch.ByteOrder.{ByteOrder}
use red_couch.Protocol.Header
use red_couch.Protocol.Header.{Header}
use red_couch.Protocol.Frame.{
  Request, ParseResult, ok, incomplete, bad_magic, malformed_frame, oversized_frame, cut,
  with_header, try_parse_request,
}
use red_couch.Protocol.Wire.{max_body_len, max_key_len}

-- The first `used` bytes of `buf` are a header of 24 bytes and the request's three parts, whose
-- lengths are those that the header declares and within the limits.
pub record IsFrame (buf : Bytes) (req : Request) (used : ℕ) : Type 0 where
  pub within : used ≤ length buf
  pub total : used ≡ 24 + req.hdr.body_len
  pub parts : take used buf ≡ take 24 buf ++ req.extras ++ req.key ++ req.value
  pub extras_len : length req.extras ≡ req.hdr.extras_len
  pub key_len : length req.key ≡ req.hdr.key_len
  pub value_len : 24 + length req.extras + length req.key + length req.value ≡ used
  pub key_max : length req.key ≤ max_key_len
  pub body_max : req.hdr.body_len ≤ max_body_len

cut-IsFrame :
    (h : Header) (buf : Bytes)
    → 24 + h.extras_len + h.key_len ≤ 24 + h.body_len
    → 24 + h.body_len ≤ length buf
    → h.key_len ≤ max_key_len
    → h.body_len ≤ max_body_len
    → IsFrame buf (cut h buf) (24 + h.body_len)
unfolding cut
cut-IsFrame h buf p q k m =
    let e = 24 + h.extras_len in
    let f = e + h.key_len in
    let t = 24 + h.body_len in
    let le = length-slice 24 e buf (omega arith) (omega arith) in
    let lk = length-slice e f buf (omega arith) (omega arith) in
    let lv = length-slice f t buf (omega arith) (omega arith) in
    record {
      within = q;
      total = omega arith;
      parts =
          sym (take-append-slice f t buf (omega arith))
          ∙ ap (λ xs. xs ++ slice f t buf)
              (sym (take-append-slice e f buf (omega arith))
                ∙ ap (λ xs. xs ++ slice e f buf) (sym (take-append-slice 24 e buf (omega arith))));
      extras_len = omega (arith, le);
      key_len = omega (arith, lk);
      value_len = omega (arith, le, lk, lv);
      key_max = omega (arith, lk);
      body_max = m;
    }

-- What may be taken off a buffer after each outcome.
abbrev pub Consumes : Bytes → ParseResult (Request × ℕ) → Type 0
Consumes buf (ok (req, used)) = IsFrame buf req used
Consumes buf incomplete = Unit {0}
Consumes buf bad_magic = Unit {0}
Consumes buf (malformed_frame _ _ skip) = (24 ≤ skip) × (skip ≤ length buf)
Consumes buf (oversized_frame _ _) = Unit {0}

module _ ⦃bo : ByteOrder⦄ where
  with_header-Consumes : (h : Header) (buf : Bytes) → Consumes buf (with_header (some h) buf)
  unfolding with_header
  with_header-Consumes h buf = ground (arith, cut-IsFrame h buf)

  -- On every buffer: a complete frame is a header and the request's parts, with the declared
  -- lengths, within the limits and within the buffer; a malformed frame is skipped by at least a
  -- header and at most the buffer.
  pub try_parse_request-Consumes : (buf : Bytes) → Consumes buf (try_parse_request buf)
  unfolding try_parse_request Header.parse
  try_parse_request-Consumes [] = tt
  try_parse_request-Consumes (b ∷ bs) =
      ground (arith, with_header-Consumes (Header.fields (b ∷ bs)) (b ∷ bs))
