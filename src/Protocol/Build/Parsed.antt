-- ===== src/Protocol/Build/Parsed.antt =====
-- A frame that was built is parsed back.
use mathlib.Core.Path.{subst}
use red_couch.Base.{
  take, drop, take-append-drop, length-take_le, append-nil, inl, inr, ℕ, ◌+◌, ◌≤◌, ◌<◌, ◌≡◌, refl,
  sym, ap, ◌∙◌, some, [], ◌++◌, append_assoc, Bytes, length, slice, slice-append_part,
  length-append, arith,
}
use red_couch.ByteOrder.{ByteOrder, to_be, read_u16-to_be, read_u32-to_be, read_u64-to_be}
use red_couch.Protocol.Build.{build_raw_request_frame}
use red_couch.Protocol.Build.Layout.{Fits, header_bytes, build_raw_request_frame_lem}
use red_couch.Protocol.Frame.{
  Request, ok, cut, incomplete, incomplete-cases, with_header, try_parse_request,
}
use red_couch.Protocol.Frame.Stable.{try_parse_request-append}
use red_couch.Protocol.Frame.Sound.{IsFrame, Consumes, try_parse_request-Consumes}
use red_couch.Protocol.Header
use red_couch.Protocol.Header.{Header}
use red_couch.Protocol.Opcode
use red_couch.Protocol.Wire.{max_body_len, max_key_len}

-- the header that a frame with these parts has
abbrev pub header_of : ℕ → ℕ → ℕ → Bytes → Bytes → Bytes → Header
header_of opcode_byte opaque cas extras key value = record {
  opcode = Opcode.parse opcode_byte;
  opcode_byte = opcode_byte;
  key_len = length key;
  extras_len = length extras;
  body_len = length extras + length key + length value;
  opaque = opaque;
  cas = cas;
}

append_four : (a b c d e : Bytes) → (a ++ (b ++ (c ++ d))) ++ e ≡ a ++ (b ++ (c ++ (d ++ e)))
append_four a b c d e = simp append_assoc

cut_parts :
    (hdr extras key value rest : Bytes) (h : Header)
    → length hdr ≡ 24
    → h.extras_len ≡ length extras
    → h.key_len ≡ length key
    → h.body_len ≡ length extras + length key + length value
    → cut h (hdr ++ (extras ++ (key ++ (value ++ rest))))
      ≡ record { hdr = h; extras = extras; key = key; value = value }
unfolding cut
cut_parts hdr extras key value rest h eh ee ek eb =
    let e = h.extras_len in
    let k = h.key_len in
    let buf = hdr ++ (extras ++ (key ++ (value ++ rest))) in
    let pre = hdr ++ extras in
    let pre' = pre ++ key in
    let l = length-append hdr extras in
    let p : slice 24 (24 + e) buf ≡ extras =
      slice-append_part hdr extras _ _ _ (omega arith) (omega arith) in
    let b : pre ++ (key ++ (value ++ rest)) ≡ buf =
      append_assoc hdr extras (key ++ (value ++ rest)) in
    let b' : pre' ++ (value ++ rest) ≡ buf = append_assoc pre key (value ++ rest) ∙ b in
    let q : slice (24 + e) (24 + e + k) buf ≡ key =
      ap (slice (24 + e) (24 + e + k)) (sym b)
      ∙ slice-append_part pre key (value ++ rest) _ _ (omega (arith, l)) (omega arith) in
    let r : slice (24 + e + k) (24 + h.body_len) buf ≡ value =
      ap (slice (24 + e + k) (24 + h.body_len)) (sym b')
      ∙ slice-append_part pre' value rest _ _ (omega (arith, l, length-append pre key))
          (omega arith) in
    λ i. record { hdr = h; extras = p i; key = q i; value = r i }

module _ ⦃bo : ByteOrder⦄ where
  fields-header_bytes :
      (opcode_byte opaque cas : ℕ) (extras key value rest : Bytes)
      → Fits opcode_byte opaque cas extras key value
      → Header.fields (
          header_bytes opcode_byte
            (length key)
            (length extras)
            (length extras + length key + length value)
            opaque
            cas
          ++ rest)
        ≡ header_of opcode_byte opaque cas extras key value
  unfolding Header.fields to_be
  fields-header_bytes opcode_byte opaque cas extras key value rest f = λ i. record {
    opcode = Opcode.parse opcode_byte;
    opcode_byte = opcode_byte;
    key_len = read_u16-to_be (length key) f.key_fits i;
    extras_len = length extras;
    body_len = read_u32-to_be (length extras + length key + length value) f.body_fits i;
    opaque = read_u32-to_be opaque f.opaque_fits i;
    cas = read_u64-to_be cas f.cas_fits i;
  }

  with_header-ok :
      (h : Header) (buf : Bytes)
      → h.extras_len + h.key_len ≤ h.body_len
      → 24 + h.body_len ≤ length buf
      → h.key_len ≤ max_key_len
      → h.body_len ≤ max_body_len
      → with_header (some h) buf ≡ ok (cut h buf, 24 + h.body_len)
  unfolding with_header
  with_header-ok h buf p q k m = ground arith

  -- A frame is built of an opcode byte, an opaque value below 2^32, a CAS value below 2^64, fewer than 256
  -- bytes of extras, a key of at most 250 bytes and a value, a body of at most 20 MiB. Whatever bytes
  -- follow it, it is parsed as a request with the same fields and parts, and with the frame's length.
  pub try_parse_request-build :
      (opcode_byte opaque cas : ℕ) (extras key value rest : Bytes)
      → Fits opcode_byte opaque cas extras key value
      → length key ≤ max_key_len
      → length extras + length key + length value ≤ max_body_len
      → try_parse_request (build_raw_request_frame opcode_byte opaque cas extras key value ++ rest)
        ≡ ok (
          record {
            hdr = header_of opcode_byte opaque cas extras key value;
            extras = extras;
            key = key;
            value = value;
          },
          24 + (length extras + length key + length value),
        )
  unfolding try_parse_request to_be
  try_parse_request-build opcode_byte opaque cas extras key value rest f hk hm =
      let body = length extras + length key + length value in
      let hdr = header_bytes opcode_byte (length key) (length extras) body opaque cas in
      let tail = extras ++ (key ++ (value ++ rest)) in
      let h = header_of opcode_byte opaque cas extras key value in
      ap try_parse_request (
        ap (λ t. t ++ rest) (build_raw_request_frame_lem opcode_byte opaque cas extras key value f)
        ∙ append_four hdr extras key value rest)
      ∙ ap (λ x. with_header x (hdr ++ tail)) (Header.parse_long (hdr ++ tail) (omega arith))
      ∙ ap (λ (x : Header). with_header (some x) (hdr ++ tail))
          (fields-header_bytes opcode_byte opaque cas extras key value tail f)
      ∙ with_header-ok h (hdr ++ tail) (omega arith)
          (omega (
            arith,
            length-append hdr tail,
            length-append extras (key ++ (value ++ rest)),
            length-append key (value ++ rest),
            length-append value rest,
          ))
          hk hm
      ∙ ap (λ (x : Request). ok (x, 24 + body))
          (cut_parts hdr extras key value rest h refl refl refl refl)

  -- A frame is built of an opcode byte, an opaque value below 2^32, a CAS value below 2^64, fewer than 256
  -- bytes of extras, a key of at most 250 bytes and a value, a body of at most 20 MiB. Every proper
  -- prefix of it, the empty one included, is incomplete.
  pub try_parse_request-take :
      (opcode_byte opaque cas : ℕ) (extras key value : Bytes) (n : ℕ)
      → Fits opcode_byte opaque cas extras key value
      → length key ≤ max_key_len
      → length extras + length key + length value ≤ max_body_len
      → n < 24 + (length extras + length key + length value)
      → try_parse_request (take n (build_raw_request_frame opcode_byte opaque cas extras key value))
        ≡ incomplete
  try_parse_request-take opcode_byte opaque cas extras key value n f hk hm hn =
      let frame = build_raw_request_frame opcode_byte opaque cas extras key value in
      let whole = try_parse_request-build opcode_byte opaque cas extras key value [] f hk hm in
      elim (incomplete-cases (try_parse_request (take n frame))) [
        | inl e ↦ e
        | inr done ↦
            let stays = try_parse_request-append (take n frame) (drop n frame) done in
            let same = ap try_parse_request (take-append-drop n frame ∙ sym (append-nil frame)) in
            let result = sym stays ∙ same ∙ whole in
            let fits_in : IsFrame (take n frame) _ _ =
              subst (Consumes (take n frame)) result (try_parse_request-Consumes (take n frame)) in
            absurd (omega (arith, fits_in.within, length-take_le n frame))
      ]
