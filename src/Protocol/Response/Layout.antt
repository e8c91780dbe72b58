-- ===== src/Protocol/Response/Layout.antt =====
-- What a client reads in a response.
use red_couch.Base.{
  ℕ, ◌+◌, ◌%◌, ◌^◌, ◌<◌, ◌≡◌, refl, sym, ap, ◌∙◌, ◌∷◌, ◌++◌, append_assoc, Bytes, length, get_or,
  slice, slice-append_part, length-append, arith,
}
use red_couch.ByteOrder.{ByteOrder, to_be, read_u16-to_be, read_u32-to_be, read_u64-to_be}
use red_couch.Protocol.Response.{ResponseMeta, response_header, write_raw_response}
use red_couch.Protocol.Wire.{magic_res}

append_five :
    (a b c d e f : Bytes) → (a ++ (b ++ (c ++ (d ++ e)))) ++ f ≡ a ++ (b ++ (c ++ (d ++ (e ++ f))))
append_five a b c d e f = simp append_assoc

-- the 24 bytes in front of the body
abbrev pub header_bytes : ℕ → ResponseMeta → ℕ → ℕ → ℕ → Bytes
header_bytes opcode_byte meta key_len extras_len total_body =
    magic_res
    ∷ opcode_byte
    ∷ (to_be 2 key_len
        ++ (extras_len
            ∷ 0
            ∷ (to_be 2 meta.status
                ++ (to_be 4 total_body ++ (to_be 4 meta.opaque ++ to_be 8 meta.cas)))))

-- The integers of a response fit their fields.
pub record Fits (meta : ResponseMeta) (extras key value : Bytes) : Type 0 where
  pub status_fits : meta.status < 2 ^ 16
  pub opaque_fits : meta.opaque < 2 ^ 32
  pub cas_fits : meta.cas < 2 ^ 64
  pub extras_fit : length extras < 2 ^ 8
  pub key_fits : length key < 2 ^ 16
  pub body_fits : length extras + length key + length value < 2 ^ 32

-- `r` begins with a response that has these fields at their offsets and these three parts.
pub record Reads ⦃bo : ByteOrder⦄ (r : Bytes) (opcode_byte : ℕ) (meta : ResponseMeta)
    (extras key value : Bytes) : Type 0 where
  pub magic : get_or r 0 0 ≡ magic_res
  pub opcode : get_or r 1 0 ≡ opcode_byte
  pub key_len : bo.read_u16 (slice 2 4 r) ≡ length key
  pub extras_len : get_or r 4 0 ≡ length extras
  pub data_type : get_or r 5 0 ≡ 0
  pub status : bo.read_u16 (slice 6 8 r) ≡ meta.status
  pub total_body : bo.read_u32 (slice 8 12 r) ≡ length extras + length key + length value
  pub opaque : bo.read_u32 (slice 12 16 r) ≡ meta.opaque
  pub cas : bo.read_u64 (slice 16 24 r) ≡ meta.cas
  pub extras_at : slice 24 (24 + length extras) r ≡ extras
  pub key_at : slice (24 + length extras) (24 + length extras + length key) r ≡ key
  pub value_at :
      slice (24 + length extras + length key) (24 + (length extras + length key + length value)) r
      ≡ value

module _ ⦃bo : ByteOrder⦄ where
  response_header_lem :
      (opcode_byte : ℕ) (meta : ResponseMeta) (extras key value : Bytes)
      → Fits meta extras key value
      → response_header opcode_byte meta extras key value
        ≡ header_bytes opcode_byte meta
            (length key)
            (length extras)
            (length extras + length key + length value)
  unfolding response_header to_be
  response_header_lem opcode_byte meta extras key value f =
      let e = length extras in
      let k = length key in
      let v = length value in
      let ek : k % 2 ^ 16 ≡ k = omega arith in
      let ee : e % 2 ^ 8 ≡ e = omega arith in
      let eb : (e % 2 ^ 32 + k % 2 ^ 32 + v % 2 ^ 32) % 2 ^ 32 ≡ e + k + v = omega arith in
      rw (
        eb,
        ek,
        ee,
        bo.write_u16_lem k f.key_fits,
        bo.write_u16_lem meta.status f.status_fits,
        bo.write_u32_lem (e + k + v) f.body_fits,
        bo.write_u32_lem meta.opaque f.opaque_fits,
        bo.write_u64_lem meta.cas f.cas_fits,
      )

  parts-Reads :
      (opcode_byte : ℕ) (meta : ResponseMeta) (extras key value rest : Bytes)
      → Fits meta extras key value
      → Reads
          (header_bytes opcode_byte meta
              (length key)
              (length extras)
              (length extras + length key + length value)
            ++ (extras ++ (key ++ (value ++ rest))))
          opcode_byte
          meta
          extras
          key
          value
  unfolding to_be
  parts-Reads opcode_byte meta extras key value rest f =
      let e = length extras in
      let k = length key in
      let v = length value in
      let hdr = header_bytes opcode_byte meta k e (e + k + v) in
      let behind_key = value ++ rest in
      let l = length-append hdr extras in
      let b = append_assoc hdr extras (key ++ behind_key) in
      let b' = append_assoc (hdr ++ extras) key behind_key ∙ b in
      record {
        magic = refl;
        opcode = refl;
        key_len = read_u16-to_be k f.key_fits;
        extras_len = refl;
        data_type = refl;
        status = read_u16-to_be meta.status f.status_fits;
        total_body = read_u32-to_be (e + k + v) f.body_fits;
        opaque = read_u32-to_be meta.opaque f.opaque_fits;
        cas = read_u64-to_be meta.cas f.cas_fits;
        extras_at = slice-append_part hdr extras (key ++ behind_key) 24 (24 + e) refl refl;
        key_at =
            ap (slice (24 + e) (24 + e + k)) (sym b)
            ∙ slice-append_part (hdr ++ extras) key behind_key (24 + e) (24 + e + k)
                (omega (arith, l)) refl;
        value_at =
            ap (slice (24 + e + k) (24 + (e + k + v))) (sym b')
            ∙ slice-append_part ((hdr ++ extras) ++ key) value rest (24 + e + k) (24 + (e + k + v))
                (omega (arith, l, length-append (hdr ++ extras) key)) (omega arith);
      }

  -- Where the integers fit their fields, a response leaves what was written before it, and a client
  -- that reads on behind that, whatever follows, finds the magic byte, each field at its offset and
  -- the three parts where the lengths say.
  pub write_raw_response-Reads :
      (w : Bytes) (opcode_byte : ℕ) (meta : ResponseMeta) (extras key value rest : Bytes)
      → Fits meta extras key value
      → (tail : Bytes) × (write_raw_response w opcode_byte meta extras key value ++ rest
          ≡ w ++ tail)
        × Reads tail opcode_byte meta extras key value
  unfolding write_raw_response
  write_raw_response-Reads w opcode_byte meta extras key value rest f =
      let body = length extras + length key + length value in
      let hdr = header_bytes opcode_byte meta (length key) (length extras) body in
      let tail = hdr ++ (extras ++ (key ++ (value ++ rest))) in
      (
        tail,
        ap (λ h. (w ++ (h ++ (extras ++ (key ++ value)))) ++ rest)
              (response_header_lem opcode_byte meta extras key value f)
            ∙ append_five w hdr extras key value rest,
        parts-Reads opcode_byte meta extras key value rest f,
      )
