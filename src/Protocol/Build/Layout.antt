-- ===== src/Protocol/Build/Layout.antt =====
-- The bytes of a frame that was built: the header, then the parts.
use red_couch.Base.{
  ℕ, ◌+◌, ◌%◌, ◌^◌, ◌<◌, ◌≡◌, refl, sym, ap, ◌∙◌, ◌∷◌, ◌++◌, append_assoc, append-nil, Bytes,
  length, replicate, replicate-add, write_at, write_at-append, write_at-replicate, length-append,
  arith,
}
use red_couch.ByteOrder.{ByteOrder, to_be}
use red_couch.Protocol.Build.{write_header, build_raw_request_frame}
use red_couch.Protocol.Wire.{magic_req}

-- the 24 bytes in front of the body
abbrev pub header_bytes : ℕ → ℕ → ℕ → ℕ → ℕ → ℕ → Bytes
header_bytes opcode_byte key_len extras_len body_len opaque cas =
    magic_req
    ∷ opcode_byte
    ∷ (to_be 2 key_len
        ++ (extras_len ∷ 0 ∷ 0 ∷ 0 ∷ (to_be 4 body_len ++ (to_be 4 opaque ++ to_be 8 cas))))

module _ ⦃bo : ByteOrder⦄ where
  write_header_lem :
      (opcode_byte opaque cas : ℕ) (extras key : Bytes) (body_len : ℕ) (rest : Bytes)
      → length key < 2 ^ 16
      → length extras < 2 ^ 8
      → body_len < 2 ^ 32
      → opaque < 2 ^ 32
      → cas < 2 ^ 64
      → write_header opcode_byte opaque cas extras key body_len (replicate 24 0 ++ rest)
        ≡ header_bytes opcode_byte (length key) (length extras) body_len opaque cas ++ rest
  unfolding write_header to_be
  write_header_lem opcode_byte opaque cas extras key body_len rest hk he hb ho hc =
      let ek : length key % 2 ^ 16 ≡ length key = omega arith in
      let ee : length extras % 2 ^ 8 ≡ length extras = omega arith in
      let eb : body_len % 2 ^ 32 ≡ body_len = omega arith in
      rw (
        ek,
        ee,
        eb,
        bo.write_u16_lem (length key) hk,
        bo.write_u32_lem body_len hb,
        bo.write_u32_lem opaque ho,
        bo.write_u64_lem cas hc,
      )

write_at_zeros :
    (pre ys : Bytes) (n m : ℕ)
    → m ≡ length pre
    → write_at m ys (pre ++ replicate (length ys + n) 0) ≡ (pre ++ ys) ++ replicate n 0
write_at_zeros pre ys n m e = rw e (
    write_at-append pre ys (replicate (length ys + n) 0)
    ∙ ap (λ t. pre ++ t) (write_at-replicate ys n 0)
    ∙ sym (append_assoc pre ys (replicate n 0)))

-- the three writes behind the header
abbrev write_body : Bytes → Bytes → Bytes → Bytes → Bytes
write_body extras key value frame =
    write_at (24 + length extras + length key) value
      (write_at (24 + length extras) key (write_at 24 extras frame))

write_body_lem :
    (hdr extras key value : Bytes)
    → length hdr ≡ 24
    → write_body extras key value (hdr ++ replicate (length extras + length key + length value) 0)
      ≡ hdr ++ (extras ++ (key ++ value))
write_body_lem hdr extras key value h =
    let e = length extras in
    let k = length key in
    let v = length value in
    ap (λ n. write_body extras key value (hdr ++ replicate n 0)) (sum_right e k v)
    ∙ ap (λ f. write_at (24 + e + k) value (write_at (24 + e) key f))
        (write_at_zeros hdr extras (k + (v + 0)) 24 (sym h))
    ∙ ap (λ f. write_at (24 + e + k) value f)
        (write_at_zeros (hdr ++ extras) key (v + 0) (24 + e)
          (omega (arith, length-append hdr extras)))
    ∙ write_at_zeros ((hdr ++ extras) ++ key) value 0 (24 + e + k)
        (omega (arith, length-append hdr extras, length-append (hdr ++ extras) key))
    ∙ simp (append-nil, append_assoc)
  where
    sum_right : (a b c : ℕ) → a + b + c ≡ a + (b + (c + 0))
    sum_right a b c = omega arith

-- The integers of a frame fit their fields.
pub record Fits (opcode_byte opaque cas : ℕ) (extras key value : Bytes) : Type 0 where
  pub opcode_fits : opcode_byte < 2 ^ 8
  pub opaque_fits : opaque < 2 ^ 32
  pub cas_fits : cas < 2 ^ 64
  pub extras_fit : length extras < 2 ^ 8
  pub key_fits : length key < 2 ^ 16
  pub body_fits : length extras + length key + length value < 2 ^ 32

module _ ⦃bo : ByteOrder⦄ where
  -- Where the integers fit their fields, the frame that the writes build is the header's 24 bytes,
  -- then the extras, the key and the value.
  pub build_raw_request_frame_lem :
      (opcode_byte opaque cas : ℕ) (extras key value : Bytes)
      → Fits opcode_byte opaque cas extras key value
      → build_raw_request_frame opcode_byte opaque cas extras key value
        ≡ header_bytes opcode_byte
            (length key)
            (length extras)
            (length extras + length key + length value)
            opaque
            cas
          ++ (extras ++ (key ++ value))
  unfolding build_raw_request_frame to_be
  build_raw_request_frame_lem opcode_byte opaque cas extras key value fits =
      let body = length extras + length key + length value in
      ap (write_body extras key value) (
        ap (write_header opcode_byte opaque cas extras key body) (replicate-add {A = ℕ} 24 body 0)
        ∙ write_header_lem opcode_byte opaque cas extras key body (replicate body 0) fits.key_fits
            fits.extras_fit fits.body_fits fits.opaque_fits fits.cas_fits)
      ∙ write_body_lem (header_bytes opcode_byte (length key) (length extras) body opaque cas)
          extras key value refl
