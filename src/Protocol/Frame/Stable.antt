-- ===== src/Protocol/Frame/Stable.antt =====
-- Bytes that arrive later do not change what the parser has decided.
use red_couch.Base.{
  ℕ, ◌+◌, ◌≤◌, ◌≡◌, refl, ◌≢◌, some, [], ◌∷◌, ◌++◌, Bytes, length, slice, arith, length-append,
  take-append_le, drop-append_le, length-drop, get_or-append,
}
use red_couch.ByteOrder.{ByteOrder}
use red_couch.Protocol.Header
use red_couch.Protocol.Header.{Header}
use red_couch.Protocol.Frame.{incomplete, cut, with_header, try_parse_request}
use red_couch.Protocol.Wire.{header_len}

slice-append :
    (lo hi : ℕ) (xs ys : Bytes) → lo ≤ hi → hi ≤ length xs → slice lo hi (xs ++ ys) ≡ slice lo hi xs
slice-append lo hi xs ys h k =
    rw (drop-append_le lo xs ys (omega arith))
      (take-append_le _ _ ys (omega (arith, length-drop lo xs)))

module _ ⦃bo : ByteOrder⦄ where
  fields-append : (xs ys : Bytes) → 24 ≤ length xs → Header.fields (xs ++ ys) ≡ Header.fields xs
  unfolding Header.fields
  fields-append xs ys h = rw (get_or-append xs ys 1 0 (omega arith)) (
      rw (get_or-append xs ys 4 0 (omega arith)) (
        rw (slice-append 2 4 xs ys (omega arith) (omega arith)) (
          rw (slice-append 8 12 xs ys (omega arith) (omega arith)) (
            rw (slice-append 12 16 xs ys (omega arith) (omega arith))
              (rw (slice-append 16 24 xs ys (omega arith) (omega arith)))))))

  cut-append :
      (h : Header) (xs ys : Bytes)
      → 24 + h.extras_len + h.key_len ≤ 24 + h.body_len
      → 24 + h.body_len ≤ length xs
      → cut h (xs ++ ys) ≡ cut h xs
  unfolding cut
  cut-append h xs ys p q =
      rw (slice-append header_len (header_len + h.extras_len) xs ys (omega arith) (omega arith)) (
        rw
          (slice-append (header_len + h.extras_len) (header_len + h.extras_len + h.key_len) xs ys
            (omega arith) (omega arith))
          (rw (
            slice-append (header_len + h.extras_len + h.key_len) (header_len + h.body_len) xs ys
              (omega arith) (omega arith))))

  with_header-append :
      (h : Header) (xs ys : Bytes)
      → with_header (some h) xs ≢ incomplete
      → with_header (some h) (xs ++ ys) ≡ with_header (some h) xs
  unfolding with_header
  with_header-append h xs ys done = ground (arith, length-append xs ys, cut-append h xs ys)

  -- Once a buffer has been parsed as anything but incomplete, the bytes that follow it change
  -- neither the outcome nor any part of it.
  pub try_parse_request-append :
      (xs ys : Bytes)
      → try_parse_request xs ≢ incomplete
      → try_parse_request (xs ++ ys) ≡ try_parse_request xs
  unfolding try_parse_request Header.parse
  try_parse_request-append [] ys done = absurd (done refl)
  try_parse_request-append (b ∷ bs) ys done = ground (
    arith,
    length-append bs ys,
    fields-append (b ∷ bs) ys,
    with_header-append (Header.fields (b ∷ bs)) (b ∷ bs) ys,
  )
