-- ===== src/Tests/Protocol.antt =====
-- The binary protocol and the hex text at concrete inputs.
use red_couch.Base.{
  ◌*◌, ◌≡◌, ◌≢◌, ◌↔◌, ◌⊎◌, refl, none, some, false, [], ◌∷◌, ◌++◌, Bytes, IsBytes, codes, length,
  take, arith,
}
use red_couch.ByteOrder.{network_order, to_be, of_be}
use red_couch.Hex.{hex_decode, hex_encode}
use red_couch.Hex.RoundTrip.{hex_decode-hex_encode, hex_decode_bytes}
use red_couch.Protocol.Build.{build_raw_request_frame}
use red_couch.Protocol.Build.Layout
use red_couch.Protocol.Build.Layout.{header_bytes, build_raw_request_frame_lem}
use red_couch.Protocol.Build.Parsed.{header_of, try_parse_request-build, try_parse_request-take}
use red_couch.Protocol.Frame.{
  ok, incomplete, bad_magic, malformed_frame, oversized_frame, cut, try_parse_request,
  parse_request,
}
use red_couch.Protocol.Frame.Sound.{Consumes, try_parse_request-Consumes}
use red_couch.Protocol.Frame.Stable.{try_parse_request-append}
use red_couch.Protocol.Header
use red_couch.Protocol.Opcode
use red_couch.Protocol.Opcode.{Opcode}
use red_couch.Protocol.Opcode.Bytes.{parse_iff, base_lem}
use red_couch.Protocol.Response.{ResponseMeta, write_raw_response}
use red_couch.Protocol.Response.Layout.{Reads, write_raw_response-Reads}

parse_iff_example : (Opcode.parse 0x0d ≡ some Opcode.get_kq) ↔ (Opcode.to_byte Opcode.get_kq ≡ 0x0d)
parse_iff_example = parse_iff 0x0d Opcode.get_kq

base_lem_example :
    (Opcode.is_quiet (Opcode.base Opcode.get_kq) ≡ false)
    × (Opcode.base (Opcode.base Opcode.get_kq) ≡ Opcode.base Opcode.get_kq)
    × (Opcode.includes_key (Opcode.base Opcode.get_kq) ≡ Opcode.includes_key Opcode.get_kq)
    × ((Opcode.is_quiet Opcode.get_kq ≡ false) ↔ (Opcode.base Opcode.get_kq ≡ Opcode.get_kq))
base_lem_example = base_lem Opcode.get_kq

abbrev extras : Bytes
extras = 0 ∷ 0 ∷ 0 ∷ 42 ∷ 0 ∷ 0 ∷ 1 ∷ 0 ∷ []

abbrev set_frame : Bytes
set_frame = build_raw_request_frame 0x01 7 9 extras (codes "foo") (codes "bar")

-- the bytes of a SET of "foo"
set_frame_bytes :
    set_frame
    ≡ 0x80 ∷ 1 ∷ 0 ∷ 3 ∷ 8 ∷ 0 ∷ 0 ∷ 0 ∷ 0 ∷ 0 ∷ 0 ∷ 14 ∷ 0 ∷ 0 ∷ 0 ∷ 7 ∷ 0 ∷ 0 ∷ 0 ∷ 0 ∷ 0 ∷ 0 ∷ 0
      ∷ 9 ∷ 0 ∷ 0 ∷ 0 ∷ 42 ∷ 0 ∷ 0 ∷ 1 ∷ 0 ∷ 102 ∷ 111 ∷ 111 ∷ 98 ∷ 97 ∷ 114 ∷ []
unfolding build_raw_request_frame to_be
set_frame_bytes = refl

-- a key that is longer than the body, and a body above the limit
bad_frames :
    (try_parse_request (build_raw_request_frame 0x01 7 9 [] (codes "foo") [] ++ set_frame)
      ≡ ok (
        record {
          hdr = header_of 0x01 7 9 [] (codes "foo") [];
          extras = [];
          key = codes "foo";
          value = [];
        },
        27,
      ))
    × (try_parse_request (
          0x80 ∷ 0 ∷ 0 ∷ 3 ∷ 0 ∷ 0 ∷ 0 ∷ 0 ∷ 0 ∷ 0 ∷ 0 ∷ 1 ∷ 0 ∷ 0 ∷ 0 ∷ 7 ∷ 0 ∷ 0 ∷ 0 ∷ 0 ∷ 0 ∷ 0
          ∷ 0 ∷ 9 ∷ 0 ∷ [])
        ≡ malformed_frame 7 0 25)
    × (try_parse_request (
          0x80 ∷ 0 ∷ 0 ∷ 251 ∷ 0 ∷ 0 ∷ 0 ∷ 0 ∷ 0 ∷ 0 ∷ 0 ∷ 1 ∷ 0 ∷ 0 ∷ 0 ∷ 7 ∷ 0 ∷ 0 ∷ 0 ∷ 0 ∷ 0 ∷ 0
          ∷ 0 ∷ 9 ∷ [])
        ≡ oversized_frame 7 0)
    × (try_parse_request (0x81 ∷ []) ≡ bad_magic)
    × (parse_request (0x81 ∷ []) ≡ none)
unfolding try_parse_request cut Header.parse Header.fields Opcode.parse parse_request to_be of_be
    build_raw_request_frame
bad_frames = (refl, refl, refl, refl, refl)

set_frame-Fits : Layout.Fits 0x01 7 9 extras (codes "foo") (codes "bar")
set_frame-Fits = omega arith

build_raw_request_frame_lem_example :
    set_frame ≡ header_bytes 0x01 3 8 14 7 9 ++ (extras ++ (codes "foo" ++ codes "bar"))
build_raw_request_frame_lem_example =
    build_raw_request_frame_lem 0x01 7 9 extras (codes "foo") (codes "bar") set_frame-Fits

try_parse_request-build_example :
    try_parse_request (set_frame ++ (0x80 ∷ []))
    ≡ ok (
      record {
        hdr = header_of 0x01 7 9 extras (codes "foo") (codes "bar");
        extras = extras;
        key = codes "foo";
        value = codes "bar";
      },
      38,
    )
try_parse_request-build_example =
    try_parse_request-build 0x01 7 9 extras (codes "foo") (codes "bar") (0x80 ∷ []) set_frame-Fits
      (omega arith) (omega arith)

try_parse_request-take_example : try_parse_request (take 30 set_frame) ≡ incomplete
try_parse_request-take_example =
    try_parse_request-take 0x01 7 9 extras (codes "foo") (codes "bar") 30 set_frame-Fits
      (omega arith) (omega arith) (omega arith)

is_bad_magic : try_parse_request (0x47 ∷ []) ≢ incomplete
unfolding try_parse_request
is_bad_magic e = cc

try_parse_request-append_example :
    try_parse_request (0x47 ∷ codes "ET") ≡ try_parse_request (0x47 ∷ [])
try_parse_request-append_example = try_parse_request-append (0x47 ∷ []) (codes "ET") is_bad_magic

try_parse_request-Consumes_example : Consumes set_frame (try_parse_request set_frame)
try_parse_request-Consumes_example = try_parse_request-Consumes set_frame

abbrev meta : ResponseMeta
meta = record { status = 0; opaque = 7; cas = 12 }

write_raw_response-Reads_example :
    (tail : Bytes) × (write_raw_response
          (codes "x")
          0x0c
          meta
          (0 ∷ 0 ∷ 0 ∷ 1 ∷ [])
          (codes "k")
          (codes "v")
        ++ []
      ≡ codes "x" ++ tail)
    × Reads tail 0x0c meta (0 ∷ 0 ∷ 0 ∷ 1 ∷ []) (codes "k") (codes "v")
write_raw_response-Reads_example =
    write_raw_response-Reads (codes "x") 0x0c meta (0 ∷ 0 ∷ 0 ∷ 1 ∷ []) (codes "k") (codes "v") []
      (omega arith)

hex_values :
    (hex_encode (0 ∷ 171 ∷ 255 ∷ []) ≡ codes "00abff")
    × (hex_decode (codes "00AbfF") ≡ 0 ∷ 171 ∷ 255 ∷ [])
    × (hex_decode (codes "0g") ≡ [])
    × (hex_decode (codes "000") ≡ [])
unfolding hex_encode hex_decode
hex_values = (refl, refl, refl, refl)

hex_decode-hex_encode_example : hex_decode (hex_encode (0 ∷ 171 ∷ 255 ∷ [])) ≡ 0 ∷ 171 ∷ 255 ∷ []
hex_decode-hex_encode_example = hex_decode-hex_encode (0 ∷ 171 ∷ 255 ∷ []) (omega arith)

hex_decode_bytes_example :
    IsBytes (hex_decode (codes "0g"))
    × ((hex_decode (codes "0g") ≡ []) ⊎ (2 * length (hex_decode (codes "0g")) ≡ 2))
hex_decode_bytes_example = hex_decode_bytes (codes "0g")
