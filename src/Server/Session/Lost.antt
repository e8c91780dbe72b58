-- ===== src/Server/Session/Lost.antt =====
-- What a client does not get: responses that the connection drops.
use red_couch.Base.{ℕ, suc, ◌^◌, ◌<◌, ◌≡◌, ap, ◌∙◌, [], ◌++◌, Bytes, length, arith}
use red_couch.ByteOrder.{ByteOrder}
use red_couch.Protocol.Build.{build_request_frame}
use red_couch.Protocol.Build.Parsed.{header_of, try_parse_request-build}
use red_couch.Protocol.Frame.{Request, ok, try_parse_request}
use red_couch.Protocol.Opcode
use red_couch.Protocol.Response.{write_simple_response}
use red_couch.Protocol.Status
use red_couch.Redis.{Redis}
use red_couch.Server.Dispatch.{handle, handle_base, quit}
use red_couch.Server.Handler.{connection_aborted, failed, Conn}
use red_couch.Server.Loop.{BatchEnd, left, stopped, round, batch}
use red_couch.Server.Loop.Chunks.{batch-append, resume}
use red_couch.Server.Ops.Stat.{Process}
use red_couch.Server.Session.{Session, ended, end_batch, run_batch}

module _ ⦃bo : ByteOrder⦄ where
  -- a QUIT request as it is parsed
  abbrev pub quit_request : ℕ → ℕ → Request
  quit_request opaque cas = record {
    hdr = header_of 0x07 opaque cas [] [] [];
    extras = [];
    key = [];
    value = [];
  }

  abbrev pub quit_frame : ℕ → ℕ → Bytes
  quit_frame opaque cas = build_request_frame Opcode.quit opaque cas [] [] []

  parse-quit_frame :
      (opaque cas : ℕ) (rest : Bytes)
      → opaque < 2 ^ 32
      → cas < 2 ^ 64
      → try_parse_request (quit_frame opaque cas ++ rest) ≡ ok (quit_request opaque cas, 24)
  unfolding build_request_frame Opcode.to_byte
  parse-quit_frame opaque cas rest ho hc =
      try_parse_request-build 0x07 opaque cas [] [] [] rest
        (record {
          opcode_fits = omega arith;
          opaque_fits = ho;
          cas_fits = hc;
          extras_fit = omega arith;
          key_fits = omega arith;
          body_fits = omega arith;
        })
        (omega arith) (omega arith)

module _ ⦃bo : ByteOrder⦄ {r : Redis} (p : Process) where
  -- the response to QUIT, behind what was collected
  abbrev pub with_quit : ℕ → Conn r → Conn r
  with_quit opaque c = record c {
    out = write_simple_response c.out Opcode.quit Status.ok opaque 0 [];
  }

  batch-quit_frame :
      (opaque cas fuel : ℕ) (rest : Bytes) (c : Conn r)
      → opaque < 2 ^ 32
      → cas < 2 ^ 64
      → batch p (suc fuel) (quit_frame opaque cas ++ rest) c
        ≡ (stopped connection_aborted, with_quit opaque c)
  unfolding batch round handle Opcode.parse Opcode.base Opcode.is_quiet quit handle_base
  batch-quit_frame opaque cas fuel rest c ho hc =
      ap (λ res. round p res (quit_frame opaque cas ++ rest) (batch p fuel) c)
        (parse-quit_frame opaque cas rest ho hc)

  -- Where the frames of `xs` have been handled to the end and a QUIT frame follows in the same
  -- buffer, the connection ends and nothing is sent: neither the response to QUIT, which has been
  -- written behind the others, nor any response that was collected for the frames before it.
  pub run_batch-quit_frame :
      (xs rest : Bytes) (opaque cas : ℕ) (s : Session r) (c : Conn r)
      → opaque < 2 ^ 32
      → cas < 2 ^ 64
      → batch p (suc (length xs)) xs s.conn ≡ (left [], c)
      → run_batch p (xs ++ (quit_frame opaque cas ++ rest)) s
        ≡ ended (failed connection_aborted) (record s { conn = with_quit opaque c })
  unfolding run_batch end_batch
  run_batch-quit_frame xs rest opaque cas s c ho hc h =
      let tail = quit_frame opaque cas ++ rest in
      let n = length (xs ++ tail) in
      ap (λ (out : BatchEnd × Conn r). end_batch out.0 (record s { conn = out.1 }))
        (batch-append p (suc (length xs)) (suc n) (suc n) xs tail s.conn (omega arith) (omega arith)
            (omega arith)
          ∙ ap (resume p (suc n) tail) h
          ∙ batch-quit_frame opaque cas n rest c ho hc)
