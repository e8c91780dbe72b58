-- ===== src/Tests/Server.antt =====
-- The server at concrete inputs, over a Redis that counts the scripts it has run and has none of
-- them cached.
use red_couch.Base.{
  ℕ, suc, pos, ◌≡◌, ◌≢◌, refl, inl, inr, [], ◌∷◌, ◌++◌, Bytes, codes, contains, int_eq, take, drop,
  arith,
}
use red_couch.ByteOrder.{network_order, to_be, of_be}
use red_couch.Decimal.{parse_unsigned}
use red_couch.Hex.{hex_decode}
use red_couch.Server.Ops.Get.{op_get}
use red_couch.Protocol.Build.Parsed.{header_of}
use red_couch.Protocol.Frame.{Request, cut, try_parse_request}
use red_couch.Protocol.Header
use red_couch.Protocol.Opcode
use red_couch.Protocol.Opcode.{Opcode}
use red_couch.Protocol.Response.{write_raw_response, write_response}
use red_couch.Redis.{
  Redis, bulk_string, integer, array, static_error, nil, cons, Reply, ok, Command, evalsha, eval,
  del, incr, get, make_redis_key, eval_int, eval_str, eval_lua,
}
use red_couch.Redis.Fallback.{IsError, ScriptCache, eval_lua_lem}
use red_couch.Server.Answers.{Answers, handle-Answers}
use red_couch.Server.Dispatch.{handle, handle_base}
use red_couch.Server.Handler.{connection_aborted, failed, Conn}
use red_couch.Server.Loop.{left, out_of_fuel, batch, round}
use red_couch.Server.Loop.Chunks.{resume, batch-append, batch-ne_out_of_fuel}
use red_couch.Server.Ops.Stat.{Process}
use red_couch.Server.Session.{Session, ended, run_batch, received, handle_binary_conn}
use red_couch.Server.Session.Bounded.{HoldsShort, handle_binary_conn-HoldsShort}
use red_couch.Server.Session.Lost.{quit_frame, with_quit, run_batch-quit_frame}
use red_couch.Server.Stats.{Stats}

-- every script finds the value "A" with flags 1, under a CAS value that counts up
abbrev pub toy_call : Command → ℕ → Reply × ℕ
toy_call (evalsha s args) n = (ok (static_error (codes "NOSCRIPT No matching script.")), n)
toy_call (eval s args) n = (
  ok (
      array (
        cons (integer (pos 0)) (
          cons (bulk_string (codes "41"))
            (cons (bulk_string (codes "1")) (cons (bulk_string (codes "9")) nil))))),
  suc n,
)
toy_call (del k) n = (ok (integer (pos 1)), n)
toy_call (incr k) n = (ok (integer (pos (suc n))), suc n)

abbrev pub toy : Redis
toy = record { Db = ℕ; call = toy_call; to_string_lossy = λ s. s }

toy_answers :
    (before rest : Bytes)
    → IsError (toy_call (eval get []) 0).0 (before ++ (codes "NOSCRIPT" ++ rest))
    → ⊥
toy_answers before rest (inl e) = ground arith
toy_answers before rest (inr e) = ground arith

toy_cache : ScriptCache toy
toy_cache = record {
  cached_or_not = λ s args db. inr (codes " No matching script.", (inr refl, refl));
  eval_replies = λ s args db before rest. toy_answers before rest;
}

eval_lua_lem_example : eval_lua toy get [] 3 ≡ toy_call (eval get []) 3
eval_lua_lem_example = eval_lua_lem toy toy_cache get [] 3

abbrev pub no_stats : Stats
no_stats = record {
  cmd_get = 0;
  cmd_set = 0;
  cmd_flush = 0;
  cmd_touch = 0;
  get_hits = 0;
  get_misses = 0;
  delete_hits = 0;
  delete_misses = 0;
  incr_hits = 0;
  incr_misses = 0;
  decr_hits = 0;
  decr_misses = 0;
  cas_hits = 0;
  cas_misses = 0;
  cas_badval = 0;
  curr_connections = 0;
  total_connections = 0;
  auth_cmds = 0;
  auth_errors = 0;
  rejected_connections = 0;
}

abbrev pub idle : Conn toy
idle = record { db = 3; stats = no_stats; out = [] }

abbrev pub process : Process
process = record { pid = 1; uptime = 2; time = 3 }

abbrev get_request : Request
get_request = record {
  hdr = header_of 0x0c 7 0 [] (codes "k") [];
  extras = [];
  key = codes "k";
  value = [];
}

handle-Answers_example : Answers Opcode.get_k get_request [] (handle process get_request idle)
unfolding Opcode.parse Opcode.base
handle-Answers_example =
    handle-Answers process get_request Opcode.get_k idle refl (λ e. cc) (λ e. cc)

abbrev get_frame : Bytes
get_frame =
    0x80 ∷ 0x0c ∷ 0 ∷ 1 ∷ 0 ∷ 0 ∷ 0 ∷ 0 ∷ 0 ∷ 0 ∷ 0 ∷ 1 ∷ 0 ∷ 0 ∷ 0 ∷ 7 ∷ 0 ∷ 0 ∷ 0 ∷ 0 ∷ 0 ∷ 0 ∷ 0
    ∷ 0 ∷ 107 ∷ []

batch-append_example :
    batch process 60 (get_frame ++ get_frame) idle
    ≡ resume process 70 get_frame (batch process 50 get_frame idle)
batch-append_example =
    batch-append process 50 60 70 get_frame get_frame idle (omega arith) (omega arith) (omega arith)

batch-ne_out_of_fuel_example : (batch process 50 get_frame idle).0 ≢ out_of_fuel
batch-ne_out_of_fuel_example = batch-ne_out_of_fuel process 50 get_frame idle (omega arith)

abbrev after_get : Conn toy
after_get = (batch process 26 get_frame idle).1

-- GETK was answered with value, flags, key and CAS, and its script has run once
get_handled : batch process 26 get_frame idle ≡ (left [], after_get)
unfolding batch round try_parse_request cut Header.parse Header.fields Opcode.parse Opcode.base
    of_be handle handle_base op_get eval_lua contains int_eq eval_int
get_handled = refl

get_answered :
    (after_get.db ≡ 4)
    × (after_get.stats.get_hits ≡ 1)
    × (after_get.out
        ≡ write_raw_response [] 0x0c
            (record { status = 0; opaque = 7; cas = 9 })
            (0 ∷ 0 ∷ 0 ∷ 1 ∷ [])
            (codes "k")
            (codes "A"))
unfolding batch round try_parse_request cut Header.parse Header.fields Opcode.parse Opcode.base
    of_be handle handle_base op_get eval_lua contains int_eq eval_int eval_str write_raw_response
    write_response parse_unsigned to_be Opcode.includes_key Opcode.to_byte hex_decode make_redis_key
get_answered = (refl, refl, refl)

abbrev pub session : Session toy
session = record { conn = idle; sent = []; writes = [] }

run_batch-quit_frame_example :
    run_batch process (get_frame ++ (quit_frame 8 0 ++ [])) session
    ≡ ended (failed connection_aborted) (record session { conn = with_quit process 8 after_get })
run_batch-quit_frame_example =
    run_batch-quit_frame process get_frame [] 8 0 session after_get (omega arith) (omega arith)
      get_handled

-- a frame in two reads, and one byte of the next
abbrev connected : Session toy
connected = record { conn = idle; sent = []; writes = [] }

handle_binary_conn-HoldsShort_example : HoldsShort (
    handle_binary_conn process
      (received (take 10 get_frame) ∷ received (drop 10 get_frame ++ (0x80 ∷ [])) ∷ [])
      []
      connected)
handle_binary_conn-HoldsShort_example =
    handle_binary_conn-HoldsShort process
      (received (take 10 get_frame) ∷ received (drop 10 get_frame ++ (0x80 ∷ [])) ∷ []) [] connected
