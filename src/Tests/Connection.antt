-- ===== src/Tests/Connection.antt =====
-- The text connection and its handlers at concrete inputs.
use red_couch.Base.{◌≡◌, true, none, some, [], ◌∷◌, codes}
use red_couch.Ascii.Command.{AsciiCmd, delete, is_noreply}
use red_couch.Ascii.Dispatch.{dispatch_cmd}
use red_couch.Ascii.Dispatch.Told.{dispatch_cmd-Told}
use red_couch.Ascii.Handlers.Told.{Told}
use red_couch.Ascii.Session.{Step, handle_ascii_conn}
use red_couch.Ascii.Session.Ends.{Returns, handle_ascii_conn-ends}
use red_couch.Server.Session.{received, closed}
use red_couch.Ascii.Command.{
  StoreOp, store, CmdParseResult, needs_data_block, data_block_len, is_meta_command,
}
use red_couch.Ascii.Handlers.Store.{ascii_store}
use red_couch.Ascii.Handlers.{tell_unless}
use red_couch.Ascii.Parse.{parse_command_line}
use red_couch.Ascii.Session.{is_blank, step}
use red_couch.Ascii.Session.Commands.{Continues, behind_line, block_for, step-Continues}
use red_couch.Ascii.Validate.{validate_key}
use red_couch.Ascii.Words.{split_whitespace, after_first_whitespace}
use red_couch.Base.{refl, false, ◌++◌, is_utf8, bytes_eq, contains, arith, ap, ◌∙◌}
use red_couch.Decimal.{parse_unsigned}
use red_couch.Meta.Handlers.Dispatch.{dispatch_meta_cmd}
use red_couch.Meta.Handlers.Told.Commands.{MetaTold, dispatch_meta_cmd-MetaTold}
use red_couch.Meta.Parse.{MetaCmd}
use red_couch.Redis.{eval_lua, is_noscript, eval_int}
use red_couch.Server.Handler.{done, Conn}
use red_couch.Tests.Server.{toy, idle, process, session, no_stats}

abbrev quiet_delete : AsciiCmd
quiet_delete = delete (codes "k") true

dispatch_cmd-Told_example :
    Told (is_noreply quiet_delete) idle.out (dispatch_cmd process quiet_delete none idle)
dispatch_cmd-Told_example = dispatch_cmd-Told process quiet_delete none idle

handle_ascii_conn-ends_example :
    (result : Step toy) × (Returns result
      × (handle_ascii_conn process
            (received (codes "t k\r\nset") ∷ closed ∷ [])
            (codes "ge")
            session
          ≡ some result))
handle_ascii_conn-ends_example =
    handle_ascii_conn-ends process (received (codes "t k\r\nset") ∷ closed ∷ []) (codes "ge")
      session

abbrev quiet_set : MetaCmd
quiet_set = MetaCmd.set (codes "k") 1 (record { ch = b'q'; token = none } ∷ [])

dispatch_meta_cmd-MetaTold_example :
    MetaTold quiet_set idle.out (dispatch_meta_cmd quiet_set (some (codes "v")) idle)
dispatch_meta_cmd-MetaTold_example = dispatch_meta_cmd-MetaTold quiet_set (some (codes "v")) idle

abbrev set_hello : AsciiCmd
set_hello = store StoreOp.set (codes "k") 7 60 5 false

abbrev after_set : Conn toy
after_set = record idle {
  db = 4;
  stats = record no_stats { cmd_set = 1 };
  out = codes "STORED\r\n";
}

set_hello_parsed : parse_command_line (codes "set k 7 60 5") ≡ CmdParseResult.ok set_hello
unfolding parse_command_line is_utf8 split_whitespace bytes_eq validate_key parse_unsigned
    after_first_whitespace
set_hello_parsed = refl

set_hello_block : block_for set_hello (codes "hello") ≡ some (codes "hello")
unfolding needs_data_block
set_hello_block = refl

set_hello_ran : dispatch_cmd process set_hello (some (codes "hello")) idle ≡ (done, after_set)
unfolding dispatch_cmd ascii_store eval_lua is_noscript contains eval_int tell_unless
set_hello_ran = refl

set_hello_not_blank : is_blank (codes "set k 7 60 5") ≡ false
unfolding is_blank
set_hello_not_blank = refl

set_hello_not_meta : is_meta_command (codes "set k 7 60 5") ≡ false
unfolding is_meta_command bytes_eq
set_hello_not_meta = refl

set_hello_size : data_block_len set_hello ≡ 5
unfolding data_block_len
set_hello_size = refl

step-Continues_example : Continues session after_set [] (codes "get k\r\n") (
    step process []
      (codes "set k 7 60 5"
        ++ (b'\r' ∷ b'\n' ∷ behind_line set_hello (codes "hello") (codes "get k\r\n")))
      session)
step-Continues_example =
    step-Continues process (codes "set k 7 60 5") set_hello (codes "hello") (codes "get k\r\n") []
      session after_set (ground arith) (omega arith) set_hello_not_blank set_hello_not_meta
      set_hello_parsed set_hello_size (omega arith)
      (ap (λ b. dispatch_cmd process set_hello b idle) set_hello_block ∙ set_hello_ran) refl
