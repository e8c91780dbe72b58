-- ===== src/Tests/Ascii.antt =====
-- Runs of the text protocol, and examples of its theorems.
use red_couch.Base.{
  ◌≡◌, refl, inl, true, none, some, [], ◌∷◌, Bytes, codes, arith, is_utf8, bytes_eq,
}
use red_couch.Decimal.{parse_unsigned}
use red_couch.Ascii.Command.{AsciiCmd, set, gets, store, retrieval, stats, client_error}
use red_couch.Ascii.Command.CmdParseResult.{ok}
use red_couch.Ascii.Data.{Block, read_data_block, drained, drain_data_block}
use red_couch.Ascii.Data.Delivery.{pieces, Delivers, read_data_block-Delivers}
use red_couch.Server.Handler.{done}
use red_couch.Server.Session.{received}
use red_couch.Ascii.Line.{find_line_end, Found, find_line_end-Found}
use red_couch.Ascii.Parse.{parse_command_line}
use red_couch.Ascii.Parse.Valid.Lines.{parse_command_line-Sound}
use red_couch.Ascii.Parse.Valid.{Sound, IsValid}
use red_couch.Ascii.Parse.RoundTrip.{IsPlain}
use red_couch.Ascii.Parse.RoundTrip.Lines.{line_of, parse_command_line-line_of}
use red_couch.Ascii.Validate.{bad_format, validate_key}
use red_couch.Ascii.Words.{split_whitespace, after_first_whitespace}

abbrev set_line : Bytes
set_line = codes "set user:1 7 60 5 noreply"

parse_set_line : parse_command_line set_line ≡ ok (store set (codes "user:1") 7 60 5 true)
unfolding parse_command_line is_utf8 split_whitespace bytes_eq validate_key parse_unsigned
    after_first_whitespace
parse_set_line = refl

parse_gets_line :
    parse_command_line (codes " gets  a b ") ≡ ok (retrieval gets none (codes "a" ∷ codes "b" ∷ []))
unfolding parse_command_line is_utf8 split_whitespace bytes_eq validate_key parse_unsigned
    after_first_whitespace
parse_gets_line = refl

parse_bad_line : parse_command_line (codes "set k 0 0 4294967296") ≡ client_error bad_format
unfolding parse_command_line is_utf8 split_whitespace bytes_eq validate_key parse_unsigned
    after_first_whitespace
parse_bad_line = refl

-- a blank in front of the command is taken for the end of its name
parse_stats_line :
    parse_command_line (codes " stats items") ≡ ok (stats (some (codes "stats items")))
unfolding parse_command_line is_utf8 split_whitespace bytes_eq validate_key parse_unsigned
    after_first_whitespace
parse_stats_line = refl

-- U+00A0 parts words
split_no_break_space :
    split_whitespace (b'a' ∷ 0xC2 ∷ 0xA0 ∷ b'b' ∷ []) ≡ codes "a" ∷ codes "b" ∷ []
unfolding split_whitespace
split_no_break_space = refl

parse_command_line-Sound_example : Sound (parse_command_line set_line)
parse_command_line-Sound_example = parse_command_line-Sound set_line

find_line_end-Found_example :
    Found (codes "get a\r\nget b\n") (find_line_end (codes "get a\r\nget b\n"))
find_line_end-Found_example = find_line_end-Found (codes "get a\r\nget b\n")

-- the command of `set_line`
abbrev set_command : AsciiCmd
set_command = store set (codes "user:1") 7 60 5 true

set_command-IsValid : IsValid set_command
set_command-IsValid = ground arith

set_command-IsPlain : IsPlain set_command
set_command-IsPlain = ground arith

parse_command_line-line_of_example : parse_command_line (line_of set_command) ≡ ok set_command
parse_command_line-line_of_example =
    parse_command_line-line_of set_command set_command-IsValid set_command-IsPlain

read_data_block-Delivers_example :
    Delivers
      (codes "hello")
      (codes "get k\r\n")
      (read_data_block (pieces (codes "llo\r" ∷ codes "\nget k\r\n" ∷ [])) (codes "he") 5)
read_data_block-Delivers_example =
    read_data_block-Delivers (codes "hello") (codes "\r\n") (codes "get k\r\n") (codes "he")
      (codes "llo\r" ∷ codes "\nget k\r\n" ∷ []) (inl refl) refl

-- a block that a bare newline ends waits for one byte more
bare_newline_waits :
    read_data_block (received (codes "hello\n") ∷ []) [] 5 ≡ Block.waiting (codes "hello\n")
unfolding read_data_block
bare_newline_waits = refl

-- a drained block that a bare newline ends takes the first byte of the next command with it
drain_takes_next :
    drain_data_block (received (codes "hello\nget k\n") ∷ []) [] 5
    ≡ drained done (codes "et k\n") []
unfolding drain_data_block
drain_takes_next = refl
