-- ===== src/Ascii/Parse/Valid/Lines.antt =====
-- `parse_command_line` of src/ascii.rs accepts only valid commands.
use red_couch.Base.{
  ◌≡◌, ◌≢◌, Bool, true, false, ◌||◌, none, List, [], ◌∷◌, Bytes, codes, bytes_eq, is_utf8,
  if◌then◌else◌, arith,
}
use Prim.Native.String.{String}
use red_couch.Ascii.Command.{version, stats, verbosity, quit, CmdParseResult, unknown_command}
use red_couch.Ascii.Command.CmdParseResult.{ok}
use red_couch.Ascii.Parse.{
  store_op, parse_store_cmd, parse_cas_cmd, parse_append_prepend_cmd, parse_retrieval_cmd,
  parse_gat_cmd, parse_delete_cmd, parse_counter_cmd, parse_touch_cmd, parse_flush_cmd,
  parse_tokens, parse_command_line, last_is_noreply, stats_args,
}
use red_couch.Ascii.Words.{split_whitespace}
use red_couch.Ascii.Parse.Valid.{Sound, if-Sound, refused}
use red_couch.Ascii.Parse.Valid.Commands.{
  parse_store_cmd-Sound, parse_cas_cmd-Sound, parse_append_prepend_cmd-Sound,
  parse_retrieval_cmd-Sound, parse_gat_cmd-Sound, parse_delete_cmd-Sound, parse_counter_cmd-Sound,
  parse_touch_cmd-Sound, flush_args-Sound,
}

-- `parse_store_cmd` is called with one of its three names
store_op-ne_none :
    (name : Bytes)
    → (bytes_eq name (codes "set")
        || bytes_eq name (codes "add")
        || bytes_eq name (codes "replace"))
      ≡ true
    → store_op name ≢ none
unfolding store_op
store_op-ne_none name h = ground arith

named_store-Sound :
    (name : Bytes) (args : List Bytes)
    → (bytes_eq name (codes "set")
        || bytes_eq name (codes "add")
        || bytes_eq name (codes "replace"))
      ≡ true
    → Sound (parse_store_cmd name args)
named_store-Sound name args h = parse_store_cmd-Sound name args (store_op-ne_none name h)

-- the first result whose test holds
choose : List (Bool × CmdParseResult) → CmdParseResult → CmdParseResult
choose [] otherwise = otherwise
choose ((b, r) ∷ rest) otherwise = if b then r else choose rest otherwise

AllSound : List (Bool × CmdParseResult) → Type 0
AllSound [] = Unit {0}
AllSound ((b, r) ∷ rest) = (b ≡ true → Sound r) × AllSound rest

choose-Sound :
    (rs : List (Bool × CmdParseResult)) (r : CmdParseResult)
    → AllSound rs
    → Sound r
    → Sound (choose rs r)
unfolding choose AllSound
choose-Sound [] r hs h = h
choose-Sound ((b, x) ∷ rs) r (k, hs) h = if-Sound b _ _ k (λ _. choose-Sound rs r hs h)

parse_tokens-Sound : (line : Bytes) (tokens : List Bytes) → Sound (parse_tokens line tokens)
unfolding parse_tokens choose AllSound
parse_tokens-Sound line [] = tt
parse_tokens-Sound line (name ∷ args) =
    choose-Sound
      ((is "set" || is "add" || is "replace", parse_store_cmd name args)
        ∷ (is "cas", parse_cas_cmd args)
        ∷ (is "append" || is "prepend", parse_append_prepend_cmd name args)
        ∷ (is "get" || is "gets", parse_retrieval_cmd name args)
        ∷ (is "gat" || is "gats", parse_gat_cmd name args)
        ∷ (is "delete", parse_delete_cmd args)
        ∷ (is "incr" || is "decr", parse_counter_cmd name args)
        ∷ (is "touch", parse_touch_cmd args)
        ∷ (is "flush_all", parse_flush_cmd args)
        ∷ (is "version", ok version)
        ∷ (is "stats", ok (stats (stats_args line (name ∷ args))))
        ∷ (is "verbosity", ok (verbosity (last_is_noreply (name ∷ args))))
        ∷ (is "quit", ok quit)
        ∷ [])
      unknown_command
      (
        named_store-Sound name args,
        (
          (λ _. parse_cas_cmd-Sound args),
          (
            (λ _. parse_append_prepend_cmd-Sound name args),
            (
              (λ _. parse_retrieval_cmd-Sound name args),
              (
                (λ _. parse_gat_cmd-Sound name args),
                (
                  (λ _. parse_delete_cmd-Sound args),
                  (
                    (λ _. parse_counter_cmd-Sound name args),
                    (
                      (λ _. parse_touch_cmd-Sound args),
                      (
                        (λ _. flush_args-Sound 0 false args (omega arith)),
                        ((λ _. tt), ((λ _. tt), ((λ _. tt), ((λ _. tt), tt)))),
                      ),
                    ),
                  ),
                ),
              ),
            ),
          ),
        ),
      )
      tt
  where
    is : String → Bool
    is word = bytes_eq name (codes word)

-- Of every line, `parse_command_line` accepts only a valid command: keys of 1 to 250 bytes without
-- control characters and spaces, numbers within their types, at least one key to retrieve; and it
-- never reaches the `unreachable!()` of `parse_store_cmd`.
pub parse_command_line-Sound : (line : Bytes) → Sound (parse_command_line line)
unfolding parse_command_line
parse_command_line-Sound line =
    if-Sound (is_utf8 line) _ _ (λ _. parse_tokens-Sound line (split_whitespace line)) refused
