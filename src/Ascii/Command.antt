-- ===== src/Ascii/Command.antt =====
-- The parsed commands of src/ascii.rs, and what the connection asks of them.
use red_couch.Base.{
  ℕ, Bool, true, false, not, ◌||◌, Option, List, Bytes, codes, bytes_eq, length, ltb, ◌==◌, take,
  get_or, if◌then◌else◌,
}

pub data StoreOp : Type 0 where
  set add replace : StoreOp

pub data RetrievalOp : Type 0 where
  get gets gat gats : RetrievalOp

pub data AsciiCmd : Type 0 where
  store : StoreOp → (key : Bytes) → (flags exptime bytes : ℕ) → (noreply : Bool) → AsciiCmd
  cas : (key : Bytes) → (flags exptime bytes cas_unique : ℕ) → (noreply : Bool) → AsciiCmd
  append_prepend : (is_prepend : Bool) → (key : Bytes) → (bytes : ℕ) → (noreply : Bool) → AsciiCmd
  retrieval : RetrievalOp → (exptime : Option ℕ) → (keys : List Bytes) → AsciiCmd
  delete : (key : Bytes) → (noreply : Bool) → AsciiCmd
  counter : (is_decr : Bool) → (key : Bytes) → (value : ℕ) → (noreply : Bool) → AsciiCmd
  touch : (key : Bytes) → (exptime : ℕ) → (noreply : Bool) → AsciiCmd
  flush_all : (delay : ℕ) → (noreply : Bool) → AsciiCmd
  version : AsciiCmd
  stats : (args : Option Bytes) → AsciiCmd
  verbosity : (noreply : Bool) → AsciiCmd
  quit : AsciiCmd

pub data CmdParseResult : Type 0 where
  ok : AsciiCmd → CmdParseResult
  unknown_command : CmdParseResult
  client_error : Bytes → CmdParseResult
  -- the `unreachable!()` of `parse_store_cmd`
  panicked : CmdParseResult

unfoldable pub needs_data_block : AsciiCmd → Bool
needs_data_block (store _ _ _ _ _ _) = true
needs_data_block (cas _ _ _ _ _ _) = true
needs_data_block (append_prepend _ _ _ _) = true
needs_data_block _ = false

unfoldable pub data_block_len : AsciiCmd → ℕ
data_block_len (store _ _ _ _ bytes _) = bytes
data_block_len (cas _ _ _ bytes _ _) = bytes
data_block_len (append_prepend _ _ bytes _) = bytes
data_block_len _ = 0

unfoldable pub is_noreply : AsciiCmd → Bool
is_noreply (store _ _ _ _ _ noreply) = noreply
is_noreply (cas _ _ _ _ _ noreply) = noreply
is_noreply (append_prepend _ _ _ noreply) = noreply
is_noreply (delete _ noreply) = noreply
is_noreply (counter _ _ _ noreply) = noreply
is_noreply (touch _ _ noreply) = noreply
is_noreply (flush_all _ noreply) = noreply
is_noreply (verbosity noreply) = noreply
is_noreply _ = false

-- a line with one of the two-letter prefixes, alone or in front of a blank
unfoldable pub is_meta_command : Bytes → Bool
is_meta_command line =
    let prefix = take 2 line in
    let is_meta_prefix =
      bytes_eq prefix (codes "mg")
      || bytes_eq prefix (codes "ms")
      || bytes_eq prefix (codes "md")
      || bytes_eq prefix (codes "ma")
      || bytes_eq prefix (codes "mn")
      || bytes_eq prefix (codes "me") in
    if ltb (length line) 2
    then false
    else if not is_meta_prefix
    then false
    else length line == 2 || get_or line 2 0 == b' ' || get_or line 2 0 == b'\t'
