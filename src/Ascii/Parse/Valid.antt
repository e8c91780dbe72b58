-- ===== src/Ascii/Parse/Valid.antt =====
-- What every command that the parsers of src/ascii.rs accept satisfies, and the lemmas on the
-- checks that the parsers share.
pub mod Commands
pub mod Lines
use red_couch.Base.{
  ℕ, zero, suc, ◌≤◌, ◌<◌, ◌-◌, ◌^◌, ◌≡◌, ◌≢◌, refl, ap, Bool, true, false, not, ◌&&◌, ◌||◌, Option,
  none, some, List, [], ◌∷◌, Bytes, codes, bytes_eq, is_utf8, length, ltb, ◌==◌, get_or, drop,
  length-drop, if◌then◌else◌, Option-cases, Bool-cases, inl, inr, arith,
}
use Prim.Native.String.{String}
use red_couch.Decimal
use red_couch.Decimal.{parse_unsigned-le}
use red_couch.Ascii.Command.{
  StoreOp, RetrievalOp, get, gets, gat, gats, AsciiCmd, store, cas, append_prepend, retrieval,
  delete, counter, touch, flush_all, version, stats, verbosity, quit, CmdParseResult, client_error,
  unknown_command, panicked,
}
use red_couch.Ascii.Command.CmdParseResult.{ok}
use red_couch.Ascii.Parse.{
  check, checked_number, parse_u32, parse_u64, store_op, check_keys, flush_args, parse_store_cmd,
  parse_cas_cmd, parse_append_prepend_cmd, parse_retrieval_cmd, parse_gat_cmd, parse_delete_cmd,
  parse_counter_cmd, parse_touch_cmd, parse_flush_cmd, parse_tokens, parse_command_line, arg,
  bad_noreply_at, last_is_noreply, stats_args,
}
use red_couch.Ascii.Validate.{Checked, err, bad_format, validate_key, IsKey, validate_key-IsKey}
use red_couch.Ascii.Words.{split_whitespace}

abbrev pub U32 : ℕ → Type 0
U32 n = n < 2 ^ 32

abbrev pub U64 : ℕ → Type 0
U64 n = n < 2 ^ 64

abbrev pub AreKeys : List Bytes → Type 0
AreKeys [] = Unit {0}
AreKeys (k ∷ ks) = IsKey k × AreKeys ks

-- the expiry that belongs to a retrieval
abbrev pub FitsExpiry : RetrievalOp → Option ℕ → Type 0
FitsExpiry get e = e ≡ none
FitsExpiry gets e = e ≡ none
FitsExpiry gat e = (n : ℕ) × ((e ≡ some n) × U32 n)
FitsExpiry gats e = (n : ℕ) × ((e ≡ some n) × U32 n)

-- keys of the text protocol, numbers within their types, at least one key to retrieve, and an
-- expiry exactly for a `gat`
abbrev pub IsValid : AsciiCmd → Type 0
IsValid (store _ key flags exptime bytes _) = IsKey key × (U32 flags × (U32 exptime × U32 bytes))
IsValid (cas key flags exptime bytes cas_unique _) =
    IsKey key × (U32 flags × (U32 exptime × (U32 bytes × U64 cas_unique)))
IsValid (append_prepend _ key bytes _) = IsKey key × U32 bytes
IsValid (retrieval op exptime keys) = FitsExpiry op exptime × (AreKeys keys × (keys ≢ []))
IsValid (delete key _) = IsKey key
IsValid (counter _ key value _) = IsKey key × U64 value
IsValid (touch key exptime _) = IsKey key × U32 exptime
IsValid (flush_all delay _) = U32 delay
IsValid _ = Unit {0}

-- an accepted command is valid, and there is no panic
abbrev pub Sound : CmdParseResult → Type 0
Sound (ok cmd) = IsValid cmd
Sound panicked = ⊥
Sound unknown_command = Unit {0}
Sound (client_error _) = Unit {0}

pub if-Sound :
    (b : Bool) (x y : CmdParseResult)
    → (b ≡ true → Sound x)
    → (b ≡ false → Sound y)
    → Sound (if b then x else y)
if-Sound true x y p q = p refl
if-Sound false x y p q = q refl

pub check-Sound {ℓ} :
    {A : Type ℓ} (c : Checked A) (next : A → CmdParseResult)
    → ((a : A) → c ≡ Checked.ok a → Sound (next a))
    → Sound (check c next)
unfolding check
check-Sound (Checked.ok a) next h = h a refl
check-Sound (err e) next h = tt

pub parse_u32-U32 : (s : Bytes) (n : ℕ) → parse_u32 s ≡ Checked.ok n → U32 n
parse_u32-U32 s n h = ground (arith, parse_unsigned-le (2 ^ 32 - 1) s n)

parse_u64-U64 : (s : Bytes) (n : ℕ) → parse_u64 s ≡ Checked.ok n → U64 n
parse_u64-U64 s n h = ground (arith, parse_unsigned-le (2 ^ 64 - 1) s n)

-- the branches of the checks: a key, a number
module _ (s : Bytes) where
  pub key-Sound :
      (next : Unit {0} → CmdParseResult)
      → (IsKey s → Sound (next tt))
      → Sound (check (validate_key s) next)
  key-Sound next h = check-Sound (validate_key s) next (λ u e. h (validate_key-IsKey s e))

  pub word32-Sound :
      (next : ℕ → CmdParseResult)
      → ((n : ℕ) → U32 n → Sound (next n))
      → Sound (check (parse_u32 s) next)
  word32-Sound next h = check-Sound (parse_u32 s) next (λ n e. h n (parse_u32-U32 s n e))

  pub word64-Sound :
      (next : ℕ → CmdParseResult)
      → ((n : ℕ) → U64 n → Sound (next n))
      → Sound (check (parse_u64 s) next)
  word64-Sound next h = check-Sound (parse_u64 s) next (λ n e. h n (parse_u64-U64 s n e))

pub refused {ℓ} : {A : Type ℓ} → A → Sound (client_error bad_format)
refused a = tt

pub op-Sound :
    (o : Option StoreOp) (next : StoreOp → CmdParseResult)
    → o ≢ none
    → ((cmd : StoreOp) → Sound (next cmd))
    → Sound (elim o [ none ↦ panicked | some cmd ↦ next cmd ])
op-Sound none next h k = absurd (h refl)
op-Sound (some cmd) next h k = k cmd
