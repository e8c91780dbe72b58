-- ===== src/Ascii/Parse/Valid/Commands.antt =====
-- Each parser of src/ascii.rs accepts only valid commands.
use red_couch.Base.{
  ℕ, suc, ◌≤◌, ◌≡◌, ◌≢◌, refl, ap, Bool, true, false, ◌||◌, none, List, [], ◌∷◌, Bytes, codes,
  bytes_eq, length, ltb, ◌==◌, drop, length-drop, Option-cases, Bool-cases, inl, inr, arith,
}
use red_couch.Decimal
use red_couch.Decimal.{parse_unsigned-le}
use red_couch.Ascii.Command.{CmdParseResult}
use red_couch.Ascii.Parse.{
  check, checked_number, store_op, check_keys, flush_args, parse_store_cmd, parse_cas_cmd,
  parse_append_prepend_cmd, parse_retrieval_cmd, parse_gat_cmd, parse_delete_cmd, parse_counter_cmd,
  parse_touch_cmd, arg, bad_noreply_at,
}
use red_couch.Ascii.Validate.{Checked, err, validate_key, IsKey, validate_key-IsKey}
use red_couch.Ascii.Parse.Valid.{
  U32, AreKeys, Sound, if-Sound, parse_u32-U32, refused, op-Sound, key-Sound, word32-Sound,
  word64-Sound,
}

pub parse_store_cmd-Sound :
    (name : Bytes) (args : List Bytes) → store_op name ≢ none → Sound (parse_store_cmd name args)
unfolding parse_store_cmd
parse_store_cmd-Sound name args h =
    if-Sound (ltb (length args) 4 || ltb 5 (length args)) _ _ refused (λ _.
      key-Sound (arg args 0) _ (λ key. word32-Sound (arg args 1) _ (λ flags f.
        word32-Sound (arg args 2) _ (λ exptime e. word32-Sound (arg args 3) _ (λ bytes b.
          if-Sound (bad_noreply_at 4 args) _ _ refused
            (λ _. op-Sound (store_op name) _ h (λ cmd. (key, (f, (e, b))))))))))

pub parse_cas_cmd-Sound : (args : List Bytes) → Sound (parse_cas_cmd args)
unfolding parse_cas_cmd
parse_cas_cmd-Sound args = if-Sound (ltb (length args) 5 || ltb 6 (length args)) _ _ refused (λ _.
    key-Sound (arg args 0) _ (λ key. word32-Sound (arg args 1) _ (λ flags f.
      word32-Sound (arg args 2) _ (λ exptime e. word32-Sound (arg args 3) _ (λ bytes b.
        word64-Sound (arg args 4) _ (λ cas_unique c.
          if-Sound (bad_noreply_at 5 args) _ _ refused (λ _. (key, (f, (e, (b, c)))))))))))

pub parse_append_prepend_cmd-Sound :
    (name : Bytes) (args : List Bytes) → Sound (parse_append_prepend_cmd name args)
unfolding parse_append_prepend_cmd
parse_append_prepend_cmd-Sound name args =
    if-Sound (ltb (length args) 2 || ltb 3 (length args)) _ _ refused (λ _.
      key-Sound (arg args 0) _ (λ key.
        word32-Sound (arg args 1) _
          (λ bytes b. if-Sound (bad_noreply_at 2 args) _ _ refused (λ _. (key, b)))))

-- what the loop over `args` collects
abbrev Collected : List Bytes → Checked (List Bytes) → Type 0
Collected args (Checked.ok keys) = AreKeys keys × (length keys ≡ length args)
Collected args (err e) = Unit {0}

check_keys-Collected : (args : List Bytes) → Collected args (check_keys args)
unfolding check_keys
check_keys-Collected [] = (tt, refl)
check_keys-Collected (k ∷ ks) =
    collect (validate_key k) (check_keys ks) (validate_key-IsKey k) (check_keys-Collected ks)
  where
    collect :
        (first : Checked (Unit {0})) (rest : Checked (List Bytes))
        → (first ≡ Checked.ok tt → IsKey k)
        → Collected ks rest
        → Collected (k ∷ ks) (elim first [
          | err e ↦ err e
          | Checked.ok _ ↦ elim rest [ err e ↦ err e | Checked.ok keys ↦ Checked.ok (k ∷ keys) ]
        ])
    collect (err e) rest h r = tt
    collect (Checked.ok u) (err e) h r = tt
    collect (Checked.ok u) (Checked.ok keys) h (p, q) = ((h refl, p), ap suc q)

all_keys-Sound :
    (args : List Bytes) (c : Checked (List Bytes)) (next : List Bytes → CmdParseResult)
    → Collected args c
    → ((keys : List Bytes) → AreKeys keys → length keys ≡ length args → Sound (next keys))
    → Sound (check c next)
unfolding check
all_keys-Sound args (Checked.ok keys) next (p, q) h = h keys p q
all_keys-Sound args (err e) next c h = tt

keys-Sound :
    (args : List Bytes) (next : List Bytes → CmdParseResult)
    → ((keys : List Bytes) → AreKeys keys → length keys ≡ length args → Sound (next keys))
    → Sound (check (check_keys args) next)
keys-Sound args next h = all_keys-Sound args (check_keys args) next (check_keys-Collected args) h

ne_nil : (keys args : List Bytes) → length keys ≡ length args → 1 ≤ length args → keys ≢ []
ne_nil [] args q h = absurd (omega arith)
ne_nil (k ∷ ks) args q h = λ e. cc

nonzero : (args : List Bytes) → (length args == 0) ≡ false → 1 ≤ length args
nonzero args h = ground arith

behind_first : (args : List Bytes) → ltb (length args) 2 ≡ false → 1 ≤ length (drop 1 args)
behind_first args h = ground (arith, length-drop 1 args)

pub parse_retrieval_cmd-Sound :
    (name : Bytes) (args : List Bytes) → Sound (parse_retrieval_cmd name args)
unfolding parse_retrieval_cmd
parse_retrieval_cmd-Sound name args = if-Sound (length args == 0) _ _ refused (λ some_args.
    keys-Sound args _ (λ keys p q. elim (Bool-cases (bytes_eq name (codes "gets"))) [
      | inl e ↦ rw e (refl, (p, ne_nil keys args q (nonzero args some_args)))
      | inr e ↦ rw e (refl, (p, ne_nil keys args q (nonzero args some_args)))
    ]))

pub parse_gat_cmd-Sound : (name : Bytes) (args : List Bytes) → Sound (parse_gat_cmd name args)
unfolding parse_gat_cmd
parse_gat_cmd-Sound name args = if-Sound (ltb (length args) 2) _ _ refused (λ some_args.
    word32-Sound (arg args 0) _ (λ exptime t. keys-Sound (drop 1 args) _ (λ keys p q.
      let ne = ne_nil keys (drop 1 args) q (behind_first args some_args) in
      elim (Bool-cases (bytes_eq name (codes "gats"))) [
        | inl e ↦ rw e ((exptime, (refl, t)), (p, ne))
        | inr e ↦ rw e ((exptime, (refl, t)), (p, ne))
      ])))

pub parse_delete_cmd-Sound : (args : List Bytes) → Sound (parse_delete_cmd args)
unfolding parse_delete_cmd
parse_delete_cmd-Sound args =
    if-Sound (length args == 0 || ltb 2 (length args)) _ _ refused (λ _.
      key-Sound (arg args 0) _ (λ key. if-Sound (bad_noreply_at 1 args) _ _ refused (λ _. key)))

pub parse_counter_cmd-Sound :
    (name : Bytes) (args : List Bytes) → Sound (parse_counter_cmd name args)
unfolding parse_counter_cmd
parse_counter_cmd-Sound name args =
    if-Sound (ltb (length args) 2 || ltb 3 (length args)) _ _ refused (λ _.
      key-Sound (arg args 0) _ (λ key.
        word64-Sound (arg args 1) _
          (λ value v. if-Sound (bad_noreply_at 2 args) _ _ refused (λ _. (key, v)))))

pub parse_touch_cmd-Sound : (args : List Bytes) → Sound (parse_touch_cmd args)
unfolding parse_touch_cmd
parse_touch_cmd-Sound args = if-Sound (ltb (length args) 2 || ltb 3 (length args)) _ _ refused (λ _.
    key-Sound (arg args 0) _ (λ key.
      word32-Sound (arg args 1) _
        (λ exptime e. if-Sound (bad_noreply_at 2 args) _ _ refused (λ _. (key, e)))))

pub flush_args-Sound :
    (delay : ℕ) (noreply : Bool) (args : List Bytes)
    → U32 delay
    → Sound (flush_args delay noreply args)
unfolding flush_args
flush_args-Sound delay noreply [] h = h
flush_args-Sound delay noreply (a ∷ args) h =
    if-Sound (bytes_eq a (codes "noreply")) _ _ (λ _. flush_args-Sound delay true args h)
      (λ _. elim (Option-cases (Decimal.parse_u32 a)) [
        | inl e ↦ rw e tt
        | inr (d, e) ↦
            rw e (flush_args-Sound d noreply args (parse_u32-U32 a d (ap checked_number e)))
      ])
