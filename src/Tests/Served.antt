-- ===== src/Tests/Served.antt =====
-- Text commands on a Redis that runs the scripts, none of them cached.
use red_couch.Base.{
  ◌≡◌, refl, true, false, inl, inr, Bool-cases, bytes_eq, Option, none, some, List, [], ◌∷◌, ◌++◌,
  Bytes, codes, arith,
}
use red_couch.Ascii.Command.{StoreOp, gets, gats}
use red_couch.Ascii.Handlers.Retrieve.{ascii_retrieval}
use red_couch.Ascii.Handlers.Store.{StoreParams, ascii_store}
use red_couch.Items.{store_item, lies_ahead}
use red_couch.Lua.Executes.{script_program, Cells, Replied, Executes}
use red_couch.Lua.Keyspace.{Entry}
use red_couch.Lua.Program.{Cell, number, text, Outcome, whole, row, Program, run}
use red_couch.Lua.Retrieved.{HoldsBytes, answer, Retrieves, ascii_retrieval-Retrieves}
use red_couch.Lua.Served.{Serves, store_line, mode_of, ascii_store-Serves}
use red_couch.Lua.Touched.{touched_all, touched_answer, ascii_retrieval-Touches}
use red_couch.Redis.{
  Redis, RedisValue, RedisValues, nil, cons, integer, bulk_string, array, Reply, ok, err, Command,
  evalsha, eval, del, incr, eval_str,
}
use red_couch.Redis.Fallback.{IsError, ScriptCache}
use red_couch.Server.Handler.{Conn}
use red_couch.Tests.Lua.{
  naturals, naturals-IsExact, keyspace, clock, items, stocked, stocked-Agrees,
}
use red_couch.Tests.Server.{no_stats}

abbrev value_of : Cell → RedisValue
value_of (number n) = integer n
value_of (text t) = bulk_string t

abbrev values_of : List Cell → RedisValues
values_of [] = nil
values_of (c ∷ cs) = cons (value_of c) (values_of cs)

abbrev reply_of : Outcome → Reply
reply_of (whole n) = ok (integer n)
reply_of (row cells) = ok (array (values_of cells))
reply_of (Outcome.failed e) = err []

abbrev ran : Option Program → (Bytes → Entry) → Reply × (Bytes → Entry)
ran none db = (err [], db)
ran (some p) db = (reply_of (run keyspace p db).0, (run keyspace p db).1)

abbrev runner_call : Command → (Bytes → Entry) → Reply × (Bytes → Entry)
runner_call (evalsha s args) db = (err (codes "NOSCRIPT No matching script."), db)
runner_call (eval s args) db = ran (script_program naturals s args) db
runner_call (del k) db = (err [], db)
runner_call (incr k) db = (err [], db)

abbrev runner : Redis
runner = record { Db = Bytes → Entry; call = runner_call; to_string_lossy = λ s. s }

no_message : (before rest : Bytes) → [] ≡ before ++ (codes "NOSCRIPT" ++ rest) → ⊥
no_message [] rest e = ground arith
no_message (x ∷ before) rest e = ground arith

ran_quiet :
    (p : Option Program) (db : Bytes → Entry) (before rest : Bytes)
    → IsError (ran p db).0 (before ++ (codes "NOSCRIPT" ++ rest))
    → ⊥
ran_quiet none db before rest (inl e) = no_message before rest (ground arith)
ran_quiet none db before rest (inr e) = ground arith
ran_quiet (some p) db before rest e = by_outcome (run keyspace p db).0 e
  where
    by_outcome : (o : Outcome) → IsError (reply_of o) (before ++ (codes "NOSCRIPT" ++ rest)) → ⊥
    by_outcome (whole n) (inl e) = ground arith
    by_outcome (whole n) (inr e) = ground arith
    by_outcome (row cells) (inl e) = ground arith
    by_outcome (row cells) (inr e) = ground arith
    by_outcome (Outcome.failed m) (inl e) = no_message before rest (ground arith)
    by_outcome (Outcome.failed m) (inr e) = ground arith

values_of-Cells : (cells : List Cell) → Cells runner cells (values_of cells)
unfolding eval_str
values_of-Cells [] = tt
values_of-Cells (number n ∷ cells) = (refl, values_of-Cells cells)
values_of-Cells (text t ∷ cells) = ((λ _. refl), values_of-Cells cells)

reply_of-Replied : (o : Outcome) → Replied runner o (reply_of o)
reply_of-Replied (whole n) = refl
reply_of-Replied (row cells) = values_of-Cells cells
reply_of-Replied (Outcome.failed e) = tt

runner_cache : ScriptCache runner
runner_cache = record {
  cached_or_not = λ s args db. inr (codes " No matching script.", (inl refl, refl));
  eval_replies = λ s args db before rest. ran_quiet (script_program naturals s args) db before rest;
}

runner-Executes : Executes runner keyspace naturals
runner-Executes = record {
  cache = runner_cache;
  replies = λ s args p db e. rw e (reply_of-Replied (run keyspace p db).0);
  leaves = λ s args p db e. rw e refl;
}

abbrev waiting_conn : Conn runner
waiting_conn = record { db = stocked; stats = no_stats; out = [] }

abbrev cas_params : StoreParams
cas_params = record { op = StoreOp.set; flags = 7; exptime = 60; cas = 9; noreply = false }

ascii_store-Serves_example :
    Serves keyspace false []
      (store_line cas_params)
      (ascii_store cas_params (codes "k") (codes "new") waiting_conn)
      (store_item clock (mode_of StoreOp.set) (codes "k") (codes "new") 7 9 60 items)
ascii_store-Serves_example =
    ascii_store-Serves keyspace naturals runner-Executes naturals-IsExact waiting_conn items
      stocked-Agrees (omega arith) (omega arith) cas_params (codes "k") (codes "new") (omega arith)
      (omega arith)

items-HoldsBytes : (k : Bytes) → HoldsBytes (items.at k)
items-HoldsBytes k = elim (Bool-cases (bytes_eq (codes "k") k)) [
  | inl same ↦ rw same (omega arith, tt)
  | inr apart ↦ rw apart tt
]

ascii_retrieval-Retrieves_example :
    Retrieves keyspace []
      (answer true items (codes "j" ∷ codes "k" ∷ []))
      items
      (ascii_retrieval gets none (codes "j" ∷ codes "k" ∷ []) waiting_conn)
ascii_retrieval-Retrieves_example =
    ascii_retrieval-Retrieves keyspace naturals runner-Executes items items-HoldsBytes true none
      (codes "j" ∷ codes "k" ∷ []) waiting_conn stocked-Agrees

ahead : lies_ahead clock 60 ≡ true
ahead = refl

ascii_retrieval-Touches_example :
    Retrieves keyspace []
      (touched_answer true clock 60 (codes "k" ∷ codes "j" ∷ codes "k" ∷ []) items)
      (touched_all clock 60 (codes "k" ∷ codes "j" ∷ codes "k" ∷ []) items)
      (ascii_retrieval gats (some 60) (codes "k" ∷ codes "j" ∷ codes "k" ∷ []) waiting_conn)
ascii_retrieval-Touches_example =
    ascii_retrieval-Touches keyspace naturals runner-Executes naturals-IsExact true 60
      (codes "k" ∷ codes "j" ∷ codes "k" ∷ []) items waiting_conn stocked-Agrees items-HoldsBytes
      (omega arith) (omega arith) ahead (omega arith)
