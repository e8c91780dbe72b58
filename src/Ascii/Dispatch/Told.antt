-- ===== src/Ascii/Dispatch/Told.antt =====
-- What `dispatch_cmd` appends to `out`.
use red_couch.Base.{
  ◌≡◌, refl, sym, ap, ◌∙◌, false, Option, none, some, List, [], ◌∷◌, ◌++◌, Bytes, codes,
  append_assoc, append-nil,
}
use red_couch.Ascii.Command.{
  AsciiCmd, store, cas, append_prepend, retrieval, delete, counter, touch, flush_all, version,
  stats, verbosity, quit, is_noreply,
}
use red_couch.Ascii.Dispatch.{dispatch_cmd, version_string}
use red_couch.Ascii.Handlers.{crlf, tell}
use red_couch.Ascii.Handlers.Told.{
  Told, tell_unless-Told, ascii_store-Told, ascii_append_prepend-Told, ascii_delete-Told,
  ascii_counter-Told, ascii_touch-Told, ascii_flush-Told,
}
use red_couch.Ascii.Handlers.Retrieve.{include_cas}
use red_couch.Ascii.Handlers.Retrieve.Listed.{ascii_retrieval-Retrieved, Retrieved-Told}
use red_couch.Ascii.Handlers.Stats.{ascii_stats, general_stats, write_stat_lines}
use red_couch.Redis.{Redis, count_items, eval_lua}
use red_couch.Server.Handler.{Conn}
use red_couch.Server.Ops.Stat.{Process, stat_lines, items_of}

-- the lines of the counters come behind what is in `out`
stat_lines-append :
    (lines : List (Bytes × Bytes)) (out : Bytes)
    → (text : Bytes) × (write_stat_lines lines out ≡ out ++ text)
unfolding write_stat_lines
stat_lines-append [] out = ([], sym (append-nil out))
stat_lines-append ((name, value) ∷ rest) out =
    let line = codes "STAT " ++ (name ++ (codes " " ++ (value ++ codes "\r\n"))) in
    let (text, e) = stat_lines-append rest (out ++ line) in
    (line ++ text, e ∙ append_assoc out line text)

module _ {r : Redis} (p : Process) where
  general_stats-append : (c : Conn r) → (text : Bytes) × ((general_stats p c).out ≡ c.out ++ text)
  unfolding general_stats
  general_stats-append c =
      stat_lines-append
        (stat_lines p (items_of (eval_lua r count_items (codes "0" ∷ []) c.db).0) c.stats) c.out

  general_stats_then_end :
      (c : Conn r)
      → (t : Bytes) × ((general_stats p c).out ++ (codes "END" ++ crlf) ≡ c.out ++ (t ++ crlf))
  general_stats_then_end c =
      let (text, e) = general_stats-append c in
      (
        text ++ codes "END",
        ap (λ o. o ++ (codes "END" ++ crlf)) e
            ∙ append_assoc c.out text (codes "END" ++ crlf)
            ∙ ap (λ x. c.out ++ x) (sym (append_assoc text (codes "END") crlf)),
      )

  ascii_stats-Told : (args : Option Bytes) (c : Conn r) → Told false c.out (ascii_stats p args c)
  unfolding ascii_stats tell
  ascii_stats-Told none c = general_stats_then_end c
  ascii_stats-Told (some []) c = general_stats_then_end c
  ascii_stats-Told (some (a ∷ args)) c = (codes "END", refl)

  -- A command with `noreply` appends nothing to `out`, whatever Redis answers. A command without it that
  -- succeeds appends a text that ends a line, and one that fails at most a part of an answer.
  pub dispatch_cmd-Told :
      (cmd : AsciiCmd) (data_bytes : Option Bytes) (c : Conn r)
      → Told (is_noreply cmd) c.out (dispatch_cmd p cmd data_bytes c)
  unfolding dispatch_cmd is_noreply tell
  dispatch_cmd-Told (store op key flags exptime bytes noreply) d c = ascii_store-Told _ key _ c
  dispatch_cmd-Told (cas key flags exptime bytes cas_unique noreply) d c =
      ascii_store-Told _ key _ c
  dispatch_cmd-Told (append_prepend is_prepend key bytes noreply) d c =
      ascii_append_prepend-Told is_prepend key _ noreply c
  dispatch_cmd-Told (retrieval op exptime keys) d c =
      Retrieved-Told (include_cas op) keys c.out _ (ascii_retrieval-Retrieved op exptime keys c)
  dispatch_cmd-Told (delete key noreply) d c = ascii_delete-Told key noreply c
  dispatch_cmd-Told (counter is_decr key value noreply) d c =
      ascii_counter-Told is_decr key value noreply c
  dispatch_cmd-Told (touch key exptime noreply) d c = ascii_touch-Told key exptime noreply c
  dispatch_cmd-Told (flush_all delay noreply) d c = ascii_flush-Told noreply c
  dispatch_cmd-Told version d c = (version_string, refl)
  dispatch_cmd-Told (stats args) d c = ascii_stats-Told args c
  dispatch_cmd-Told (verbosity noreply) d c = tell_unless-Told noreply (codes "OK") c
  dispatch_cmd-Told quit d c = ([], sym (append-nil c.out))
