-- ===== src/Parser/Feed.antt =====
-- The part of src/parser.c that reads lines and data blocks: `parser_handle_line` and
-- `at_parser_feed`. The loop is a recursion on the bytes.
use attentive.Base.{
  ℕ, not, ◌&&◌, ◌||◌, Option, none, some, [], ◌∷◌, ◌==◌, if◌then◌else◌, ◌>>=◌, take,
}
use attentive.Base.Text.{Bytes}
use attentive.Response
use attentive.Response.{ResponseType}
use attentive.Parser.{
  State, rawdata, hexdata, is_idle, Callbacks, Parser, generic_line_scanner, at_parser_reset, store,
  parser_append, parser_include_line, parser_discard_line, parser_finalize, current_line, at_prompt,
  run_scanner, run_character_handler, feed_rawdata, feed_hexdata, with_priv,
}

module _ {P : Type 0} (cbs : Callbacks P) where
  -- The type of the line: the callback's, or the generic scanner's if that is unknown.
  unfoldable pub classify : State → Bytes → P → ResponseType × P
  classify state line s =
      let (type, s') = run_scanner cbs.scan_line line s in
      (if type == Response.unknown then generic_line_scanner line state else type, s')

  -- The part of `parser_handle_line` behind the URC test.
  unfoldable pub parser_act : ResponseType → Parser P → P → Option (Parser P × P)
  parser_act type p s = do
    q ← (if type == Response.final_ok then some (parser_discard_line p) else parser_include_line p)
    if Response.type_mask type == Response.final_ok || Response.type_mask type == Response.final
        then (do
          r ← parser_finalize q
          some (at_parser_reset r, cbs.handle_response (take r.buf_used r.buf) s))
        else if Response.type_mask type == Response.rawdata_follows_type
        then some (record q { data_left = Response.data_amount type; state = rawdata }, s)
        else if Response.type_mask type == Response.hexdata_follows_type
        then some
            (record q { data_left = Response.data_amount type; nibble = none; state = hexdata }, s)
        else some (q, s)

  -- Expected URCs and all unexpected lines go to the URC handler.
  unfoldable pub parser_dispatch : ResponseType → Bytes → Parser P → P → Option (Parser P × P)
  parser_dispatch type line p s =
      if type == Response.urc || is_idle p.state
      then some (parser_discard_line p, cbs.handle_urc line s)
      else parser_act type p s

  unfoldable pub parser_handle_line : Parser P → P → Option (Parser P × P)
  parser_handle_line p s = if p.buf_used == p.buf_current then some (p, s) else (do
    q ← store p p.buf_used 0
    let line = current_line q
    let (type, s') = classify q.state line s
    parser_dispatch type line q s')

  -- `case STATE_IDLE`, `STATE_READLINE`, `STATE_DATAPROMPT`
  unfoldable pub feed_text : Parser P → ℕ → P → Option (Parser P × P)
  feed_text p ch s = do
    q ← (if not (ch == b'\r') && not (ch == b'\n') then parser_append p ch else some p)
    let (ch', s') = run_character_handler q.character_handler ch (current_line q) s
    if ch' == b'\n' || at_prompt q then parser_handle_line q s' else some (q, s')

  -- One round of the loop: `switch (parser->state)`.
  unfoldable pub feed_in : State → Parser P → ℕ → P → Option (Parser P × P)
  feed_in rawdata p ch s = with_priv s (feed_rawdata p ch)
  feed_in hexdata p ch s = with_priv s (feed_hexdata p ch)
  feed_in _ p ch s = feed_text p ch s

  unfoldable pub at_parser_feed : Parser P → P → Bytes → Option (Parser P × P)
  at_parser_feed p s [] = some (p, s)
  at_parser_feed p s (ch ∷ rest) = do (q, s') ← feed_in p.state p ch s; at_parser_feed q s' rest
