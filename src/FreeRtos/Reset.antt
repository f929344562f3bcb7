-- ===== src/FreeRtos/Reset.antt =====
-- A byte that comes in the middle of `at_parser_reset` (src/at-freertos.c, src/parser.c).
use attentive.Base.{
  ◌<◌, ◌≡◌, refl, ap, ◌∙◌, true, false, Option, none, some, [], ◌∷◌, ◌>>=◌, arith, length, set,
}
use attentive.Parser.{generic_line_scanner, Parser, idle, store, parser_discard_line, current_line}
use attentive.Parser.Feed.{
  at_parser_feed, feed_in, feed_text, parser_handle_line, parser_dispatch, classify,
}
use attentive.Parser.Valid.{IsValid}
use attentive.Channel.{driver_scanner, At, AtCallbacks, parser_callbacks, feed_byte}
use attentive.Channel.Scanning.{classify-first_known, first_known}
use attentive.Channel.Notices.{urc-data}
use attentive.FreeRtos.{
  FreeRtos, Call, Reader, Client, Field, reader_return, reader_feed, command_reset, command_return,
  reset_field, after_field,
}
use attentive.FreeRtos.Step.{Step, ReachOn, ReachOn-append, heard, here, next, next_to}
use attentive.FreeRtos.Delivery.{test-reading}

module _ {D : Type 0} where
  -- The parser between two assignments of its reset: no byte is kept, and the current line begins
  -- behind what was kept before.
  record IsTorn (p : Parser (Option (At D))) : Type 0 where
    pub state : p.state ≡ idle
    pub used : p.buf_used ≡ 0
    pub current : 0 < p.buf_current
    pub room : 0 < length p.buf
    pub plain : p.character_handler ≡ none

  -- The newline in such a parser
  torn_line : Parser (Option (At D)) → Parser (Option (At D))
  torn_line p = record p { buf = set p.buf 0 0; buf_used = p.buf_current }

  newline-torn :
      (p : Parser (Option (At D))) (s : Option (At D))
      → IsTorn p
      → let line = current_line (record p { buf = set p.buf 0 0 }) in
        at_parser_feed parser_callbacks p s (b'\n' ∷ [])
        ≡ some (
          torn_line p,
          parser_callbacks.handle_urc line (classify parser_callbacks idle line s).1,
        )
  unfolding at_parser_feed feed_in feed_text parser_handle_line parser_dispatch store
      parser_discard_line torn_line
  newline-torn p s h =
      let a = h.state in
      let b = h.used in let c = h.plain in let d = h.room in let e = h.current in ground arith

  feed_byte-torn :
      (cbs : AtCallbacks D) (p : Parser (Option (At D))) (at : At D)
      → IsTorn p
      → at.cbs ≡ some cbs
      → (at' : At D) × (feed_byte b'\n' p at ≡ some (torn_line p, at'))
  unfolding feed_byte
  feed_byte-torn cbs p at h installed =
      let line = current_line (record p { buf = set p.buf 0 0 }) in
      let scanned = classify-first_known idle line at in
      let urc =
        urc-data cbs line
          (record at {
            arg =
                (first_known (at.command_scanner ∷ driver_scanner at.cbs ∷ [])
                  (generic_line_scanner line idle) line at.arg).1;
          })
          installed in
      (
        _,
        ap
            (λ x. elim x as (λ _. Option (Parser (Option (At D)) × At D)) [
              | none ↦ none
              | some (q, y) ↦ elim y [ none ↦ none | some at' ↦ some (q, at') ]
            ])
            (newline-torn p (some at) h
              ∙ ap (λ w. some (torn_line p, parser_callbacks.handle_urc line w.1)) scanned
              ∙ ap (λ w. some (torn_line p, w)) urc),
      )

  -- The newline comes when `buf_used` is set and `buf_current` is not.
  torn-Reach :
      (cbs : AtCallbacks D) (s : FreeRtos D)
      → s.running ≡ true
      → s.open_ ≡ true
      → s.reader ≡ Reader.testing
      → s.client ≡ Client.resetting Field.buf_current
      → IsTorn s.parser
      → s.at.cbs ≡ some cbs
      → (t : FreeRtos D) × ReachOn s (b'\n' ∷ []) t
        × (t.client ≡ Client.outside none)
        × (t.parser.state ≡ idle)
        × (t.parser.buf_used ≡ s.parser.buf_current)
        × (t.parser.buf_current ≡ 0)
  unfolding heard reader_return reader_feed command_reset command_return reset_field after_field
      torn_line
  torn-Reach cbs s running opened reader client torn installed =
      let (at', e) = feed_byte-torn cbs s.parser s.at torn installed in
      let read =
        next (next_to here (Step.test reader) (test-reading s running opened))
          (Step.return (some b'\n') refl) in
      let u : FreeRtos D = record s {
        busy = false;
        log = Call.read_from s.uart ∷ s.log;
        parser = torn_line s.parser;
        at = at';
        reader = Reader.testing;
      } in
      let fed : ReachOn s (b'\n' ∷ []) u = (
        next read (
            Step.feed b'\n' refl (
              ap
                (λ r. r >>= λ w. some (record s {
                  busy = false;
                  log = Call.read_from s.uart ∷ s.log;
                  parser = w.0;
                  at = w.1;
                  reader = Reader.testing;
                }))
                e)),
        refl,
      ) in
      let r1 =
        next (next fed.0 (Step.reset Field.buf_current client)) (Step.reset Field.data_left refl) in
      (
        _,
        (next (next r1 (Step.reset Field.character_handler refl)) (Step.leave none refl), refl),
        refl,
        torn.state,
        refl,
        refl,
      )

  -- A FreeRTOS command on an open channel that runs, with the callbacks of a driver, has timed out
  -- and is about to reset the parser, which is valid, has no character handler and keeps some
  -- line; the reader is at the top of its loop. If a newline arrives in the middle of
  -- at_parser_reset, there is an order of the tasks in which it is the only byte that is read and
  -- the command returns NULL, but the parser is left idle with as many bytes in its buffer as it
  -- had kept, now as an unfinished line.
  pub reset-keeps_bytes :
      (cbs : AtCallbacks D) (s : FreeRtos D)
      → s.running ≡ true
      → s.open_ ≡ true
      → s.reader ≡ Reader.testing
      → s.client ≡ Client.resetting Field.state
      → s.at.cbs ≡ some cbs
      → IsValid s.parser
      → s.parser.character_handler ≡ none
      → 0 < s.parser.buf_current
      → (t : FreeRtos D) × ReachOn s (b'\n' ∷ []) t
        × (t.client ≡ Client.outside none)
        × (t.parser.state ≡ idle)
        × (t.parser.buf_used ≡ s.parser.buf_current)
        × (t.parser.buf_current ≡ 0)
  unfolding heard command_reset reset_field after_field
  reset-keeps_bytes cbs s running opened reader client installed valid plain kept =
      let torn : FreeRtos D = record s {
        parser = record (s.parser) { state = idle; expect_dataprompt = false; buf_used = 0 };
        client = Client.resetting Field.buf_current;
      } in
      let first =
        next (next here (Step.reset Field.state client))
          (Step.reset Field.expect_dataprompt refl) in
      let begun : ReachOn s [] torn = (next first (Step.reset Field.buf_used refl), refl) in
      let (t, run, left, state, used, current) =
        torn-Reach cbs torn running opened reader refl
          (record {
            state = refl;
            used = refl;
            current = kept;
            room = (let v = valid in ground arith);
            plain = plain;
          })
          installed in
      (t, ReachOn-append begun run, left, state, used, current)
