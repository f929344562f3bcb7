-- ===== src/Examples/Commands.antt =====
-- Commands on the channel of POSIX, in some orders of its threads.
use attentive.Base.{◌≡◌, refl, true, false, none, some, [], ◌∷◌, arith}
use attentive.Base.Text.{Bytes, codes, starts_with, same_bytes}
use attentive.CString.{c_string}
use attentive.Response
use attentive.Parser.{
  readline, at_parser_await_response, at_prefix_in_table, generic_line_scanner, parser_append,
  store, at_prompt, current_line, parser_discard_line, parser_finalize, at_parser_reset,
}
use attentive.Parser.Feed.{
  classify, at_parser_feed, feed_in, feed_text, parser_handle_line, parser_dispatch, parser_act,
}
use attentive.Parser.Lines.{wire}
use attentive.Parser.Responses.{Completes}
use attentive.Parser.Valid.{IsValid}
use attentive.Channel.{parser_callbacks, feed_byte, scan_line, handle_response}
use attentive.Channel.Scanning.{classify-first_known}
use attentive.Channel.Driver.{feed-missing_callbacks, feed-installed_callbacks}
use attentive.Posix.{
  Posix, Reader, at_alloc_unix, reader_test, reader_feed, at_open, command_begin, command_result,
}
use attentive.Posix.Step.{Step, Reach, here, next, step, nobody}
use attentive.Posix.Invariant.{IsSound, alloc-IsSound, Reach-reading_fd, Reach-reader_feed}
use attentive.Posix.Answered.{alloc-Waits, Reach-unanswered, Reach-answer_text}
use attentive.Posix.Late.{reader_feed-late}
use attentive.Examples.{zeros, is_plain-IsPlain, cons_ne}
use attentive.Examples.Threads.{
  D, driver, parser, fresh, ready, reading, answered, nearly, parser-IsReady, fresh-IsSound,
  reading-IsSound, nearly-IsSound, nearly-Waits,
}

allocated :
    (s : Posix D) × (at_alloc_unix [] (some parser) (some (zeros 256)) ≡ some s)
    × IsSound s
    × (s.open_ ≡ false)
allocated = alloc-IsSound [] parser (zeros 256) refl

-- The channel is opened, with nobody waiting; the reader finds it open.
opened-Reach : Reach fresh (record fresh { fd = true; open_ = true })
unfolding at_open
opened-Reach = next here (
    step (
      Step.opens refl refl
        (nobody (record { reader = λ e. cc; client = λ e. cc; control = λ f e. cc }))))

abbrev fresh_reading : Posix D
fresh_reading = record fresh { fd = true; open_ = true; busy = true; reader = Reader.reading }

reading-Reach : Reach fresh fresh_reading
unfolding reader_test
reading-Reach = next opened-Reach (step (Step.test refl))

Reach-reading_fd_example : (fresh_reading.fd ≡ true) × (fresh_reading.busy ≡ true)
Reach-reading_fd_example = Reach-reading_fd fresh fresh_reading fresh-IsSound reading-Reach refl

Reach-reader_feed_example :
    (u : Posix D) × (reader_feed b'R' reading ≡ some u)
    × IsValid u.parser
    × (u.at.cbs ≡ some driver)
Reach-reader_feed_example = Reach-reader_feed reading reading b'R' driver reading-IsSound here refl

-- A command is sent on the channel that was opened.
abbrev fresh_asked : Posix D
fresh_asked = command_begin (codes "AT\r") (record fresh { fd = true; open_ = true })

Reach-unanswered_example : fresh_asked.at.waiting ≡ true
unfolding command_begin at_parser_await_response
Reach-unanswered_example =
    Reach-unanswered fresh fresh_asked fresh-IsSound (alloc-Waits [] parser)
      (next opened-Reach (step (Step.command_raw (codes "AT\r") none refl))) refl

abbrev complete : Posix D
complete = record nearly {
  parser = record parser { buf = 0 ∷ b'K' ∷ zeros 14 };
  at = record (nearly.at) { response = some []; waiting = false; signalled = true };
}

nearly-feed : reader_feed b'\n' nearly ≡ some complete
unfolding reader_feed feed_byte at_parser_feed feed_in feed_text parser_append store at_prompt
    parser_handle_line parser_dispatch parser_act classify same_bytes current_line
    generic_line_scanner at_prefix_in_table starts_with parser_discard_line parser_finalize
    at_parser_reset parser_callbacks scan_line handle_response
nearly-feed = refl

Reach-answer_text_example :
    (text : Bytes) × (complete.at.response ≡ some text)
    × (command_result complete ≡ some (c_string text))
Reach-answer_text_example =
    Reach-answer_text nearly nearly complete b'\n' nearly-IsSound nearly-Waits here refl nearly-feed
      refl refl

-- A notification begins behind the response.
reader_feed-late_example :
    (t : Posix D) × (rest : Bytes) × (reader_feed b'R' answered ≡ some t)
    × (command_result answered ≡ some (c_string answered.parser.buf))
    × (command_result t ≡ some (b'R' ∷ rest))
reader_feed-late_example =
    reader_feed-late b'R' answered [] parser-IsReady (omega arith) (λ e. omega arith)
      (λ e. omega arith) (λ e. omega arith) refl refl refl

feed-missing_callbacks_example :
    Completes parser_callbacks parser (some fresh.at) (wire (codes "RING") []) none
feed-missing_callbacks_example =
    feed-missing_callbacks (codes "RING") parser fresh.at parser-IsReady
      (is_plain-IsPlain (codes "RING") refl) cons_ne (omega arith) refl

classify-first_known_example :
    classify parser_callbacks readline (codes "RING") (some ready.at)
    ≡ (Response.urc, some ready.at)
unfolding generic_line_scanner at_prefix_in_table starts_with same_bytes
classify-first_known_example = classify-first_known readline (codes "RING") ready.at

feed-installed_callbacks_example :
    Completes parser_callbacks parser
      (some ready.at)
      (wire (codes "RING") [])
      (some (record (ready.at) { arg = codes "RING" ∷ [] }))
unfolding generic_line_scanner at_prefix_in_table starts_with same_bytes
feed-installed_callbacks_example =
    feed-installed_callbacks driver (λ line s. line ∷ s) (codes "RING") parser ready.at
      parser-IsReady (is_plain-IsPlain (codes "RING") refl) cons_ne (omega arith) refl refl
