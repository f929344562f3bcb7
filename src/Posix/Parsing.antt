-- ===== src/Posix/Parsing.antt =====
-- The parser of a channel stays sound.
use attentive.Base.{
  ℕ, ◌≡◌, refl, sym, ◌∙◌, Bool, true, false, ◌&&◌, Option, none, some, [], ◌∷◌, if_both, arith,
  ◌>>=◌, length, leb, ◌++◌,
}
use mathlib.Core.Path.{subst}
use attentive.Base.Text.{Bytes}
use attentive.Parser.{
  Parser, at_parser_await_response, at_parser_reset, at_parser_expect_dataprompt,
}
use attentive.Parser.Valid.{IsValid}
use attentive.Channel.{At, feed_byte}
use attentive.Channel.Answers.{feed_byte-Answers}
use attentive.Posix.{
  Posix, Reader, Client, reader_test, reader_report, reader_feed, command_begin, at_command,
  command_test, command_end, at_open, at_close, close_test, free_stop, at_set_timeout,
  at_expect_dataprompt,
}
use attentive.Posix.Step.{Wakes, Signals, Passes, Step, one, nobody, silent, signal}

module _ {D : Type 0} where
  -- A byte that is fed without a fault.
  pub reader_feed-some :
      (c : ℕ) (s t : Posix D)
      → reader_feed c s ≡ some t
      → (q : Parser (Option (At D))) × (at : At D) × (feed_byte c s.parser s.at ≡ some (q, at))
        × (t ≡ record s { parser = q; at = at; reader = Reader.testing })
  unfolding reader_feed
  reader_feed-some c s t e = go (feed_byte c s.parser s.at) refl e
    where
      go :
          (r : Option (Parser (Option (At D)) × At D))
          → feed_byte c s.parser s.at ≡ r
          → (r >>= λ w. some (record s { parser = w.0; at = w.1; reader = Reader.testing }))
            ≡ some t
          → (q : Parser (Option (At D))) × (at : At D) × (feed_byte c s.parser s.at ≡ some (q, at))
            × (t ≡ record s { parser = q; at = at; reader = Reader.testing })
      go none f k = cc
      go (some (q, at)) f k = (q, at, f, cc)

  -- The parser is valid and has no character handler.
  abbrev pub ParserSound : Posix D → Type 0
  ParserSound s = IsValid s.parser × (s.parser.character_handler ≡ none)

  pub Wakes-parser : {s t : Posix D} → Wakes s t → t.parser ≡ s.parser
  Wakes-parser (Wakes.reader e) = refl
  Wakes-parser (Wakes.client e) = refl
  Wakes-parser (Wakes.control freeing e) = refl

  Signals-parser : {s t : Posix D} → Signals s t → t.parser ≡ s.parser
  Signals-parser (one w) = Wakes-parser w
  Signals-parser (nobody q) = refl

  Passes-parser : {s t : Posix D} → Passes s t → t.parser ≡ s.parser
  Passes-parser (silent e) = refl
  Passes-parser (signal e g) = Signals-parser g

  pub same_parser : (s t : Posix D) → t.parser ≡ s.parser → ParserSound s → ParserSound t
  same_parser s t e h = subst (λ p. IsValid p × (p.character_handler ≡ none)) (sym e) h

  ParserSound-feed :
      (c : ℕ) (s t : Posix D) → reader_feed c s ≡ some t → ParserSound s → ParserSound t
  ParserSound-feed c s t e (v, n) =
      let (q, at, f, same) = reader_feed-some c s t e in
      let (_, v', n') = feed_byte-Answers c s.parser q s.at at f v n in
      subst ParserSound (sym same) (v', n')

  ParserSound-command_end : (s : Posix D) → ParserSound s → ParserSound (command_end s)
  unfolding command_end at_parser_reset
  ParserSound-command_end s h = ground arith

  ParserSound-command_test : (s : Posix D) → ParserSound s → ParserSound (command_test s)
  unfolding command_test
  ParserSound-command_test s h =
      if_both ParserSound (s.open_ && s.at.waiting) (record s { client = Client.parked })
        (command_end s) h (ParserSound-command_end s h)

  ParserSound-command_begin :
      (bytes : Bytes) (s : Posix D) → ParserSound s → ParserSound (command_begin bytes s)
  unfolding command_begin at_parser_await_response
  ParserSound-command_begin bytes s h = ground arith

  ParserSound-at_command :
      (line : Bytes) (s : Posix D) → ParserSound s → ParserSound (at_command line s)
  unfolding at_command
  ParserSound-at_command line s h =
      if_both ParserSound (leb 79 (length line)) (record s { client = Client.outside none })
        (command_begin (line ++ (b'\r' ∷ [])) s) h
        (ParserSound-command_begin (line ++ (b'\r' ∷ [])) s h)

  test-parser : (s : Posix D) → (reader_test s).parser ≡ s.parser
  unfolding reader_test
  test-parser s = ground arith

  open-parser : (opened : Bool) (s : Posix D) → (at_open opened s).parser ≡ s.parser
  unfolding at_open
  open-parser opened s = ground arith

  close-parser : (freeing : Bool) (s : Posix D) → (at_close freeing s).parser ≡ s.parser
  unfolding at_close close_test
  close-parser freeing s = ground arith

  close_test-parser : (freeing : Bool) (s : Posix D) → (close_test freeing s).parser ≡ s.parser
  unfolding close_test
  close_test-parser freeing s = ground arith

  pub Step-ParserSound : {s t : Posix D} → Step s t → ParserSound s → ParserSound t
  unfolding at_set_timeout at_expect_dataprompt at_parser_expect_dataprompt reader_report free_stop
  Step-ParserSound {s} (Step.test e) h = same_parser s (reader_test s) (test-parser s) h
  Step-ParserSound {s} (Step.read input e) h = h
  Step-ParserSound {s} {t} (Step.report input e g) h = same_parser s t (Signals-parser g) h
  Step-ParserSound {s} {t} (Step.feed c {t = m} e f p) h =
      same_parser m t (Passes-parser p) (ParserSound-feed c s m f h)
  Step-ParserSound {s} (Step.command line r e) h = ParserSound-at_command line s h
  Step-ParserSound {s} (Step.command_raw bytes r e) h = ParserSound-command_begin bytes s h
  Step-ParserSound {s} (Step.set_timeout n r e) h = h
  Step-ParserSound {s} (Step.expect_dataprompt r e) h = ground arith
  Step-ParserSound {s} (Step.set_scanner scanner r e) h = h
  Step-ParserSound {s} (Step.set_callbacks cbs arg r e) h = h
  Step-ParserSound {s} (Step.resume e) h = ParserSound-command_test s h
  Step-ParserSound {s} (Step.expire e l) h = ParserSound-command_end s h
  Step-ParserSound {s} (Step.open_fails e) h =
      same_parser s (at_open false s) (open-parser false s) h
  Step-ParserSound {s} {t} (Step.opens e o g) h =
      same_parser s t (Signals-parser g ∙ open-parser true s) h
  Step-ParserSound {s} (Step.close e) h = same_parser s (at_close false s) (close-parser false s) h
  Step-ParserSound {s} (Step.free e) h = same_parser s (at_close true s) (close-parser true s) h
  Step-ParserSound {s} (Step.close_resume freeing e) h =
      same_parser s (close_test freeing s) (close_test-parser freeing s) h
  Step-ParserSound {s} (Step.stop e) h = h
  Step-ParserSound {s} (Step.join e r) h = h
