-- ===== src/Posix/Waits.antt =====
-- The waits of commands, step by step.
use attentive.Base.{
  ◌≡◌, refl, sym, Bool, true, false, ◌&&◌, Option, none, some, [], ◌∷◌, ◌++◌, if◌then◌else◌,
  if_both, leb, length, inl, inr, arith,
}
use mathlib.Core.Path.{subst}
use attentive.Base.Text.{Bytes}
use attentive.Parser.{Parser}
use attentive.Channel.{At, at_set_command_scanner, at_set_callbacks}
use attentive.Posix.{
  Posix, Input, Reader, Client, Control, reader_test, reader_report, at_command, command_begin,
  command_test, command_end, at_open, at_close, close_test, free_stop, at_set_timeout,
  at_expect_dataprompt,
}
use attentive.Posix.Step.{
  after_input-parked, Step, Signals, Passes, Wakes, one, nobody, silent, signal,
}
use attentive.Posix.Agrees.{Agrees}
use attentive.Posix.Parsing.{ParserSound, reader_feed-some}
use attentive.Channel.Answers.{Answers, has_text, feed_byte-Answers}

abbrev pub in_command : Client → Bool
in_command (Client.outside r) = false
in_command _ = true

module _ {D : Type 0} where
  -- The waits are in order, also where a response has been handed over.
  pub record Waits (s : Posix D) : Type 0 where
    pub quiet : s.at.signalled ≡ false
    pub client : s.client ≡ Client.parked → s.at.waiting ≡ true
    pub alone :
        (freeing : Bool)
        → s.control ≡ Control.parked freeing
        → s.client ≡ Client.parked
        → s.busy ≡ true
    pub answered : in_command s.client ≡ true → s.at.waiting ≡ false → has_text s.at.response ≡ true

  pub Wakes-Waits : {s t : Posix D} → Wakes s t → Waits s → Waits t
  Wakes-Waits (Wakes.reader e) h = ground (arith, h.alone)
  Wakes-Waits (Wakes.client e) h = ground (arith, h.alone)
  Wakes-Waits (Wakes.control freeing e) h = ground (arith, h.alone)

  Signals-Waits : {s t : Posix D} → Signals s t → Waits s → Waits t
  Signals-Waits (one w) h = Wakes-Waits w h
  Signals-Waits (nobody q) h = h

  Waits-report :
      (input : Input) (s t : Posix D)
      → s.reader ≡ Reader.reporting input
      → Signals (reader_report input s) t
      → Waits s
      → Waits t
  unfolding reader_report
  Waits-report input s t r (one (Wakes.reader e)) h = absurd (after_input-parked input e)
  Waits-report input s t r (one (Wakes.client e)) h = ground (arith, h.alone)
  Waits-report input s t r (one (Wakes.control freeing e)) h = ground (arith, h.alone)
  Waits-report input s t r (nobody q) h = ground (arith, h.alone, q.client)

  -- The signal of a response goes to the command, since no other thread can wait.
  Waits-Passes :
      {s m t : Posix D} {q : Parser (Option (At D))} {at : At D}
      → s.busy ≡ false
      → m ≡ record s { parser = q; at = at; reader = Reader.testing }
      → Waits s
      → Answers s.at (some m.at)
      → Passes m t
      → Waits t
  Waits-Passes b same h (inl (w, x, g)) (silent k) = ground (arith, h.alone)
  Waits-Passes b same h (inl (w, x, g)) (signal k z) = absurd (ground arith)
  Waits-Passes b same h (inr (w, x, g)) (silent k) = absurd (ground arith)
  Waits-Passes b same h (inr (w, x, g)) (signal k (one (Wakes.reader z))) = absurd (ground arith)
  Waits-Passes b same h (inr (w, x, g)) (signal k (one (Wakes.client z))) = ground (arith, h.alone)
  Waits-Passes b same h (inr (w, x, g)) (signal k (one (Wakes.control freeing z))) =
      ground (arith, h.alone freeing)
  Waits-Passes b same h (inr (w, x, g)) (signal k (nobody z)) = ground (arith, z.client)

  Waits-test : (s : Posix D) → Waits s → Waits (reader_test s)
  unfolding reader_test
  Waits-test s h = ground (arith, h.alone)

  Waits-command_end : (s : Posix D) → Waits s → Waits (command_end s)
  unfolding command_end at_set_command_scanner
  Waits-command_end s h = record {
    quiet = h.quiet;
    client = λ e. cc;
    alone = λ f c e. cc;
    answered = λ e. cc;
  }

  Waits-command_test :
      (s : Posix D) → Agrees s → s.client ≡ Client.awake → Waits s → Waits (command_test s)
  unfolding command_test
  Waits-command_test s a e h = go (s.open_ && s.at.waiting) refl
    where
      go :
          (b : Bool)
          → s.open_ && s.at.waiting ≡ b
          → Waits (if b then record s { client = Client.parked } else command_end s)
      go false k = Waits-command_end s h
      go true k = record {
        quiet = h.quiet;
        client = λ w. ground arith;
        alone = λ f c w. ground (arith, a.closing);
        answered = λ w x. ground arith;
      }

  Waits-command_begin :
      (bytes : Bytes) (s : Posix D) → Agrees s → Waits s → Waits (command_begin bytes s)
  unfolding command_begin
  Waits-command_begin bytes s a h = ground (arith, h.alone, a.closing)

  Waits-at_command : (line : Bytes) (s : Posix D) → Agrees s → Waits s → Waits (at_command line s)
  unfolding at_command
  Waits-at_command line s a h =
      if_both Waits (leb 79 (length line)) (record s { client = Client.outside none })
        (command_begin (line ++ (b'\r' ∷ [])) s)
        (record { quiet = h.quiet; client = λ e. cc; alone = λ f c e. cc; answered = λ e. cc })
        (Waits-command_begin (line ++ (b'\r' ∷ [])) s a h)

  Waits-at_open :
      (opened : Bool) (s : Posix D)
      → s.control ≡ Control.outside
      → Waits s
      → Waits (at_open opened s)
  unfolding at_open
  Waits-at_open opened s e h = ground arith

  Waits-close_test : (freeing : Bool) (s : Posix D) → Waits s → Waits (close_test freeing s)
  unfolding close_test
  Waits-close_test freeing s h = ground (arith, h.alone)

  Waits-at_close : (freeing : Bool) (s : Posix D) → Waits s → Waits (at_close freeing s)
  unfolding at_close close_test
  Waits-at_close freeing s h = ground (arith, h.alone)

  pub Step-Waits : {s t : Posix D} → Step s t → Agrees s → ParserSound s → Waits s → Waits t
  unfolding at_set_timeout at_expect_dataprompt free_stop at_set_command_scanner at_set_callbacks
  Step-Waits {s} (Step.test e) a v h = Waits-test s h
  Step-Waits (Step.read input e) a v h = ground (arith, h.alone)
  Step-Waits {s} {t} (Step.report input e g) a v h = Waits-report input s t e g h
  Step-Waits {s} {t} (Step.feed c {t = m} e f p) a v h =
      let (q, at, fed, same) = reader_feed-some c s m f in
      let (answers, _, _) = feed_byte-Answers c s.parser q s.at at fed v.0 v.1 in
      Waits-Passes (ground (arith, a.busy)) same h
        (subst (λ u. Answers s.at (some u.at)) (sym same) answers) p
  Step-Waits {s} (Step.command line r e) a v h = Waits-at_command line s a h
  Step-Waits {s} (Step.command_raw bytes r e) a v h = Waits-command_begin bytes s a h
  Step-Waits (Step.set_timeout n r e) a v h = ground (arith, h.alone)
  Step-Waits (Step.expect_dataprompt r e) a v h = ground (arith, h.alone)
  Step-Waits (Step.set_scanner scanner r e) a v h = ground (arith, h.alone)
  Step-Waits (Step.set_callbacks cbs arg r e) a v h = ground (arith, h.alone)
  Step-Waits {s} (Step.resume e) a v h = Waits-command_test s a e h
  Step-Waits {s} (Step.expire e l) a v h = Waits-command_end s h
  Step-Waits {s} (Step.open_fails e) a v h = Waits-at_open false s e h
  Step-Waits {s} (Step.opens e o g) a v h = Signals-Waits g (Waits-at_open true s e h)
  Step-Waits {s} (Step.close e) a v h = Waits-at_close false s h
  Step-Waits {s} (Step.free e) a v h = Waits-at_close true s h
  Step-Waits {s} (Step.close_resume freeing e) a v h = Waits-close_test freeing s h
  Step-Waits (Step.stop e) a v h = ground arith
  Step-Waits (Step.join e r) a v h = ground arith
