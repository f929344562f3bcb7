-- ===== src/FreeRtos/Delivery.antt =====
-- The bytes of a response on FreeRTOS (src/at-freertos.c), one at a time, while the command waits.
use attentive.Base.{
  ℕ, ◌≡◌, refl, sym, ap, ◌∙◌, true, false, Option, none, some, List, [], ◌∷◌, ◌>>=◌, inl, inr,
  arith,
}
use attentive.Base.Text.{Bytes}
use attentive.Parser.{Parser}
use attentive.Parser.Feed.{at_parser_feed}
use attentive.Parser.Calls.{feed-append}
use attentive.Parser.Valid.{IsValid}
use attentive.Channel.{At, AtCallbacks, parser_callbacks, feed_byte}
use attentive.Channel.Answers.{feed-Answers, feed_byte-Answers}
use attentive.Channel.Driver.{feed-HasCallbacks}
use attentive.FreeRtos.{FreeRtos, Call, Reader, Client, reader_test, reader_return, reader_feed}
use attentive.FreeRtos.Step.{Step, ReachOn, ReachOn-append, heard, here, next, next_to}

-- What was written to the port, the last first.
abbrev pub writes : List Call → List Bytes
writes [] = []
writes (Call.write_to b bytes ∷ log) = bytes ∷ writes log
writes (Call.read_from b ∷ log) = writes log
writes (Call.close_of b ∷ log) = writes log

module _ {D : Type 0} where
  -- A command waits for the semaphore, with `n` rounds left, on an open channel with a driver's
  -- callbacks, and the reader is at the top of its loop.
  pub record Takes (cbs : AtCallbacks D) (n : ℕ) (s : FreeRtos D) : Type 0 where
    pub running : s.running ≡ true
    pub open_ : s.open_ ≡ true
    pub reader : s.reader ≡ Reader.testing
    pub client : s.client ≡ Client.taking n
    pub waiting : s.at.waiting ≡ true
    pub quiet : s.at.signalled ≡ false
    pub installed : s.at.cbs ≡ some cbs
    pub valid : IsValid s.parser
    pub plain : s.parser.character_handler ≡ none

  -- The reader has a byte; it has fed it.
  held : ℕ → FreeRtos D → FreeRtos D
  held c s = record s {
    busy = false;
    log = Call.read_from s.uart ∷ s.log;
    reader = Reader.holding c;
  }

  unfoldable pub fed : FreeRtos D → Parser (Option (At D)) → At D → FreeRtos D
  fed s q at = record s {
    busy = false;
    log = Call.read_from s.uart ∷ s.log;
    parser = q;
    at = at;
    reader = Reader.testing;
  }

  pub test-reading :
      (s : FreeRtos D)
      → s.running ≡ true
      → s.open_ ≡ true
      → reader_test s
        ≡ record s { busy = true; log = Call.read_from s.uart ∷ s.log; reader = Reader.reading }
  unfolding reader_test
  test-reading s r o = ground arith

  pub fed-Reach :
      (cbs : AtCallbacks D) (c n : ℕ) (s : FreeRtos D) (q : Parser (Option (At D))) (at : At D)
      → Takes cbs n s
      → feed_byte c s.parser s.at ≡ some (q, at)
      → ReachOn s (c ∷ []) (fed s q at)
  unfolding heard held fed reader_return reader_feed
  fed-Reach cbs c n s q at h e =
      let tested = next_to here (Step.test h.reader) (test-reading s h.running h.open_) in
      let read = next tested (Step.return (some c) refl) in
      (
        next read (
            Step.feed c refl (
              ap
                (λ r. r >>= λ w.
                  some (record (held c s) { parser = w.0; at = w.1; reader = Reader.testing }))
                e)),
        refl,
      )

  -- The reader has fed all, one byte at a time, and the command waits on.
  abbrev pub AllFed :
      AtCallbacks D → ℕ → Bytes → FreeRtos D → Parser (Option (At D)) → At D → FreeRtos D → Type 0
  AllFed cbs n input s q at t =
      ReachOn s input t
      × Takes cbs n t
      × (t.parser ≡ q)
      × (t.at ≡ at)
      × (writes t.log ≡ writes s.log)
      × (t.timeout ≡ s.timeout)

  pub unfinished-Reach :
      (cbs : AtCallbacks D) (n : ℕ) (input : Bytes) (s : FreeRtos D) (q : Parser (Option (At D)))
      (at : At D)
      → Takes cbs n s
      → at_parser_feed parser_callbacks s.parser (some s.at) input ≡ some (q, some at)
      → at.waiting ≡ true
      → (t : FreeRtos D) × AllFed cbs n input s q at t
  unfolding heard at_parser_feed feed_byte fed
  unfinished-Reach cbs n [] s q at h e w = (s, ((here, refl), h, (cc), (cc), refl, refl))
  unfinished-Reach cbs n (c ∷ rest) s q at h e w =
      let (q', at', e', v, m, i) =
        feed-HasCallbacks cbs (c ∷ []) s.parser s.at h.valid h.plain h.installed in
      let fb : feed_byte c s.parser s.at ≡ some (q', at') = ground arith in
      let (answers, _, _) = feed_byte-Answers c s.parser q' s.at at' fb h.valid h.plain in
      let later : at_parser_feed parser_callbacks q' (some at') rest ≡ some (q, some at) =
        sym (ap (λ r. r >>= λ w. at_parser_feed parser_callbacks w.0 w.1 rest) e')
        ∙ sym (feed-append parser_callbacks (c ∷ []) rest s.parser (some s.at))
        ∙ e in
      elim answers [
        | inl (same, _, quiet) ↦
            let h' : Takes cbs n (fed s q' at') = record {
              running = h.running;
              open_ = h.open_;
              reader = refl;
              client = h.client;
              waiting = same ∙ h.waiting;
              quiet = quiet ∙ h.quiet;
              installed = i;
              valid = v;
              plain = m;
            } in
            let (t, (run, takes, p, a, sent, time)) =
              unfinished-Reach cbs n rest (fed s q' at') q at h' later w in
            (t, (ReachOn-append (fed-Reach cbs c n s q' at' h fb) run, takes, p, a, sent, time))
        | inr (over, _, _) ↦
            let (after, _, _) = feed-Answers rest q' q at' at later v m in
            elim after [ inl (same, _, _) ↦ cc | inr (still, _, _) ↦ cc ]
      ]
