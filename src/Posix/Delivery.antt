-- ===== src/Posix/Delivery.antt =====
-- A command whose response arrives byte by byte.
use attentive.Base.{
  ◌++◌, ℕ, ◌≡◌, refl, sym, ap, ◌∙◌, true, false, Option, none, some, [], ◌∷◌, ◌>>=◌, inl, inr,
  arith,
}
use attentive.Base.Text.{Bytes}
use attentive.CString.{c_string}
use attentive.Parser.{Parser}
use attentive.Parser.Feed.{at_parser_feed}
use attentive.Parser.Calls.{feed-append}
use attentive.Parser.Valid.{IsValid}
use attentive.Channel.{At, AtCallbacks, parser_callbacks, feed_byte, at_set_command_scanner}
use attentive.Channel.Answers.{feed-Answers, feed_byte-Answers}
use attentive.Channel.Driver.{feed-HasCallbacks}
use attentive.Posix.{
  Posix, Input, Reader, Client, reader_test, reader_report, reader_feed, command_test, command_end,
  command_result,
}
use attentive.Posix.Step.{
  RunOn, RunOn-append, heard, Step, start, then_, then_to, Wakes, one, silent, signal,
}

module _ {D : Type 0} where
  -- A command waits on an open channel with a driver's callbacks, and nobody closes it.
  pub record Hears (cbs : AtCallbacks D) (s : Posix D) : Type 0 where
    pub running : s.running ≡ true
    pub open_ : s.open_ ≡ true
    pub reader : s.reader ≡ Reader.testing
    pub client : s.client ≡ Client.parked
    pub waiting : s.at.waiting ≡ true
    pub quiet : s.at.signalled ≡ false
    pub installed : s.at.cbs ≡ some cbs
    pub valid : IsValid s.parser
    pub plain : s.parser.character_handler ≡ none

  -- The reader has a byte.
  holding : ℕ → Posix D → Posix D
  holding c s = record s { busy = false; reader = Reader.holding c; client = Client.parked }

  pub test-reading :
      (s : Posix D)
      → s.running ≡ true
      → s.open_ ≡ true
      → reader_test s ≡ record s { busy = true; reader = Reader.reading }
  unfolding reader_test
  test-reading s r o = ground arith

  resume-parked :
      (s : Posix D)
      → s.open_ ≡ true
      → s.at.waiting ≡ true
      → command_test s ≡ record s { client = Client.parked }
  unfolding command_test
  resume-parked s o w = ground arith

  resume-end : (s : Posix D) → s.at.waiting ≡ false → command_test s ≡ command_end s
  unfolding command_test
  resume-end s w = ground arith

  holding-Run :
      (cbs : AtCallbacks D) (c : ℕ) (s : Posix D) → Hears cbs s → RunOn s (c ∷ []) (holding c s)
  unfolding holding reader_report heard
  holding-Run cbs c s h =
      let tested = then_to start (Step.test h.reader) (test-reading s h.running h.open_) in
      let read = then_ tested (Step.read (Input.byte c) refl) in
      let reported = then_ read (Step.report (Input.byte c) refl (one (Wakes.client h.client))) in
      (then_to reported (Step.resume refl) (resume-parked _ h.open_ h.waiting), refl)

  -- The reader has fed its byte.
  fed : ℕ → Posix D → Parser (Option (At D)) → At D → Posix D
  fed c s q at = record s {
    busy = false;
    client = Client.parked;
    parser = q;
    at = at;
    reader = Reader.testing;
  }

  feed-fed :
      (c : ℕ) (s : Posix D) (q : Parser (Option (At D))) (at : At D)
      → feed_byte c s.parser s.at ≡ some (q, at)
      → reader_feed c (holding c s) ≡ some (fed c s q at)
  unfolding reader_feed holding fed
  feed-fed c s q at e = ap (λ r. r >>= λ w. some (fed c s w.0 w.1)) e

  -- The command has returned the text, and the signal is spent.
  unfoldable pub returned : Posix D → Parser (Option (At D)) → At D → Bytes → Posix D
  unfolding at_set_command_scanner
  returned s q at text = record s {
    busy = false;
    parser = q;
    at = at_set_command_scanner none (record at { signalled = false });
    reader = Reader.testing;
    client = Client.outside (some (c_string text));
  }

  -- The byte that completes a response.
  pub last-Run :
      (cbs : AtCallbacks D) (c : ℕ) (s : Posix D) (q : Parser (Option (At D))) (at : At D)
      (text : Bytes)
      → Hears cbs s
      → feed_byte c s.parser s.at ≡ some (q, at)
      → at.waiting ≡ false
      → at.signalled ≡ true
      → at.response ≡ some text
      → c_string q.buf ≡ c_string text
      → RunOn s (c ∷ []) (returned s q at text)
  unfolding heard holding fed command_end command_result at_set_command_scanner returned
  last-Run cbs c s q at text h e w g shown same =
      let u = fed c s q at in
      let woken = record u { at = record at { signalled = false }; client = Client.awake } in
      let (held, heard_held) = holding-Run cbs c s h in
      let reached =
        then_ held (Step.feed c refl (feed-fed c s q at e) (signal g (one (Wakes.client refl)))) in
      (
        then_to reached (Step.resume refl)
            (resume-end woken w ∙ (let o = h.open_ in ground (arith, same))),
        ap (λ x. (x ++ []) ++ []) heard_held,
      )

  -- The byte goes to the parser, and the command waits on.
  fed-Hears :
      (cbs : AtCallbacks D) (c : ℕ) (s : Posix D) (q : Parser (Option (At D))) (at : At D)
      → Hears cbs s
      → feed_byte c s.parser s.at ≡ some (q, at)
      → at.cbs ≡ some cbs
      → IsValid q
      → q.character_handler ≡ none
      → at.waiting ≡ s.at.waiting
      → at.signalled ≡ s.at.signalled
      → Hears cbs (fed c s q at) × RunOn s (c ∷ []) (fed c s q at)
  unfolding holding fed heard
  fed-Hears cbs c s q at h e i v n w g =
      let (held, heard_held) = holding-Run cbs c s h in
      (
        record {
          running = h.running;
          open_ = h.open_;
          reader = refl;
          client = refl;
          waiting = w ∙ h.waiting;
          quiet = g ∙ h.quiet;
          installed = i;
          valid = v;
          plain = n;
        },
        (
          then_ held (Step.feed c refl (feed-fed c s q at e) (silent (g ∙ h.quiet))),
          ap (λ x. x ++ []) heard_held,
        ),
      )

  -- The reader has fed all, one byte at a time, and the command waits on.
  abbrev pub AllFed :
      AtCallbacks D → Bytes → Posix D → Parser (Option (At D)) → At D → Posix D → Type 0
  AllFed cbs input s q at t =
      RunOn s input t
      × Hears cbs t
      × (t.parser ≡ q)
      × (t.at ≡ at)
      × (t.sent ≡ s.sent)
      × (t.timeout ≡ s.timeout)
      × (t.control ≡ s.control)

  pub unfinished-Run :
      (cbs : AtCallbacks D) (input : Bytes) (s : Posix D) (q : Parser (Option (At D))) (at : At D)
      → Hears cbs s
      → at_parser_feed parser_callbacks s.parser (some s.at) input ≡ some (q, some at)
      → at.waiting ≡ true
      → (t : Posix D) × AllFed cbs input s q at t
  unfolding at_parser_feed feed_byte fed heard
  unfinished-Run cbs [] s q at h e w = (s, ((start, refl), h, (cc), (cc), refl, refl, refl))
  unfinished-Run cbs (c ∷ rest) s q at h e w =
      let (q', at', e', v, n, i) =
        feed-HasCallbacks cbs (c ∷ []) s.parser s.at h.valid h.plain h.installed in
      let fb : feed_byte c s.parser s.at ≡ some (q', at') = ground arith in
      let (answers, _, _) = feed_byte-Answers c s.parser q' s.at at' fb h.valid h.plain in
      let later : at_parser_feed parser_callbacks q' (some at') rest ≡ some (q, some at) =
        sym (ap (λ r. r >>= λ w. at_parser_feed parser_callbacks w.0 w.1 rest) e')
        ∙ sym (feed-append parser_callbacks (c ∷ []) rest s.parser (some s.at))
        ∙ e in
      elim answers [
        | inl (same, _, quiet) ↦
            let (h', r) = fed-Hears cbs c s q' at' h fb i v n same quiet in
            let (t, (run, hears, p, a, sent, time, control)) =
              unfinished-Run cbs rest (fed c s q' at') q at h' later w in
            (t, (RunOn-append r run, hears, p, a, sent, time, control))
        | inr (over, _, _) ↦
            let (after, _, _) = feed-Answers rest q' q at' at later v n in
            elim after [ inl (same, _, _) ↦ cc | inr (still, _, _) ↦ cc ]
      ]
