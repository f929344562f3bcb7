-- ===== src/Posix/Exchange.antt =====
-- A whole command on POSIX (src/at-unix.c): from the call of `at_command`, through the bytes that
-- the reader feeds, to the return of the call.
use attentive.Base.{
  ◌<◌, ◌≡◌, refl, sym, ap, ◌∙◌, true, false, Option, none, some, [], ◌∷◌, ◌++◌, ◌>>=◌, arith,
  length, inl, inr,
}
use attentive.Base.Text.{Bytes}
use attentive.CString.{c_string}
use attentive.Parser.{Parser, at_parser_await_response}
use attentive.Parser.Feed.{at_parser_feed}
use attentive.Parser.Calls.{feed-append}
use attentive.Parser.Size.{feed-size}
use attentive.Parser.Responses.{Completes}
use attentive.Parser.Valid.{IsReady}
use attentive.Channel.{
  At, AtCallbacks, parser_callbacks, feed_byte, handle_response, at_set_command_scanner,
}
use attentive.Channel.Argument.{OnlyArg}
use attentive.Channel.Ending.{handled}
use attentive.Channel.Fed.{feed-Shown}
use attentive.Posix.{Posix, Reader, Client, Control, at_command, command_begin}
use attentive.Posix.Step.{Step, start, then_to, heard, RunOn, RunOn-append}
use attentive.Posix.Delivery.{Hears, unfinished-Run, returned, last-Run}

module _ {D : Type 0} where
  -- Nothing is under way on an open channel with a driver's callbacks: the last command returned `r`,
  -- nobody opens or closes, and the reader is at the top of its loop.
  pub record Idle (cbs : AtCallbacks D) (r : Option Bytes) (s : Posix D) : Type 0 where
    pub running : s.running ≡ true
    pub open_ : s.open_ ≡ true
    pub reader : s.reader ≡ Reader.testing
    pub client : s.client ≡ Client.outside r
    pub control : s.control ≡ Control.outside
    pub quiet : s.at.signalled ≡ false
    pub installed : s.at.cbs ≡ some cbs
    pub ready : IsReady s.parser

  -- The command's line is written, and the command waits.
  abbrev pub begun : Bytes → Posix D → Posix D
  begun line s = record s {
    parser = at_parser_await_response s.parser;
    sent = (line ++ (b'\r' ∷ [])) ∷ s.sent;
    at = record (s.at) { waiting = true };
    client = Client.parked;
  }

  pub begin-Run :
      (cbs : AtCallbacks D) (line : Bytes) (r : Option Bytes) (s : Posix D)
      → Idle cbs r s
      → length line < 79
      → RunOn s [] (begun line s)
  unfolding heard at_command command_begin
  begin-Run cbs line r s h short =
      let o = h.open_ in (then_to start (Step.command line r h.client) (ground arith), refl)

  pub begun-Hears :
      (cbs : AtCallbacks D) (line : Bytes) (r : Option Bytes) (s : Posix D)
      → Idle cbs r s
      → Hears cbs (begun line s)
  unfolding at_parser_await_response
  begun-Hears cbs line r s h = record {
    running = h.running;
    open_ = h.open_;
    reader = h.reader;
    client = refl;
    waiting = refl;
    quiet = h.quiet;
    installed = h.installed;
    valid = (let v = h.ready.valid in ground arith);
    plain = h.ready.no_handler;
  }

  -- In a run on the input, the command has returned the text; of the channel's own state, only the driver's data differs
  -- from what it was.
  abbrev pub Returns : AtCallbacks D → Bytes → Bytes → Posix D → Bytes → D → Posix D → Type 0
  Returns cbs line input s text d t =
      RunOn s input t
      × Idle cbs (some (c_string text)) t
      × (t.at ≡ record (s.at) {
        arg = d;
        command_scanner = none;
        response = some text;
        waiting = false;
      })
      × (t.sent ≡ (line ++ (b'\r' ∷ [])) ∷ s.sent)
      × (t.timeout ≡ s.timeout)
      × (t.parser.buf_size ≡ s.parser.buf_size)

  -- The last newline completes the response.
  newline-Run :
      (cbs : AtCallbacks D) (text : Bytes) (t : Posix D) (q : Parser (Option (At D))) (at : At D)
      → Hears cbs t
      → at_parser_feed parser_callbacks t.parser (some t.at) (b'\n' ∷ [])
        ≡ some (q, some (handled text at))
      → RunOn t (b'\n' ∷ []) (returned t q (handled text at) text)
  unfolding feed_byte
  newline-Run cbs text t q at h e =
      let fb : feed_byte b'\n' t.parser t.at ≡ some (q, handled text at) = ground arith in
      elim (feed-Shown b'\n' t.parser q (some t.at) (some (handled text at)) h.plain h.waiting e) [
        | inl still ↦ cc
        | inr (text', shown, same) ↦
            last-Run cbs b'\n' t q (handled text at) text h fb refl refl refl
              (let two : text ≡ text' = cc in cc)
      ]

  newline-Returns :
      (cbs : AtCallbacks D) (line input text : Bytes) (r : Option Bytes) (s t : Posix D)
      (q : Parser (Option (At D))) (at : At D)
      → Idle cbs r s
      → OnlyArg (begun line s).at (some at)
      → Hears cbs t
      → t.sent ≡ (begun line s).sent
      → t.timeout ≡ s.timeout
      → t.control ≡ s.control
      → IsReady q
      → q.buf_size ≡ s.parser.buf_size
      → RunOn s input (returned t q (handled text at) text)
      → Returns cbs line input s text at.arg (returned t q (handled text at) text)
  unfolding returned at_set_command_scanner
  newline-Returns cbs line input text r s t q at i only h sent time control ready size run = (
    run,
    record {
      running = h.running;
      open_ = h.open_;
      reader = refl;
      client = refl;
      control = control ∙ i.control;
      quiet = refl;
      installed = ap (λ (x : At D). x.cbs) only ∙ i.installed;
      ready = ready;
    },
    ap
          (λ (x : At D). record x {
            command_scanner = none;
            response = some text;
            waiting = false;
            signalled = false;
          })
          only
        ∙ ap
            (λ b. record (s.at) {
              arg = at.arg;
              command_scanner = none;
              response = some text;
              waiting = false;
              signalled = b;
            })
            (sym i.quiet),
    sent,
    time,
    size,
  )

  -- All but the last newline leaves the command waiting, and with it the response is complete.
  pub complete-Run :
      (cbs : AtCallbacks D) (line input text : Bytes) (r : Option Bytes) (s : Posix D)
      (q : Parser (Option (At D))) (at1 at2 : At D)
      → Idle cbs r s
      → length line < 79
      → at_parser_feed parser_callbacks (begun line s).parser (some (begun line s).at) input
        ≡ some (q, some at1)
      → at1.waiting ≡ true
      → OnlyArg (begun line s).at (some at2)
      → Completes parser_callbacks
          (begun line s).parser
          (some (begun line s).at)
          (input ++ (b'\n' ∷ []))
          (parser_callbacks.handle_response text (some at2))
      → (t : Posix D) × Returns cbs line (input ++ (b'\n' ∷ [])) s text at2.arg t
  unfolding handle_response parser_callbacks at_parser_await_response
  complete-Run cbs line input text r s q at1 at2 h short fed w only (q2, all, ready) =
      let heard = begun-Hears cbs line r s h in
      let (t, (run, hears, p, a, sent, time, control)) =
        unfinished-Run cbs input (begun line s) q at1 heard fed w in
      let rest : at_parser_feed parser_callbacks t.parser (some t.at) (b'\n' ∷ [])
          ≡ some (q2, some (handled text at2)) =
        ap (λ x. at_parser_feed parser_callbacks x (some t.at) (b'\n' ∷ [])) p
        ∙ ap (λ x. at_parser_feed parser_callbacks q (some x) (b'\n' ∷ [])) a
        ∙ sym (ap (λ r. r >>= λ w. at_parser_feed parser_callbacks w.0 w.1 (b'\n' ∷ [])) fed)
        ∙ sym (
            feed-append parser_callbacks input (b'\n' ∷ []) (begun line s).parser
              (some (begun line s).at))
        ∙ all in
      (
        returned t q2 (handled text at2) text,
        newline-Returns cbs line (input ++ (b'\n' ∷ [])) text r s t q2 at2 h only hears sent time
            control ready
            (feed-size parser_callbacks (input ++ (b'\n' ∷ [])) (begun line s).parser q2
              (some (begun line s).at) (some (handled text at2)) heard.valid all)
            (RunOn-append (begin-Run cbs line r s h short)
              (RunOn-append run (newline-Run cbs text t q2 at2 hears rest))),
      )
