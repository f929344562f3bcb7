-- ===== src/FreeRtos/Exchange.antt =====
-- A whole command on FreeRTOS (src/at-freertos.c): from the call of `at_command`, through the bytes
-- that the reader feeds, to the return of the call.
use attentive.Base.{
  ℕ, suc, ◌<◌, ◌≡◌, refl, sym, ap, ◌∙◌, true, false, Option, none, some, [], ◌∷◌, ◌++◌, ◌>>=◌, inl,
  inr, arith, length,
}
use attentive.Base.Text.{Bytes}
use attentive.CString.{c_string}
use attentive.Parser.{Parser, at_parser_await_response}
use attentive.Parser.Feed.{at_parser_feed}
use attentive.Parser.Calls.{feed-append}
use attentive.Parser.Responses.{Completes}
use attentive.Parser.Size.{feed-size}
use attentive.Parser.Valid.{IsReady}
use attentive.Channel.{
  At, AtCallbacks, parser_callbacks, feed_byte, handle_response, at_set_command_scanner,
}
use attentive.Channel.Argument.{OnlyArg}
use attentive.Channel.Ending.{handled}
use attentive.Channel.Fed.{feed-Shown}
use attentive.FreeRtos.{
  FreeRtos, Call, Reader, Client, at_command, command_begin, command_arm, command_drain,
  command_test, command_taken, command_leave, command_return, after_loop,
}
use attentive.FreeRtos.Step.{Step, Reach, ReachOn, heard, here, next, next_to, ReachOn-append}
use attentive.FreeRtos.Delivery.{Takes, fed, fed-Reach, unfinished-Reach, writes}

module _ {D : Type 0} where
  -- No command is under way on an open channel with a driver's callbacks and a timeout: the last
  -- command returned `r`, and the reader is at the top of its loop. The semaphore may be given.
  pub record Idle (cbs : AtCallbacks D) (r : Option Bytes) (s : FreeRtos D) : Type 0 where
    pub running : s.running ≡ true
    pub open_ : s.open_ ≡ true
    pub reader : s.reader ≡ Reader.testing
    pub client : s.client ≡ Client.outside r
    pub installed : s.at.cbs ≡ some cbs
    pub ready : IsReady s.parser
    pub limited : 0 < s.timeout

  -- The channel's part when the command waits.
  abbrev pub asked : At D → At D
  asked at = record at { waiting = true; signalled = false }

  -- The command's line is written, and the command waits, with `n` rounds left.
  abbrev begun : Bytes → ℕ → FreeRtos D → FreeRtos D
  begun line n s = record s {
    parser = at_parser_await_response s.parser;
    log = Call.write_to s.uart (line ++ (b'\r' ∷ [])) ∷ s.log;
    at = asked s.at;
    client = Client.taking n;
  }

  abbrev looped : Bytes → FreeRtos D → FreeRtos D
  looped line s = record (begun line 0 s) { client = Client.looping s.timeout }

  begin-Reach :
      (cbs : AtCallbacks D) (line : Bytes) (r : Option Bytes) (n : ℕ) (s : FreeRtos D)
      → Idle cbs r s
      → length line < 79
      → s.timeout ≡ suc n
      → ReachOn s [] (begun line n s)
  unfolding heard at_command command_begin command_arm command_drain command_test
  begin-Reach cbs line r n s h short time =
      let o = h.open_ in
      let sent = record (begun line 0 s) { at = s.at; client = Client.sent } in
      let a : Reach s sent = next_to here (Step.command line r h.client) (ground arith) in
      let b : Reach s (looped line s) = next (next a (Step.arm refl)) (Step.drain refl) in
      (
        next_to b (Step.loop s.timeout refl)
            (ap (λ m. command_test m (looped line s)) time ∙ (ground arith)),
        refl,
      )

  begun-Takes :
      (cbs : AtCallbacks D) (line : Bytes) (r : Option Bytes) (n : ℕ) (s : FreeRtos D)
      → Idle cbs r s
      → Takes cbs n (begun line n s)
  unfolding at_parser_await_response
  begun-Takes cbs line r n s h = record {
    running = h.running;
    open_ = h.open_;
    reader = h.reader;
    client = refl;
    waiting = refl;
    quiet = refl;
    installed = h.installed;
    valid = (let v = h.ready.valid in ground arith);
    plain = h.ready.no_handler;
  }

  -- The response is complete, and the command has returned it.
  abbrev returned : FreeRtos D → Parser (Option (At D)) → At D → Bytes → FreeRtos D
  returned s q at text = record s {
    busy = false;
    log = Call.read_from s.uart ∷ s.log;
    parser = q;
    at = record at {
      response = some text;
      waiting = false;
      signalled = false;
      command_scanner = none;
    };
    reader = Reader.testing;
    client = Client.outside (some (c_string text));
  }

  taken-leaving :
      (s : FreeRtos D)
      → s.open_ ≡ true
      → s.at.waiting ≡ false
      → command_taken s ≡ record s {
        at = record (s.at) { signalled = false };
        client = Client.leaving s.at.response;
      }
  unfolding command_taken command_leave after_loop
  taken-leaving s o w = ground arith

  return-returned :
      (s : FreeRtos D) (q : Parser (Option (At D))) (at : At D) (text : Bytes)
      → c_string q.buf ≡ c_string text
      → command_return (some text) (record (fed s q (handled text at)) {
        at = record (handled text at) { signalled = false };
        client = Client.leaving (some text);
      })
        ≡ returned s q at text
  unfolding command_return fed at_set_command_scanner
  return-returned s q at text same =
      ap
        (λ x. record (fed s q (handled text at)) {
          at = record (handled text at) { signalled = false; command_scanner = none };
          client = Client.outside (some x);
        })
        same

  newline-Reach :
      (cbs : AtCallbacks D) (n : ℕ) (text : Bytes) (t : FreeRtos D) (q : Parser (Option (At D)))
      (at : At D)
      → Takes cbs n t
      → at_parser_feed parser_callbacks t.parser (some t.at) (b'\n' ∷ [])
        ≡ some (q, some (handled text at))
      → ReachOn t (b'\n' ∷ []) (returned t q at text)
  unfolding heard feed_byte fed
  newline-Reach cbs n text t q at h e =
      let fb : feed_byte b'\n' t.parser t.at ≡ some (q, handled text at) = ground arith in
      elim (feed-Shown b'\n' t.parser q (some t.at) (some (handled text at)) h.plain h.waiting e) [
        | inl still ↦ cc
        | inr (text', shown, same) ↦
            let two : text ≡ text' = cc in
            let (run, one) = fed-Reach cbs b'\n' n t q (handled text at) h fb in
            let taken = next_to run (Step.take n h.client refl) (taken-leaving _ h.open_ refl) in
            (
              next_to taken (Step.leave (some text) refl) (return-returned t q at text (cc)),
              ap (λ x. (x ++ []) ++ []) one,
            )
      ]

  -- In a run on the input, the command has returned the text; of the channel's own state, only the driver's data differs
  -- from what it was.
  abbrev pub Returns : AtCallbacks D → Bytes → Bytes → FreeRtos D → Bytes → D → FreeRtos D → Type 0
  Returns cbs line input s text d t =
      ReachOn s input t
      × Idle cbs (some (c_string text)) t
      × (t.at ≡ record (s.at) {
        arg = d;
        command_scanner = none;
        response = some text;
        waiting = false;
        signalled = false;
      })
      × (writes t.log ≡ (line ++ (b'\r' ∷ [])) ∷ writes s.log)
      × (t.timeout ≡ s.timeout)
      × (t.parser.buf_size ≡ s.parser.buf_size)

  pub complete-Reach :
      (cbs : AtCallbacks D) (line input text : Bytes) (r : Option Bytes) (n : ℕ) (s : FreeRtos D)
      (q : Parser (Option (At D))) (at1 at2 : At D)
      → Idle cbs r s
      → length line < 79
      → s.timeout ≡ suc n
      → at_parser_feed parser_callbacks
          (at_parser_await_response s.parser)
          (some (asked s.at))
          input
        ≡ some (q, some at1)
      → at1.waiting ≡ true
      → OnlyArg (asked s.at) (some at2)
      → Completes parser_callbacks
          (at_parser_await_response s.parser)
          (some (asked s.at))
          (input ++ (b'\n' ∷ []))
          (parser_callbacks.handle_response text (some at2))
      → (t : FreeRtos D) × Returns cbs line (input ++ (b'\n' ∷ [])) s text at2.arg t
  unfolding handle_response parser_callbacks at_parser_await_response
  complete-Reach cbs line input text r n s q at1 at2 h short time e w only (q2, all, ready) =
      let takes = begun-Takes cbs line r n s h in
      let (t, (run, still, p, a, sent, limit)) =
        unfinished-Reach cbs n input (begun line n s) q at1 takes e w in
      let rest : at_parser_feed parser_callbacks t.parser (some t.at) (b'\n' ∷ [])
          ≡ some (q2, some (handled text at2)) =
        ap (λ x. at_parser_feed parser_callbacks x (some t.at) (b'\n' ∷ [])) p
        ∙ ap (λ x. at_parser_feed parser_callbacks q (some x) (b'\n' ∷ [])) a
        ∙ sym (ap (λ r. r >>= λ w. at_parser_feed parser_callbacks w.0 w.1 (b'\n' ∷ [])) e)
        ∙ sym (
            feed-append parser_callbacks input (b'\n' ∷ []) (begun line n s).parser
              (some (asked s.at)))
        ∙ all in
      (
        returned t q2 at2 text,
        (
          ReachOn-append (begin-Reach cbs line r n s h short time)
              (ReachOn-append run (newline-Reach cbs n text t q2 at2 still rest)),
          record {
            running = still.running;
            open_ = still.open_;
            reader = refl;
            client = refl;
            installed = ap (λ (x : At D). x.cbs) only ∙ h.installed;
            ready = ready;
            limited = (let l = h.limited in let same = limit in omega arith);
          },
          ap
              (λ (x : At D). record x {
                command_scanner = none;
                response = some text;
                waiting = false;
                signalled = false;
              })
              only,
          sent,
          limit,
          feed-size parser_callbacks (input ++ (b'\n' ∷ [])) (begun line n s).parser q2
              (some (asked s.at)) (some (handled text at2)) takes.valid all,
        ),
      )
