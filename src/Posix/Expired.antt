-- ===== src/Posix/Expired.antt =====
-- A command on POSIX (src/at-unix.c) that the modem leaves without an answer.
use attentive.Base.{
  append-nil, ◌<◌, ◌≡◌, refl, ap, ◌∙◌, true, Option, none, some, List, [], ◌∷◌, ◌++◌, arith, length,
}
use attentive.Base.Text.{Bytes}
use attentive.Parser.{Parser, at_parser_reset, at_parser_await_response}
use attentive.Parser.Lines.{IsPlain}
use attentive.Parser.Exchange.{Item, send, AreSeen}
use attentive.Parser.Size.{feed-size}
use attentive.Parser.Unfinished.{feed-partial}
use attentive.Channel.{At, AtCallbacks, parser_callbacks, at_set_command_scanner}
use attentive.Channel.Argument.{AreSeen-OnlyArg}
use attentive.Posix.{Posix, Client, Control, command_end, command_result}
use attentive.Posix.Step.{Step, RunOn, RunOn-append, heard, then_to}
use attentive.Posix.Delivery.{Hears, unfinished-Run}
use attentive.Posix.Exchange.{Idle, begun, begin-Run, begun-Hears}

module _ {D : Type 0} where
  -- The wait has timed out.
  abbrev expired : Posix D → Posix D
  expired t = record t {
    parser = at_parser_reset t.parser;
    at = record (t.at) { command_scanner = none };
    client = Client.outside none;
  }

  expire-Run :
      (cbs : AtCallbacks D) (input : Bytes) (s t : Posix D)
      → Hears cbs t
      → 0 < t.timeout
      → RunOn s input t
      → RunOn s input (expired t)
  unfolding heard command_end command_result at_set_command_scanner
  expire-Run cbs input s t h time (run, all) =
      let o = h.open_ in
      let w = h.waiting in
      (then_to run (Step.expire h.client time) (ground arith), append-nil (heard run) ∙ all)

  expired-Idle :
      (cbs : AtCallbacks D) (t : Posix D)
      → Hears cbs t
      → t.control ≡ Control.outside
      → Idle cbs none (expired t)
  unfolding at_parser_reset
  expired-Idle cbs t h outside = record {
    running = h.running;
    open_ = h.open_;
    reader = h.reader;
    client = refl;
    control = outside;
    quiet = h.quiet;
    installed = h.installed;
    ready = (let v = h.valid in let n = h.plain in ground arith);
  }

  -- A command shorter than 79 bytes is given on an idle POSIX channel with a timeout, that is, one
  -- that runs and is open, with the callbacks of a driver, a ready parser and the reader at the
  -- top of its loop, where no command and no call that opens or closes is under way and no signal
  -- of the response handler is pending. The modem sends lines that are scanned as intermediate or
  -- URC lines and then a part of a plain line, in fewer bytes than the buffer holds. There is an
  -- order of the threads, with no spurious wake-up, in which the line is written with a carriage
  -- return, the reader reads exactly these bytes, and the command returns NULL. The channel is
  -- then idle again, with the data of the driver as the scanners and the URC handler left them and
  -- the scanner of the command cleared; its flag that a command waits stays set, and the timeout
  -- and the size of the buffer are as before.
  pub expired-exchange :
      (cbs : AtCallbacks D) (line : Bytes) (r : Option Bytes) (s : Posix D) (items : List Item)
      (part : Bytes) (at : At D)
      → Idle cbs r s
      → length line < 79
      → 0 < s.timeout
      → AreSeen parser_callbacks items (some (record (s.at) { waiting = true })) (some at)
      → IsPlain part
      → length (send items part) < s.parser.buf_size
      → (t : Posix D) × RunOn s (send items part) t
        × Idle cbs none t
        × (t.at ≡ record (s.at) { arg = at.arg; command_scanner = none; waiting = true })
        × (t.sent ≡ (line ++ (b'\r' ∷ [])) ∷ s.sent)
        × (t.timeout ≡ s.timeout)
        × (t.parser.buf_size ≡ s.parser.buf_size)
  unfolding at_parser_reset at_parser_await_response
  expired-exchange cbs line r s items part at h short time seen plain fits =
      let only =
        AreSeen-OnlyArg (begun line s).at items (some (begun line s).at) (some at) seen refl in
      let (q, fed) =
        feed-partial parser_callbacks items part s.parser (some (begun line s).at) (some at) h.ready
          seen plain fits in
      let (t, (run, hears, p, a, sent, same, control)) =
        unfinished-Run cbs (send items part) (begun line s) q at (begun-Hears cbs line r s h) fed
          (ap (λ (x : At D). x.waiting) only) in
      (
        expired t,
        expire-Run cbs (send items part) s t hears (omega (arith, same, time))
            (RunOn-append (begin-Run cbs line r s h short) run),
        expired-Idle cbs t hears (control ∙ h.control),
        ap (λ (x : At D). record x { command_scanner = none }) (a ∙ only),
        sent,
        same,
        ap (λ (x : Parser (Option (At D))). x.buf_size) p
            ∙ feed-size parser_callbacks (send items part) (begun line s).parser q
                (some (begun line s).at) (some at) (begun-Hears cbs line r s h).valid fed,
      )
