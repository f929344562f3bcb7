-- ===== src/Posix/Answer.antt =====
-- A command on POSIX (src/at-unix.c) that the modem answers with lines and a final one.
use attentive.Base.{◌<◌, ap, sym, true, Option, some, List, [], ◌∷◌, ◌++◌, length}
use mathlib.Core.Path.{subst}
use attentive.Base.Text.{Bytes}
use attentive.Response
use attentive.Response.{ResponseType}
use attentive.Parser.Lines.{wire}
use attentive.Parser.Exchange.{Item, send, stored_lines, join_lines}
use attentive.Parser.Unfinished.{send-newline, feed-unfinished}
use attentive.Parser.Responses.{Completes, feed-ok_response, feed-final_response}
use attentive.Channel.{At, AtCallbacks, parser_callbacks}
use attentive.Channel.Ending.{Ending, scanned-OnlyArg}
use attentive.Posix.{Posix}
use attentive.Posix.Exchange.{Idle, Returns, begun, complete-Run}

module _ {D : Type 0} where
  -- What the modem answers to a command that is given in the state.
  abbrev pub EndsWith : Posix D → ResponseType → List Item → Bytes → At D → Type 0
  EndsWith s = Ending (record (s.at) { waiting = true }) s.parser.buf_size

  answer-Run :
      (cbs : AtCallbacks D) (line text : Bytes) (r : Option Bytes) (s : Posix D)
      (type : ResponseType) (items : List Item) (last : Bytes) (at : At D)
      → Idle cbs r s
      → length line < 79
      → EndsWith s type items last at
      → Completes parser_callbacks
          (begun line s).parser
          (some (begun line s).at)
          (send items (wire last []))
          (parser_callbacks.handle_response text (some at))
      → (t : Posix D) × Returns cbs line (send items (wire last [])) s text at.arg t
  answer-Run cbs line text r s type items last at h short a all =
      let (only1, only) =
        scanned-OnlyArg type items last (begun line s).at a.before at a.seen a.sees in
      let (q, fed) =
        feed-unfinished parser_callbacks items last s.parser (some (begun line s).at)
          (some a.before) h.ready a.seen a.plain a.fits in
      subst (λ input. (t : Posix D) × Returns cbs line input s text at.arg t)
        (sym (send-newline items last))
        (complete-Run cbs line (send items (last ++ (b'\r' ∷ []))) text r s q a.before at h short
          fed (ap (λ (x : At D). x.waiting) only1) only
          (subst
            (λ input.
              Completes parser_callbacks (begun line s).parser (some (begun line s).at) input
                (parser_callbacks.handle_response text (some at)))
            (send-newline items last) all))

  -- A command shorter than 79 bytes is given on an idle POSIX channel, that is, one that runs and
  -- is open, with the callbacks of a driver, a ready parser and the reader at the top of its loop,
  -- where no command and no call that opens or closes is under way and no signal of the response
  -- handler is pending. The modem answers with lines that are scanned as intermediate or URC lines
  -- and then an OK line, all plain and not empty, in fewer bytes than the buffer holds. There is
  -- an order of the threads, with no spurious wake-up, in which the line is written with a
  -- carriage return, the reader reads exactly the bytes of these lines, each behind the other and
  -- with its line end, and the command returns the intermediate lines joined by newlines, up to
  -- the first NUL. The channel is then idle again, with the data of the driver as the scanners and
  -- the URC handler left them; of the rest of its driver side, the response is new, nothing waits
  -- and the scanner of the command is cleared, and the timeout and the size of the buffer are as
  -- before.
  pub ok-exchange :
      (cbs : AtCallbacks D) (line : Bytes) (r : Option Bytes) (s : Posix D) (items : List Item)
      (last : Bytes) (at : At D)
      → Idle cbs r s
      → length line < 79
      → EndsWith s Response.final_ok items last at
      → (t : Posix D) × Returns cbs line
          (send items (wire last []))
          s
          (join_lines (stored_lines items))
          at.arg
          t
  ok-exchange cbs line r s items last at h short a =
      answer-Run cbs line (join_lines (stored_lines items)) r s Response.final_ok items last at h
        short a
        (feed-ok_response parser_callbacks items last s.parser (some (begun line s).at)
          (some a.before) (some at) h.ready a.seen a.plain a.filled a.sees a.fits)

  -- The same for a final line that is no OK line: the command returns the intermediate lines and the
  -- final one, joined by newlines, up to the first NUL.
  pub error-exchange :
      (cbs : AtCallbacks D) (line : Bytes) (r : Option Bytes) (s : Posix D) (items : List Item)
      (last : Bytes) (at : At D)
      → Idle cbs r s
      → length line < 79
      → EndsWith s Response.final items last at
      → (t : Posix D) × Returns cbs line
          (send items (wire last []))
          s
          (join_lines (stored_lines items ++ (last ∷ [])))
          at.arg
          t
  error-exchange cbs line r s items last at h short a =
      answer-Run cbs line (join_lines (stored_lines items ++ (last ∷ []))) r s Response.final items
        last at h short a
        (feed-final_response parser_callbacks items last s.parser (some (begun line s).at)
          (some a.before) (some at) h.ready a.seen a.plain a.filled a.sees a.fits)
