-- ===== src/FreeRtos/Answer.antt =====
-- A command on FreeRTOS (src/at-freertos.c) that the modem answers with lines and an OK line.
use attentive.Base.{
  ℕ, suc, ◌<◌, ◌≡◌, refl, sym, ap, Option, some, List, [], ◌∷◌, ◌++◌, arith, length, zero,
}
use mathlib.Core.Path.{subst}
use attentive.Base.Text.{Bytes}
use attentive.Response
use attentive.Parser.{at_parser_await_response}
use attentive.Parser.Lines.{wire}
use attentive.Parser.Exchange.{Item, send, stored_lines, join_lines}
use attentive.Parser.Responses.{Completes, feed-ok_response}
use attentive.Parser.Unfinished.{send-newline, feed-unfinished}
use attentive.Channel.{At, AtCallbacks, parser_callbacks}
use attentive.Channel.Ending.{Ending, scanned-OnlyArg}
use attentive.FreeRtos.{FreeRtos}
use attentive.FreeRtos.Exchange.{Idle, Returns, asked, complete-Reach}

positive-suc : (k : ℕ) → 0 < k → (n : ℕ) × (k ≡ suc n)
positive-suc zero h = absurd (omega (arith, h))
positive-suc (suc n) h = (n, refl)

module _ {D : Type 0} where
  -- A command shorter than 79 bytes is given on a FreeRTOS channel that runs and is open, with the
  -- callbacks of a driver, a ready parser, a timeout of at least one round, the reader at the top
  -- of its loop and no command under way; the semaphore may have been given. The modem answers
  -- with lines that are scanned as intermediate or URC lines and then an OK line, all plain and
  -- not empty, in fewer bytes than the buffer holds. There is an order of the tasks in which the
  -- line is written once, with a carriage return, the reader reads exactly the bytes of these
  -- lines, each with its line end, and the command returns the intermediate lines joined by
  -- newlines, up to the first NUL. The channel can then take the next command: the data of the
  -- driver are as the scanners and the URC handler left them, the response is new, nothing waits,
  -- the semaphore is not given, the scanner of the command is cleared, and the callbacks, the
  -- timeout and the size of the buffer are as before.
  pub ok-delivery :
      (cbs : AtCallbacks D) (line : Bytes) (r : Option Bytes) (s : FreeRtos D) (items : List Item)
      (last : Bytes) (at : At D)
      → Idle cbs r s
      → length line < 79
      → Ending (asked s.at) s.parser.buf_size Response.final_ok items last at
      → (t : FreeRtos D) × Returns cbs line
          (send items (wire last []))
          s
          (join_lines (stored_lines items))
          at.arg
          t
  ok-delivery cbs line r s items last at h short a =
      let start = asked s.at in
      let text = join_lines (stored_lines items) in
      let (n, time) = positive-suc s.timeout h.limited in
      let (only1, only) =
        scanned-OnlyArg Response.final_ok items last start a.before at a.seen a.sees in
      let (q, fed) =
        feed-unfinished parser_callbacks items last s.parser (some start) (some a.before) h.ready
          a.seen a.plain a.fits in
      subst (λ input. (t : FreeRtos D) × Returns cbs line input s text at.arg t)
        (sym (send-newline items last))
        (complete-Reach cbs line (send items (last ++ (b'\r' ∷ []))) text r n s q a.before at h
          short time fed (ap (λ (x : At D). x.waiting) only1) only
          (subst
            (λ input.
              Completes parser_callbacks (at_parser_await_response s.parser) (some start) input
                (parser_callbacks.handle_response text (some at)))
            (send-newline items last)
            (feed-ok_response parser_callbacks items last s.parser (some start) (some a.before)
              (some at) h.ready a.seen a.plain a.filled a.sees a.fits)))
