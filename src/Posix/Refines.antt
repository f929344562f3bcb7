-- ===== src/Posix/Refines.antt =====
-- The channel that a driver's code is read against (Modem.antt) beside the one of src/at-unix.c.
use attentive.Base.{◌<◌, ◌≡◌, refl, sym, ap, ◌∙◌, Option, none, List, [], ◌∷◌, ◌++◌, arith, length}
use attentive.Base.Text.{Bytes}
use attentive.Channel.{AtCallbacks}
use attentive.Channel.Notices.{Matches}
use attentive.Modem
use attentive.Modem.{Action, Notice, Reply, Scanner, World, done, notice_all}
use attentive.Modem.Replies.{at_command-reply, after_reply}
use attentive.Posix.{Posix}
use attentive.Posix.Step.{RunOn}
use attentive.Posix.Exchange.{Idle}
use attentive.Posix.Served.{commands, lift, Serves, served, notices-commands, Serves-Run}

module _ {D : Type 0} where
  -- Between two commands, the driver's code and the channel agree on the driver's data, on the
  -- scanner of the next command and on the commands so far.
  pub record Related (cbs : AtCallbacks D) (r : Option Bytes) (w : World D) (s : Posix D)
      : Type 0 where
    pub idle : Idle cbs r s
    pub dev : s.at.arg ≡ w.dev
    pub scanner : s.at.command_scanner ≡ lift w.command_scanner
    pub sent : s.sent ≡ commands w.log

  module _ (cbs : AtCallbacks D) (notice : Notice D)
      (quiet : (line : Bytes) (d : D) → commands (notice line d).1 ≡ []) where
    -- The channel on POSIX can follow the channel that the code of a driver is read against. Let a
    -- POSIX channel be idle: it runs and is open, with the callbacks of a driver, a ready parser
    -- and the reader at the top of its loop, no command and no call that opens or closes is under
    -- way, and no signal of the response handler is pending. Let it agree with the model of the
    -- driver on the data of the driver, on the scanner of the next command and on the commands so
    -- far; and let the callbacks do to the data what the notice of that model says, which sends no
    -- commands. If the line is shorter than 79 bytes and the modem serves the first reply of the
    -- script, by lines and an OK line, by lines and an error line, or by no final line until the
    -- timeout, then at_command of the model returns that response, and there is an order of the
    -- threads, with no spurious wake-up, in which the reader reads exactly the bytes that the
    -- modem serves and the call on the POSIX channel returns the response too, the channel is idle
    -- and the two agree again; the scanner of the command is cleared, and the timeout and the size
    -- of the buffer are as before.
    pub at_command-Related :
        (line : Bytes) (r : Option Bytes) (reply : Reply) (script : List Reply) (w : World D)
        (s : Posix D)
        → Related cbs r w s
        → Matches cbs s.at.command_scanner notice
        → w.script ≡ reply ∷ script
        → length line < 79
        → (serves : Serves s reply)
        → (t : Posix D) × (v : World D) × (Modem.at_command notice line w
            ≡ (done reply.response, v))
          × (v.script ≡ script)
          × (v.command_scanner ≡ none)
          × RunOn s (served serves) t
          × Related cbs reply.response v t
          × (t.timeout ≡ s.timeout)
          × (t.parser.buf_size ≡ s.parser.buf_size)
    at_command-Related line r reply script w s h m scripted short serves =
        let (t, (run, idle, dev, scanner, sent, time, size)) =
          Serves-Run cbs notice quiet line r s reply h.idle m short serves in
        let log = Action.command (line ++ (b'\r' ∷ [])) ∷ w.log in
        (
          t,
          after_reply notice (Action.command (line ++ (b'\r' ∷ []))) reply script w,
          at_command-reply notice line reply script w (ground arith) scripted,
          refl,
          refl,
          run,
          record {
            idle = idle;
            dev = dev log ∙ ap (λ d. (notice_all notice reply.lines d log).0) h.dev;
            scanner = scanner;
            sent =
                sent
                ∙ ap (λ x. (line ++ (b'\r' ∷ [])) ∷ x) h.sent
                ∙ sym (notices-commands cbs notice quiet reply.lines w.dev log);
          },
          time,
          size,
        )
