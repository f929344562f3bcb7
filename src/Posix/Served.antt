-- ===== src/Posix/Served.antt =====
-- What the modem sends for a command on POSIX (src/at-unix.c), and the reply that a driver's code sees
-- of it (Modem.antt).
use attentive.Base.{
  ◌<◌, ◌≡◌, ◌≢◌, refl, sym, ap, ◌∙◌, true, Option, none, some, List, [], ◌∷◌, ◌++◌, arith, length,
}
use mathlib.Core.Path.{subst}
use attentive.Base.Text.{Bytes}
use attentive.CString.{c_string}
use attentive.Response
use attentive.Response.{ResponseType}
use attentive.Parser.{LineScanner}
use attentive.Parser.Lines.{IsPlain, wire}
use attentive.Parser.Exchange.{Item, send, AreSeen, stored_lines, join_lines}
use attentive.Channel.{At, AtCallbacks, parser_callbacks}
use attentive.Channel.Notices.{Matches, unsolicited_lines, AreSeen-notices, scan-keeps_data}
use attentive.Modem.{Action, Notice, Reply, Scanner, notice_all}
use attentive.Posix.{Posix}
use attentive.Posix.Step.{RunOn}
use attentive.Posix.Exchange.{Idle, Returns}
use attentive.Channel.Ending.{scanned-OnlyArg}
use attentive.Posix.Answer.{EndsWith, ok-exchange, error-exchange}
use attentive.Posix.Expired.{expired-exchange}

-- The commands of a log.
abbrev pub commands : List Action → List Bytes
commands [] = []
commands (Action.command line ∷ log) = line ∷ commands log
commands (Action.raw bytes ∷ log) = bytes ∷ commands log
commands (Action.set_timeout n ∷ log) = commands log
commands (Action.expect_dataprompt ∷ log) = commands log
commands (Action.send bytes ∷ log) = commands log
commands (Action.delay ∷ log) = commands log
commands (Action.set_callbacks b ∷ log) = commands log

commands-append : (xs ys : List Action) → commands xs ≡ [] → commands (xs ++ ys) ≡ commands ys
commands-append [] ys h = refl
commands-append (Action.command line ∷ xs) ys h = cc
commands-append (Action.raw bytes ∷ xs) ys h = cc
commands-append (Action.set_timeout n ∷ xs) ys h = commands-append xs ys h
commands-append (Action.expect_dataprompt ∷ xs) ys h = commands-append xs ys h
commands-append (Action.send bytes ∷ xs) ys h = commands-append xs ys h
commands-append (Action.delay ∷ xs) ys h = commands-append xs ys h
commands-append (Action.set_callbacks b ∷ xs) ys h = commands-append xs ys h

module _ {D : Type 0} where
  -- A command's scanner sees the line alone.
  abbrev pub lift : Option Scanner → Option (LineScanner D)
  lift none = none
  lift (some scanner) = some (λ line d. (scanner line, d))

  -- What the modem sends for a command that is given in the state `s`, and the reply that the
  -- driver's code sees of it.
  pub data Serves (s : Posix D) (reply : Reply) : Type 0 where
    accepts :
        (items : List Item) (last : Bytes) (at : At D)
        → EndsWith s Response.final_ok items last at
        → reply.response ≡ some (c_string (join_lines (stored_lines items)))
        → reply.lines ≡ unsolicited_lines items
        → Serves s reply
    refuses :
        (items : List Item) (last : Bytes) (at : At D)
        → EndsWith s Response.final items last at
        → reply.response ≡ some (c_string (join_lines (stored_lines items ++ (last ∷ []))))
        → reply.lines ≡ unsolicited_lines items
        → Serves s reply
    stops :
        (items : List Item) (part : Bytes) (at : At D)
        → 0 < s.timeout
        → AreSeen parser_callbacks items (some (record (s.at) { waiting = true })) (some at)
        → IsPlain part
        → length (send items part) < s.parser.buf_size
        → reply.response ≡ none
        → reply.lines ≡ unsolicited_lines items
        → Serves s reply

  -- All that the modem sends.
  unfoldable pub served : {s : Posix D} {reply : Reply} → Serves s reply → Bytes
  served (accepts items last at e answer lines) = send items (wire last [])
  served (refuses items last at e answer lines) = send items (wire last [])
  served (stops items part at time seen plain fits answer lines) = send items part

  module _ (cbs : AtCallbacks D) (notice : Notice D)
      (quiet : (line : Bytes) (d : D) → commands (notice line d).1 ≡ []) where
    pub notices-commands :
        (lines : List Bytes) (d : D) (log : List Action)
        → commands (notice_all notice lines d log).1 ≡ commands log
    unfolding notice_all
    notices-commands [] d log = refl
    notices-commands (line ∷ lines) d log =
        notices-commands lines (notice line d).0 ((notice line d).1 ++ log)
        ∙ commands-append (notice line d).1 log (quiet line d)

    -- A command on the channel that is served with what the modem sends, the input.
    abbrev pub Served : Bytes → Bytes → Posix D → Reply → Posix D → Type 0
    Served line input s reply t =
        RunOn s input t
        × Idle cbs reply.response t
        × ((log : List Action) → t.at.arg ≡ (notice_all notice reply.lines s.at.arg log).0)
        × (t.at.command_scanner ≡ none)
        × (t.sent ≡ (line ++ (b'\r' ∷ [])) ∷ s.sent)
        × (t.timeout ≡ s.timeout)
        × (t.parser.buf_size ≡ s.parser.buf_size)

    answer-notices :
        (r : Option Bytes) (s : Posix D) (type : ResponseType) (items : List Item) (last : Bytes)
        (at : At D) (log : List Action)
        → Idle cbs r s
        → Matches cbs s.at.command_scanner notice
        → type ≢ Response.urc
        → EndsWith s type items last at
        → at.arg ≡ (notice_all notice (unsolicited_lines items) s.at.arg log).0
    answer-notices r s type items last at log i m ne e =
        let (only, _) =
          scanned-OnlyArg type items last (record (s.at) { waiting = true }) e.before at e.seen
            e.sees in
        scan-keeps_data cbs notice type last e.before at
          (subst (λ (f : Option (LineScanner D)). Matches cbs f notice)
            (sym (ap (λ (x : At D). x.command_scanner) only)) m)
          (ap (λ (x : At D). x.cbs) only ∙ i.installed) ne e.sees
        ∙ AreSeen-notices cbs notice items log (record (s.at) { waiting = true }) e.before m
            i.installed e.seen

    returned-Served :
        (line input text : Bytes) (s t : Posix D) (reply : Reply) (items : List Item) (at : At D)
        → Returns cbs line input s text at.arg t
        → reply.response ≡ some (c_string text)
        → reply.lines ≡ unsolicited_lines items
        → ((log : List Action)
            → at.arg ≡ (notice_all notice (unsolicited_lines items) s.at.arg log).0)
        → Served line input s reply t
    returned-Served line input text s t reply items at (run, idle, same, sent, time, size) answer
          lines seen =
        (
          run,
          subst (λ r. Idle cbs r t) (sym answer) idle,
          λ log.
              ap (λ (x : At D). x.arg) same
              ∙ seen log
              ∙ ap (λ l. (notice_all notice l s.at.arg log).0) (sym lines),
          ap (λ (x : At D). x.command_scanner) same,
          sent,
          time,
          size,
        )

    pub Serves-Run :
        (line : Bytes) (r : Option Bytes) (s : Posix D) (reply : Reply)
        → Idle cbs r s
        → Matches cbs s.at.command_scanner notice
        → length line < 79
        → (serves : Serves s reply) → (t : Posix D) × Served line (served serves) s reply t
    unfolding served
    Serves-Run line r s reply i m short (accepts items last at e answer lines) =
        let (t, returns) = ok-exchange cbs line r s items last at i short e in
        (
          t,
          returned-Served line (send items (wire last [])) _ s t reply items at returns answer lines
              (λ log.
                answer-notices r s Response.final_ok items last at log i m (λ k. omega (arith, k))
                  e),
        )
    Serves-Run line r s reply i m short (refuses items last at e answer lines) =
        let (t, returns) = error-exchange cbs line r s items last at i short e in
        (
          t,
          returned-Served line (send items (wire last [])) _ s t reply items at returns answer lines
              (λ log.
                answer-notices r s Response.final items last at log i m (λ k. omega (arith, k)) e),
        )
    Serves-Run line r s reply i m short (stops items part at time seen plain fits answer lines) =
        let (t, run, idle, same, sent, time', size) =
          expired-exchange cbs line r s items part at i short time seen plain fits in
        (
          t,
          (
            run,
            subst (λ r. Idle cbs r t) (sym answer) idle,
            λ log.
                ap (λ (x : At D). x.arg) same
                ∙ AreSeen-notices cbs notice items log (record (s.at) { waiting = true }) at m
                    i.installed seen
                ∙ ap (λ l. (notice_all notice l s.at.arg log).0) (sym lines),
            ap (λ (x : At D). x.command_scanner) same,
            sent,
            time',
            size,
          ),
        )
