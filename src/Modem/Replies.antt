-- ===== src/Modem/Replies.antt =====
-- What a command does when the modem has a reply, and when it is silent.
use attentive.Base.{◌≡◌, ap, ◌∙◌, none, List, [], ◌∷◌, ◌++◌, false, leb, length, if◌then◌else◌}
use attentive.Base.Text.{Bytes}
use attentive.Modem.{
  World, Reply, Action, command, done, Notice, at_command, exchange, next_reply, notice_all, pure,
}

module _ {D : Type 0} (notice : Notice D) where
  -- The world once the modem has answered the action.
  abbrev pub after_reply : Action → Reply → List Reply → World D → World D
  after_reply a reply script w = record w {
    script = script;
    dev = (notice_all notice reply.lines w.dev (a ∷ w.log)).0;
    log = (notice_all notice reply.lines w.dev (a ∷ w.log)).1;
    command_scanner = none;
  }

  pub at_command-reply :
      (line : Bytes) (reply : Reply) (script : List Reply) (w : World D)
      → leb 79 (length line) ≡ false
      → w.script ≡ reply ∷ script
      → at_command notice line w
        ≡ (done reply.response, after_reply (command (line ++ (b'\r' ∷ []))) reply script w)
  unfolding at_command exchange next_reply
  at_command-reply line reply script w short e =
      ap (λ b. (if b then pure none else exchange notice (command (line ++ (b'\r' ∷ [])))) w) short
      ∙ ap
          (λ l.
            let (r, v) =
              next_reply notice l (record w { log = command (line ++ (b'\r' ∷ [])) ∷ w.log }) in
            (r, record v { command_scanner = none }))
          e
