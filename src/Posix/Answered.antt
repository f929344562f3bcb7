-- ===== src/Posix/Answered.antt =====
-- The answer to a command, in every order of the threads.
use attentive.Base.{ℕ, inl, inr, ◌≡◌, refl, true, false, Option, some, arith}
use attentive.CString.{c_string}
use attentive.Base.Text.{Bytes}
use attentive.Parser.{Parser}
use attentive.Channel.{At}
use attentive.Posix.{
  Posix, Client, Reader, reader_feed, command_test, command_end, command_result, new_channel,
}
use attentive.Channel.Answers.{Answers, response_text-some, feed_byte-some, feed_byte-Answers}
use attentive.Posix.Parsing.{reader_feed-some}
use attentive.Channel.Shown.{Shown}
use attentive.Channel.Fed.{feed-Shown}
use attentive.Posix.Step.{Reach, step, spurious, here, next}
use attentive.Posix.Invariant.{IsSound, Reach-IsSound}
use attentive.Posix.Waits.{Waits, Step-Waits, Wakes-Waits}

module _ {D : Type 0} where
  pub alloc-Waits : (arg : D) (p : Parser (Option (At D))) → Waits (new_channel arg p)
  alloc-Waits arg p = record {
    quiet = refl;
    client = λ e. cc;
    alone = λ f c e. cc;
    answered = λ e. cc;
  }

  Reach-Waits : {s t : Posix D} → Reach s t → IsSound s → Waits s → Waits t
  Reach-Waits here h w = w
  Reach-Waits (next r (step m)) h w =
      let k = Reach-IsSound r h in Step-Waits m k.agrees (k.valid, k.plain) (Reach-Waits r h w)
  Reach-Waits (next r (spurious m)) h w = Wakes-Waits m (Reach-Waits r h w)

  -- In every order of the threads of a POSIX channel, with spurious wake-ups, from a sound one
  -- whose waits are in order: a command that is parked in its wait has not been answered, so no
  -- response is lost between the reader and the command.
  pub Reach-unanswered :
      (s t : Posix D)
      → IsSound s
      → Waits s
      → Reach s t
      → t.client ≡ Client.parked
      → t.at.waiting ≡ true
  Reach-unanswered s t h w r e = (Reach-Waits r h w).client e

  -- In every order of the threads of a POSIX channel, from a sound one whose waits are in order: a
  -- command that wakes up on an open channel and has been answered returns the text in the buffer
  -- of the parser, and not NULL.
  Reach-answered :
      (s t : Posix D)
      → IsSound s
      → Waits s
      → Reach s t
      → t.client ≡ Client.awake
      → t.open_ ≡ true
      → t.at.waiting ≡ false
      → (command_test t).client ≡ Client.outside (some (c_string t.parser.buf))
  unfolding command_test command_end command_result
  Reach-answered s t h w r e o a =
      let x =
        response_text-some t.at.response t.parser ((Reach-Waits r h w).answered (ground arith) a) in
      ground (arith, x)

  -- In every order of the threads of a POSIX channel, from a sound one whose waits are in order:
  -- when a byte from the modem ends the wait of a command on an open channel, the response handler
  -- was given some text, and the command, if it reads its result then, returns that text up to its
  -- first NUL.
  pub Reach-answer_text :
      (s t u : Posix D) (c : ℕ)
      → IsSound s
      → Waits s
      → Reach s t
      → t.at.waiting ≡ true
      → reader_feed c t ≡ some u
      → u.at.waiting ≡ false
      → u.open_ ≡ true
      → (text : Bytes) × (u.at.response ≡ some text) × (command_result u ≡ some (c_string text))
  unfolding command_result
  Reach-answer_text s t u c h w r waits e answered o =
      let (q, at, fed, same) = reader_feed-some c t u e in
      let k = Reach-IsSound r h in
      let (answers, _, _) = feed_byte-Answers c t.parser q t.at at fed k.valid k.plain in
      go same answers (
        feed-Shown c t.parser q (some t.at) (some at) k.plain waits
          (feed_byte-some c t.parser q t.at at fed))
    where
      go :
          {q : Parser (Option (At D))} {at : At D}
          → u ≡ record t { parser = q; at = at; reader = Reader.testing }
          → Answers t.at (some at)
          → Shown (q, some at)
          → (text : Bytes) × (u.at.response ≡ some text) × (command_result u ≡ some (c_string text))
      go same (inl (k, l, g)) shown = absurd (ground arith)
      go same (inr (k, l, g)) (inl z) = absurd (ground arith)
      go {q} {at} same (inr (k, l, g)) (inr (text, z, y)) = (text, ground arith, ground arith)
