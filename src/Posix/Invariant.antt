-- ===== src/Posix/Invariant.antt =====
-- What holds of a channel whenever no thread holds the mutex.
use attentive.Base.{
  ℕ, ◌≡◌, refl, ap, true, false, Option, none, some, [], ◌∷◌, arith, length, ◌>>=◌,
}
use attentive.Base.Text.{Bytes}
use attentive.Parser.{Parser}
use attentive.Parser.Valid.{IsValid, alloc-IsReady}
use attentive.Channel.{At, AtCallbacks, feed_byte}
use attentive.Channel.Driver.{feed-HasCallbacks}
use attentive.Posix.{Posix, Reader, reader_feed, at_alloc_unix, new_channel}
use attentive.Posix.Step.{Move, Reach, step, spurious, here, next}
use attentive.Posix.Agrees.{Agrees, Step-Agrees, Wakes-Agrees}
use attentive.Posix.Parsing.{Step-ParserSound, same_parser, Wakes-parser}

module _ {D : Type 0} where
  -- The flags agree with the threads, and the parser is valid and has no character handler.
  pub record IsSound (s : Posix D) : Type 0 where
    pub agrees : Agrees s
    pub valid : IsValid s.parser
    pub plain : s.parser.character_handler ≡ none

  Move-IsSound : {s t : Posix D} → Move s t → IsSound s → IsSound t
  Move-IsSound (step m) h =
      let (v, n) = Step-ParserSound m (h.valid, h.plain) in
      record { agrees = Step-Agrees m h.agrees; valid = v; plain = n }
  Move-IsSound {s} {t} (spurious w) h =
      let (v, n) = same_parser s t (Wakes-parser w) (h.valid, h.plain) in
      record { agrees = Wakes-Agrees w h.agrees; valid = v; plain = n }

  -- In every order of the threads, with spurious wake-ups: a sound channel stays sound.
  pub Reach-IsSound : {s t : Posix D} → Reach s t → IsSound s → IsSound t
  Reach-IsSound here h = h
  Reach-IsSound (next r m) h = Move-IsSound m (Reach-IsSound r h)

  -- A new channel is sound.
  pub alloc-IsSound :
      (arg : D) (raw : Parser (Option (At D))) (mem : Bytes)
      → length mem ≡ 256
      → (s : Posix D) × (at_alloc_unix arg (some raw) (some mem) ≡ some s)
        × IsSound s
        × (s.open_ ≡ false)
  unfolding at_alloc_unix
  alloc-IsSound arg raw mem e =
      let (p, f, ready, size) = alloc-IsReady raw mem 256 e (omega arith) (omega arith) in
      (
        new_channel arg p,
        ap (λ r. r >>= λ p. some (new_channel arg p)) f,
        record {
          agrees = record {
            busy = refl;
            open_fd = λ k. cc;
            busy_fd = λ k. cc;
            closing = λ k. cc;
            closing_fd = λ k. cc;
            closed = λ k l. refl;
            freeing = λ k. cc;
            stopped = λ k. cc;
          };
          valid = ready.valid;
          plain = ready.no_handler;
        },
        refl,
      )

  -- In every order of the threads of a POSIX channel, from a sound one, the descriptor is valid
  -- and marked as in use while the reader reads from it: at_close does not close it meanwhile.
  pub Reach-reading_fd :
      (s t : Posix D)
      → IsSound s
      → Reach s t
      → t.reader ≡ Reader.reading
      → (t.fd ≡ true) × (t.busy ≡ true)
  Reach-reading_fd s t h r e = let a = (Reach-IsSound r h).agrees in ground arith

  -- In every order of the threads of a POSIX channel, from a sound one: where the callbacks of a
  -- driver are installed, the next byte from the modem is fed without a fault, whatever it is, and
  -- leaves a valid parser with the callbacks still installed.
  pub Reach-reader_feed :
      (s t : Posix D) (c : ℕ) (cbs : AtCallbacks D)
      → IsSound s
      → Reach s t
      → t.at.cbs ≡ some cbs
      → (u : Posix D) × (reader_feed c t ≡ some u) × IsValid u.parser × (u.at.cbs ≡ some cbs)
  unfolding reader_feed feed_byte
  Reach-reader_feed s t c cbs h r installed =
      let k = Reach-IsSound r h in
      let (q, at, e, v, n, i) =
        feed-HasCallbacks cbs (c ∷ []) t.parser t.at k.valid k.plain installed in
      (record t { parser = q; at = at; reader = Reader.testing }, ground arith, v, i)
