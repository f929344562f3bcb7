-- ===== src/Posix/Late.antt =====
-- What a caller sees of a response once the modem sends more.
use attentive.Base.{ℕ, ◌<◌, ◌≡◌, ◌≢◌, true, false, some, [], ◌∷◌, arith, take}
use attentive.Base.Text.{Bytes}
use attentive.CString.{c_string}
use attentive.Parser.Limits.{feed-clobbers}
use attentive.Parser.Valid.{IsReady}
use attentive.Channel.{feed_byte, parser_callbacks}
use attentive.Posix.{Posix, Reader, reader_feed, command_result}

-- A text that begins with a byte that is not NUL shows it.
c_string-first :
    (c : ℕ) (xs : Bytes) → c ≢ 0 → take 1 xs ≡ c ∷ [] → (rest : Bytes) × (c_string xs ≡ c ∷ rest)
unfolding c_string
c_string-first c [] n h = absurd cc
c_string-first c (x ∷ xs) n h = (c_string xs, let same : x ≡ c = cc in ground (arith, same))

module _ {D : Type 0} where
  -- A response has arrived on an open POSIX channel and the parser is ready, with a buffer of more
  -- than one byte. Once the reader feeds one more byte that is no NUL and no line end, the result
  -- of the command is a text that begins with that byte.
  pub reader_feed-late :
      (c : ℕ) (s : Posix D) (text : Bytes)
      → IsReady s.parser
      → 1 < s.parser.buf_size
      → c ≢ b'\r'
      → c ≢ b'\n'
      → c ≢ 0
      → s.open_ ≡ true
      → s.at.waiting ≡ false
      → s.at.response ≡ some text
      → (t : Posix D) × (rest : Bytes) × (reader_feed c s ≡ some t)
        × (command_result s ≡ some (c_string s.parser.buf))
        × (command_result t ≡ some (c ∷ rest))
  unfolding reader_feed feed_byte command_result
  reader_feed-late c s text h long cr lf nul o w r =
      let (q, fed, first) = feed-clobbers parser_callbacks c s.parser (some s.at) h long cr lf in
      let (rest, e) = c_string-first c q.buf nul first in
      (
        record s { parser = q; reader = Reader.testing },
        rest,
        ground arith,
        ground arith,
        ground arith,
      )
