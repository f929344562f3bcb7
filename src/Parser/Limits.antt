-- ===== src/Parser/Limits.antt =====
-- Where the parser does less than a caller may expect: a full buffer, an empty block, and a response
-- whose text stands in the buffer that the next bytes overwrite.
use attentive.Base.{
  ℕ, ◌+◌, ◌<◌, ◌≡◌, ◌≢◌, refl, none, some, [], ◌∷◌, arith, take, set, take-set_zero, ◌⊎◌,
}
use attentive.Base.Text.{Bytes}
use attentive.Parser.{
  State, idle, readline, rawdata, Callbacks, Parser, parser_append, store, at_prompt, feed_rawdata,
}
use attentive.Parser.Feed.{at_parser_feed, feed_in, feed_text, parser_handle_line}
use attentive.Parser.Valid.{IsValid, IsReady}

module _ {P : Type 0} (cbs : Callbacks P) where
  -- Kept lines fill the buffer up to the terminator.
  pub record IsFull (p : Parser P) : Type 0 where
    pub valid : IsValid p
    pub state : (p.state ≡ idle) ⊎ (p.state ≡ readline)
    pub no_handler : p.character_handler ≡ none
    pub no_line : p.buf_current ≡ p.buf_used
    pub full : p.buf_used + 1 ≡ p.buf_size

  feed_text-full : (p : Parser P) (c : ℕ) (s : P) → IsFull p → feed_text cbs p c s ≡ some (p, s)
  unfolding feed_text parser_append store at_prompt parser_handle_line
  feed_text-full p c s h = ground (arith, h, h.valid)

  feed_in-full :
      (t : State) (p : Parser P) (c : ℕ) (s : P)
      → p.state ≡ t
      → IsFull p
      → feed_in cbs t p c s ≡ some (p, s)
  unfolding feed_in
  feed_in-full idle p c s e h = feed_text-full p c s h
  feed_in-full readline p c s e h = feed_text-full p c s h
  feed_in-full _ p c s e h = ground (arith, h)

  -- A valid parser that is idle or reads lines, has no character handler and no unfinished line,
  -- and whose kept lines fill its buffer up to the terminator, ignores all further input: it stays
  -- as it is, and no callback is called.
  pub feed-IsFull :
      (input : Bytes) (p : Parser P) (s : P) → IsFull p → at_parser_feed cbs p s input ≡ some (p, s)
  unfolding at_parser_feed
  feed-IsFull [] p s h = refl
  feed-IsFull (c ∷ rest) p s h = rw (feed_in-full p.state p c s refl h) (feed-IsFull rest p s h)

  -- On a ready parser with a buffer of more than one byte, the next byte that is not a line end is
  -- stored at the front of the buffer, where the text of the last response stood.
  pub feed-clobbers :
      (c : ℕ) (p : Parser P) (s : P)
      → IsReady p
      → 1 < p.buf_size
      → c ≢ b'\r'
      → c ≢ b'\n'
      → (q : Parser P) × (at_parser_feed cbs p s (c ∷ []) ≡ some (q, s)) × (take 1 q.buf ≡ c ∷ [])
  unfolding at_parser_feed feed_in feed_text parser_append store at_prompt
  feed-clobbers c p s h room cr lf = (
    record p { buf = set p.buf 0 c; buf_used = 1 },
    ground (arith, h, h.valid),
    take-set_zero p.buf c (omega (arith, h, h.valid)),
  )

  -- In a block of size zero one byte more is read, and lost.
  pub feed-empty_block :
      (c d : ℕ) (rest : Bytes) (p : Parser P) (s : P)
      → p.state ≡ rawdata
      → p.data_left ≡ 0
      → at_parser_feed cbs p s (c ∷ rest) ≡ at_parser_feed cbs p s (d ∷ rest)
  unfolding at_parser_feed feed_in feed_rawdata
  feed-empty_block c d rest p s st e = rw (st, e)
