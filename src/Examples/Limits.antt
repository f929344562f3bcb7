-- ===== src/Examples/Limits.antt =====
-- The parser at the edges of its buffer.
use attentive.Base.{◌≡◌, refl, some, inr, List, [], ◌∷◌, arith}
use attentive.Base.Text.{codes}
use attentive.Parser.{Parser, readline}
use attentive.Parser.Feed.{at_parser_feed}
use attentive.Parser.Limits.{IsFull, feed-IsFull}
use attentive.Examples.{Event, callbacks, raw}

-- Three bytes and the newline behind them, in a buffer of five.
abbrev full : Parser (List Event)
full = record raw {
  state = readline;
  buf = b'A' ∷ b'B' ∷ b'C' ∷ 10 ∷ 0 ∷ [];
  buf_used = 4;
  buf_size = 5;
  buf_current = 4;
}

full-IsFull : IsFull callbacks full
full-IsFull = record {
  valid = omega arith;
  state = inr refl;
  no_handler = refl;
  no_line = refl;
  full = refl;
}

feed-IsFull_example : at_parser_feed callbacks full [] (codes "\r\nOK\r\n") ≡ some (full, [])
feed-IsFull_example = feed-IsFull callbacks (codes "\r\nOK\r\n") full [] full-IsFull
