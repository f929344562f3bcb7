-- ===== src/Parser/Calls.antt =====
-- The calls that a client of the parser makes, in any order, and input that arrives in pieces.
use attentive.Base.{◌≡◌, refl, ◌∙◌, none, some, Option, List, [], ◌∷◌, ◌++◌, arith, ◌>>=◌}
use attentive.Base.Text.{Bytes}
use attentive.Parser.{
  CharacterHandler, Callbacks, Parser, at_parser_reset, at_parser_set_character_handler,
  at_parser_expect_dataprompt, at_parser_await_response,
}
use attentive.Parser.Feed.{at_parser_feed, feed_in}
use attentive.Parser.Simulation.{feed_refines}
use attentive.Parser.Size.{feed-size}
use attentive.Parser.Valid.{IsValid, Rep-view, Rep-IsValid}

pub data Call (P : Type 0) : Type 0 where
  reset : Call P
  set_character_handler : Option (CharacterHandler P) → Call P
  expect_dataprompt : Call P
  await_response : Call P
  feed : Bytes → Call P

module _ {P : Type 0} (cbs : Callbacks P) where
  unfoldable pub run_call : Call P → Parser P → P → Option (Parser P × P)
  run_call reset p s = some (at_parser_reset p, s)
  run_call (set_character_handler h) p s = some (at_parser_set_character_handler p h, s)
  run_call expect_dataprompt p s = some (at_parser_expect_dataprompt p, s)
  run_call await_response p s = some (at_parser_await_response p, s)
  run_call (feed input) p s = at_parser_feed cbs p s input

  unfoldable pub run_calls : List (Call P) → Parser P → P → Option (Parser P × P)
  run_calls [] p s = some (p, s)
  run_calls (c ∷ calls) p s = run_call c p s >>= λ w. run_calls calls w.0 w.1

  -- The call does not fault, and leaves a valid parser with a buffer of the same size.
  abbrev pub Keeps : Parser P → Option (Parser P × P) → Type 0
  Keeps p result =
      (q : Parser P) × (s : P) × (result ≡ some (q, s)) × IsValid q × (q.buf_size ≡ p.buf_size)

  run_call-Keeps : (c : Call P) (p : Parser P) (s : P) → IsValid p → Keeps p (run_call c p s)
  unfolding run_call at_parser_reset at_parser_set_character_handler at_parser_expect_dataprompt
      at_parser_await_response
  run_call-Keeps reset p s h = (at_parser_reset p, s, refl, omega (arith, h), refl)
  run_call-Keeps (set_character_handler f) p s h =
      (at_parser_set_character_handler p f, s, refl, omega (arith, h), refl)
  run_call-Keeps expect_dataprompt p s h =
      (at_parser_expect_dataprompt p, s, refl, omega (arith, h), refl)
  run_call-Keeps await_response p s h =
      (at_parser_await_response p, s, refl, omega (arith, h), refl)
  run_call-Keeps (feed input) p s h =
      let (q, e, r) = feed_refines cbs input s (Rep-view h) in
      (q, _, e, Rep-IsValid r, feed-size cbs input p q s _ h e)

  -- From a valid parser no sequence of calls of reset, set_character_handler, expect_dataprompt,
  -- await_response and feed, with any input and any callbacks, writes outside the buffer, and
  -- every one ends in a valid parser with a buffer of the same size.
  pub run_calls-IsValid :
      (calls : List (Call P)) (p : Parser P) (s : P) → IsValid p → Keeps p (run_calls calls p s)
  unfolding run_calls
  run_calls-IsValid [] p s h = (p, s, refl, h, refl)
  run_calls-IsValid (c ∷ calls) p s h =
      let (q, s', e, h', size) = run_call-Keeps c p s h in
      let (r, s'', e', h'', size') = run_calls-IsValid calls q s' h' in
      (r, s'', rw e e', h'', size' ∙ size)

  -- Feeding two pieces of input one after the other is feeding them as one, from any parser,
  -- faults included.
  pub feed-append :
      (xs ys : Bytes) (p : Parser P) (s : P)
      → at_parser_feed cbs p s (xs ++ ys)
        ≡ (at_parser_feed cbs p s xs >>= λ w. at_parser_feed cbs w.0 w.1 ys)
  unfolding at_parser_feed
  feed-append [] ys p s = refl
  feed-append (c ∷ xs) ys p s = go (feed_in cbs p.state p c s) (λ q t. feed-append xs ys q t)
    where
      go :
          (r : Option (Parser P × P))
          → ((q : Parser P) (t : P)
              → at_parser_feed cbs q t (xs ++ ys)
                ≡ (at_parser_feed cbs q t xs >>= λ w. at_parser_feed cbs w.0 w.1 ys))
          → (r >>= λ w. at_parser_feed cbs w.0 w.1 (xs ++ ys))
            ≡ ((r >>= λ w. at_parser_feed cbs w.0 w.1 xs) >>= λ w. at_parser_feed cbs w.0 w.1 ys)
      go none ih = refl
      go (some (q, t)) ih = ih q t
