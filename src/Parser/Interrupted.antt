-- ===== src/Parser/Interrupted.antt =====
-- A command that ends without a response, where the parser is not reset: the next command's response.
use attentive.Base.{
  ◌+◌, ◌<◌, ◌≡◌, ◌≢◌, refl, ap, ◌∙◌, false, some, List, [], ◌∷◌, ◌++◌, arith, length, append_assoc,
  length-append, ◌≤◌,
}
use mathlib.Core.Path.{subst}
use attentive.Base.Text.{Bytes}
use attentive.Response
use attentive.Parser.{readline, Callbacks, Parser, at_parser_await_response}
use attentive.Parser.Feed.{at_parser_feed}
use attentive.Parser.Spec
use attentive.Parser.Spec.{View}
use attentive.Parser.Refine.{Rep}
use attentive.Parser.Simulation.{feed_refines}
use attentive.Parser.Lines.{IsPlain, wire}
use attentive.Parser.Handled.{Sees, dispatch-final_ok}
use attentive.Parser.Exchange.{
  Item, send, AreSeen, stored_lines, stored_text, join_lines, feed-items, feed-line,
  drop_last-stored_text, length-stored_text, length-wire,
}
use attentive.Parser.Valid.{IsReady, empty_view, await-Rep}
use attentive.Parser.Responses.{Completes, completes}

-- The texts of two lists of items, one behind the other.
stored_text-append :
    (xs ys : List Item)
    → stored_text (stored_lines xs) ++ stored_text (stored_lines ys)
      ≡ stored_text (stored_lines xs ++ stored_lines ys)
stored_text-append [] ys = refl
stored_text-append (Item.stored line ∷ xs) ys =
    append_assoc line (b'\n' ∷ stored_text (stored_lines xs)) (stored_text (stored_lines ys))
    ∙ ap (λ x. line ++ (b'\n' ∷ x)) (stored_text-append xs ys)
stored_text-append (Item.unsolicited line ∷ xs) ys = stored_text-append xs ys

module _ {P : Type 0} where
  -- To await a response again changes nothing.
  await_again-Rep :
      {q : Parser P} {v : View P}
      → v.state ≡ readline
      → v.expect_dataprompt ≡ false
      → Rep q v
      → Rep (at_parser_await_response q) v
  unfolding at_parser_await_response
  await_again-Rep {q} {v} e f r = ground (arith, r)

  module _ (cbs : Callbacks P) where
    -- A command gets lines and URCs and no final line, and the next command is awaited without a
    -- reset of the parser: if that gets its lines and an OK line, the response handler is given
    -- the lines of both commands. The parser was ready at first, all lines are plain, not empty
    -- and scanned as intermediate, URC and OK lines, and the buffer is longer than both exchanges.
    pub feed-interrupted :
        (before items : List Item) (line : Bytes) (p : Parser P) (s s' t u : P)
        → IsReady p
        → AreSeen cbs before s s'
        → AreSeen cbs items s' t
        → IsPlain line
        → line ≢ []
        → Sees cbs Response.final_ok line t u
        → length (send before []) + length (send items (wire line [])) < p.buf_size
        → (q : Parser P) × (at_parser_feed cbs (at_parser_await_response p) s (send before [])
            ≡ some (q, s'))
          × Completes cbs
              (at_parser_await_response q)
              s'
              (send items (wire line []))
              (cbs.handle_response (join_lines (stored_lines before ++ stored_lines items)) u)
    unfolding Spec.feed
    feed-interrupted before items line p s s' t u h seen seen' plain ne sees room =
        let (q, fed, rep) = feed_refines cbs (send before []) s (await-Rep h) in
        (
          q,
          fed ∙ ap (λ x. some (q, x.1)) first,
          completes cbs (at_parser_await_response q) w x _ _ _
              (await_again-Rep refl refl (subst (λ y. Rep q y.0) first rep)) second,
        )
      where
        v : View P
        v = empty_view readline false p

        w : View P
        w = record v { kept = stored_text (stored_lines before); line = [] }

        x : View P
        x = record v {
          kept = stored_text (stored_lines before) ++ stored_text (stored_lines items);
          line = [];
        }

        short : length (stored_text (stored_lines before)) ≤ length (send before [])
        short = omega (arith, length-stored_text before [])

        first : Spec.feed cbs v s (send before []) ≡ (w, s')
        first =
            feed-items cbs before [] v s s' (record { state = refl; handler = refl; line = refl })
              seen
              (omega (arith, room, length-stored_text items (wire line []), length-wire line []))

        second : Spec.feed cbs w s' (send items (wire line [])) ≡ (
          Spec.reset x,
          cbs.handle_response (join_lines (stored_lines before ++ stored_lines items)) u,
        )
        second =
            feed-items cbs items (wire line []) w s' t
              (record { state = refl; handler = refl; line = refl }) seen'
              (omega (arith, room, short))
            ∙ feed-line cbs Response.final_ok x t u line []
                (record { state = refl; handler = refl; line = refl }) plain ne sees
                (omega (
                  arith,
                  room,
                  short,
                  length-stored_text items (wire line []),
                  length-wire line [],
                  length-append (stored_text (stored_lines before))
                      (stored_text (stored_lines items)),
                ))
            ∙ ap (λ w. Spec.feed cbs w.0 w.1 []) (dispatch-final_ok cbs x u line refl)
            ∙ ap (λ y. (Spec.reset x, cbs.handle_response (Spec.drop_last y) u))
                (stored_text-append before items)
            ∙ ap (λ y. (Spec.reset x, cbs.handle_response y u))
                (drop_last-stored_text (stored_lines before ++ stored_lines items))
