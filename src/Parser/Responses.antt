-- ===== src/Parser/Responses.antt =====
-- What a caller gets for a command: one call of the response handler, with the right text, and a
-- parser that is ready for the next command.
use attentive.Base.{
  ◌+◌, ◌<◌, ◌≡◌, ◌≢◌, refl, ap, ◌∙◌, false, some, List, [], ◌∷◌, ◌++◌, arith, length,
}
use mathlib.Core.Path.{subst}
use attentive.Base.Text.{Bytes}
use attentive.Response
use attentive.Response.{ResponseType}
use attentive.Parser.{readline, Callbacks, Parser, at_parser_await_response}
use attentive.Parser.Feed.{at_parser_feed}
use attentive.Parser.Spec
use attentive.Parser.Spec.{View}
use attentive.Parser.Refine.{Rep}
use attentive.Parser.Simulation.{feed_refines}
use attentive.Parser.Lines.{IsPlain, wire}
use attentive.Parser.Handled.{Sees, dispatch-final_ok, dispatch-final}
use attentive.Parser.Exchange.{
  Item, send, AreSeen, stored_lines, stored_text, join_lines, feed-exchange, drop_last-stored_text,
  stored_text-snoc, length-stored_text, length-wire,
}
use attentive.Parser.Valid.{IsReady, empty_view, await-Rep, reset-IsReady}

module _ {P : Type 0} (cbs : Callbacks P) where
  -- The parser that a command has completed: the handler has had the text, and all is reset.
  abbrev pub Completes : Parser P → P → Bytes → P → Type 0
  Completes p s input s' =
      (q : Parser P) × (at_parser_feed cbs p s input ≡ some (q, s')) × IsReady q

  pub completes :
      (p : Parser P) (u v : View P) (s s' : P) (input : Bytes)
      → Rep p u
      → Spec.feed cbs u s input ≡ (Spec.reset v, s')
      → Completes p s input s'
  completes p u v s s' input r e =
      let (q, fed, f) = feed_refines cbs input s r in
      (q, fed ∙ ap (λ w. some (q, w.1)) e, reset-IsReady v (subst (λ w. Rep q w.0) e f))

  -- Lines that the callbacks and the generic scanner take for intermediate or URC lines, then an
  -- OK line, all plain and not empty, on a ready parser that awaits a response and whose buffer is
  -- longer than the exchange: the response handler is called once, last, with the intermediate
  -- lines joined by newlines and without the OK line; the URC lines went to the URC handler in
  -- order, each with the private state that scanning it left; the parser is ready again.
  pub feed-ok_response :
      (items : List Item) (line : Bytes) (p : Parser P) (s t u : P)
      → IsReady p
      → AreSeen cbs items s t
      → IsPlain line
      → line ≢ []
      → Sees cbs Response.final_ok line t u
      → length (send items (wire line [])) < p.buf_size
      → Completes
          (at_parser_await_response p)
          s
          (send items (wire line []))
          (cbs.handle_response (join_lines (stored_lines items)) u)
  unfolding Spec.feed
  feed-ok_response items line p s t u h seen plain ne sees room =
      completes (at_parser_await_response p) (empty_view readline false p) v s _ _ (await-Rep h) (
        feed-exchange cbs Response.final_ok items line p s t u h seen plain ne sees room
        ∙ ap (λ w. Spec.feed cbs w.0 w.1 []) (dispatch-final_ok cbs v u line refl)
        ∙ ap (λ x. (Spec.reset v, cbs.handle_response x u))
            (drop_last-stored_text (stored_lines items)))
    where
      v : View P
      v = record (empty_view readline false p) { kept = stored_text (stored_lines items) }

  -- Lines that the callbacks and the generic scanner take for intermediate or URC lines, then a
  -- line of the final type, all plain and not empty, on a ready parser that awaits a response and
  -- whose buffer is longer than the exchange: the response handler is called once, last, with the
  -- intermediate lines and the final line joined by newlines; the URC lines went to the URC
  -- handler in order, each with the private state that scanning it left; the parser is ready
  -- again.
  pub feed-final_response :
      (items : List Item) (line : Bytes) (p : Parser P) (s t u : P)
      → IsReady p
      → AreSeen cbs items s t
      → IsPlain line
      → line ≢ []
      → Sees cbs Response.final line t u
      → length (send items (wire line [])) < p.buf_size
      → Completes
          (at_parser_await_response p)
          s
          (send items (wire line []))
          (cbs.handle_response (join_lines (stored_lines items ++ (line ∷ []))) u)
  unfolding Spec.feed
  feed-final_response items line p s t u h seen plain ne sees room =
      completes (at_parser_await_response p) (empty_view readline false p) v s _ _ (await-Rep h) (
        feed-exchange cbs Response.final items line p s t u h seen plain ne sees room
        ∙ ap (λ w. Spec.feed cbs w.0 w.1 []) (dispatch-final cbs v u line refl fits)
        ∙ ap (λ x. (Spec.reset v, cbs.handle_response (Spec.drop_last x) u))
            (stored_text-snoc (stored_lines items) line)
        ∙ ap (λ x. (Spec.reset v, cbs.handle_response x u))
            (drop_last-stored_text (stored_lines items ++ (line ∷ []))))
    where
      v : View P
      v = record (empty_view readline false p) { kept = stored_text (stored_lines items) }

      fits : length v.kept + length line + 1 < v.size
      fits = omega (arith, room, length-stored_text items (wire line []), length-wire line [])
