-- ===== src/Parser/Unfinished.antt =====
-- A command's exchange up to the newline of its final line.
use attentive.Base.{
  ◌+◌, ◌<◌, ◌≡◌, refl, sym, ap, ◌∙◌, false, some, List, [], ◌∷◌, ◌++◌, arith, length, append_assoc,
  append-nil, length-append, inr,
}
use attentive.Base.Text.{Bytes}
use attentive.Parser.{readline, Callbacks, Parser, at_parser_await_response}
use attentive.Parser.Feed.{at_parser_feed}
use attentive.Parser.Spec
use attentive.Parser.Spec.{View}
use attentive.Parser.Simulation.{feed_refines}
use attentive.Parser.Lines.{IsPlain, wire, feed-chars, feed-return}
use attentive.Parser.Exchange.{
  Item, send, bytes_of, AreSeen, stored_lines, stored_text, feed-items, length-stored_text,
}
use attentive.Parser.Valid.{IsReady, empty_view, await-Rep}

-- What stands in front of the newline of the final line.
pub send-newline :
    (items : List Item) (line : Bytes)
    → send items (wire line []) ≡ send items (line ++ (b'\r' ∷ [])) ++ (b'\n' ∷ [])
send-newline [] line = sym (append_assoc line (b'\r' ∷ []) (b'\n' ∷ []))
send-newline (i ∷ items) line =
    ap (wire (bytes_of i)) (send-newline items line)
    ∙ sym
        (append_assoc (bytes_of i) (b'\r' ∷ b'\n' ∷ send items (line ++ (b'\r' ∷ []))) (b'\n' ∷ []))

module _ {P : Type 0} (cbs : Callbacks P) where
  -- The parser after items and a part of a line.
  within : List Item → Bytes → Parser P → View P
  within items line p = record (empty_view readline false p) {
    kept = stored_text (stored_lines items);
    line = line;
  }

  feed-within :
      (items : List Item) (line rest : Bytes) (p : Parser P) (s t : P)
      → AreSeen cbs items s t
      → IsPlain line
      → length (send items (line ++ rest)) < p.buf_size
      → Spec.feed cbs (empty_view readline false p) s (send items (line ++ rest))
        ≡ Spec.feed cbs (within items line p) t rest
  unfolding within
  feed-within items line rest p s t seen plain room =
      feed-items cbs items (line ++ rest) (empty_view readline false p) s t
        (record { state = refl; handler = refl; line = refl }) seen (omega (arith, room))
      ∙ feed-chars cbs line rest (within items [] p) t (record { reads = inr refl; plain = refl })
          plain
          (omega (arith, room, length-stored_text items (line ++ rest), length-append line rest))

  -- The response handler has not been called.
  pub feed-partial :
      (items : List Item) (line : Bytes) (p : Parser P) (s t : P)
      → IsReady p
      → AreSeen cbs items s t
      → IsPlain line
      → length (send items line) < p.buf_size
      → (q : Parser P) × (at_parser_feed cbs (at_parser_await_response p) s (send items line)
          ≡ some (q, t))
  unfolding Spec.feed
  feed-partial items line p s t h seen plain room =
      let (q, fed, rep) = feed_refines cbs (send items line) s (await-Rep h) in
      let whole = append-nil line in
      (
        q,
        fed
            ∙ ap (λ x. some (q, (Spec.feed cbs (empty_view readline false p) s (send items x)).1))
                (sym whole)
            ∙ ap (λ w. some (q, w.1))
                (feed-within items line [] p s t seen plain
                  (omega (arith, ap (λ x. length (send items x)) whole, room))),
      )

  pub feed-unfinished :
      (items : List Item) (line : Bytes) (p : Parser P) (s t : P)
      → IsReady p
      → AreSeen cbs items s t
      → IsPlain line
      → length (send items (wire line [])) < p.buf_size
      → (q : Parser P) × (at_parser_feed cbs
            (at_parser_await_response p)
            s
            (send items (line ++ (b'\r' ∷ [])))
          ≡ some (q, t))
  unfolding Spec.feed within
  feed-unfinished items line p s t h seen plain room =
      let (q, fed, rep) = feed_refines cbs (send items (line ++ (b'\r' ∷ []))) s (await-Rep h) in
      let long : length (send items (line ++ (b'\r' ∷ []))) + 1
          ≡ length (send items (wire line [])) =
        omega (
          arith,
          ap length (send-newline items line),
          length-append (send items (line ++ (b'\r' ∷ []))) (b'\n' ∷ []),
        ) in
      (
        q,
        fed
            ∙ ap (λ w. some (q, w.1))
                (feed-within items line (b'\r' ∷ []) p s t seen plain (omega (arith, long, room))
                  ∙ feed-return cbs (within items line p) t []
                      (record { reads = inr refl; plain = refl })),
      )
