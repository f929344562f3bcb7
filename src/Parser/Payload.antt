-- ===== src/Parser/Payload.antt =====
-- A response whose header line announces a block of data: header, block, OK.
use attentive.Base.{
  ℕ, ◌+◌, ◌^◌, ◌<◌, ◌≡◌, ◌≢◌, refl, sym, ap, ◌∙◌, false, none, [], ◌∷◌, ◌++◌, arith, length,
  length-append, append_assoc, inr, ◌>>=◌,
}
use attentive.Base.Text.{Bytes}
use attentive.Response
use attentive.Parser.{readline, rawdata, hexdata, Callbacks, Parser, at_parser_await_response}
use attentive.Parser.Feed.{at_parser_feed}
use attentive.Parser.Simulation.{feed_refines}
use attentive.Parser.Calls.{feed-append}
use attentive.Parser.Limits.{feed-empty_block}
use attentive.Parser.Spec
use attentive.Parser.Spec.{View}
use attentive.Parser.Lines.{IsPlain, wire, feed-wire}
use attentive.Parser.Handled.{
  Sees, keep_line, dispatch-final_ok, dispatch-rawdata, dispatch-hexdata,
}
use attentive.Parser.Exchange.{feed-line, drop_last-concat}
use attentive.Parser.Blocks.{keep_block, Decodes, feed_rawdata-block, feed_hexdata-block}
use attentive.Parser.Responses.{Completes, completes}
use attentive.Parser.Valid.{IsReady, empty_view, await-Rep}

-- The text of the response.
abbrev pub payload : Bytes → Bytes → Bytes
payload header block = header ++ (b'\n' ∷ block)

module _ {P : Type 0} (cbs : Callbacks P) where
  -- A block was kept behind the header; an empty line and the OK line complete the response.
  feed-end :
      (header block ok : Bytes) (v : View P) (s t : P)
      → v.state ≡ readline
      → v.character_handler ≡ none
      → v.kept ≡ []
      → v.line ≡ []
      → IsPlain ok
      → ok ≢ []
      → Sees cbs Response.final_ok ok s t
      → length header + length block + length ok + 2 < v.size
      → Spec.feed cbs (keep_block (keep_line v header) block) s (wire [] (wire ok []))
        ≡ (Spec.reset v, cbs.handle_response (payload header block) t)
  unfolding Spec.feed Spec.reset Spec.handle_text
  feed-end header block ok v s t st hd k l plain ne sees room =
      feed-wire cbs [] (wire ok []) w s (record { reads = inr refl; plain = hd }) refl tt fits0
      ∙ feed-line cbs Response.final_ok w s t ok []
          (record { state = refl; handler = hd; line = refl }) plain ne sees fits
      ∙ ap (λ u. Spec.feed cbs u.0 u.1 []) (dispatch-final_ok cbs w t ok refl)
      ∙ ap (λ x. (Spec.reset v, cbs.handle_response (Spec.drop_last x) t)) text
      ∙ ap (λ x. (Spec.reset v, cbs.handle_response x t))
          (drop_last-concat (payload header block) b'\n')
    where
      w : View P
      w = keep_block (keep_line v header) block

      text : w.kept ≡ payload header block ++ (b'\n' ∷ [])
      text =
          ap (λ x. (x ++ (header ++ (b'\n' ∷ []))) ++ (block ++ (b'\n' ∷ []))) k
          ∙ append_assoc header (b'\n' ∷ []) (block ++ (b'\n' ∷ []))
          ∙ sym (append_assoc header (b'\n' ∷ block) (b'\n' ∷ []))

      long : length w.kept ≡ length header + length block + 2
      long =
          ap length text
          ∙ omega (
            arith,
            length-append (payload header block) (b'\n' ∷ []),
            length-append header (b'\n' ∷ block),
          )

      fits0 : length w.kept + length {A = ℕ} [] < w.size
      fits0 = omega (arith, long, room)

      fits : length w.kept + length ok < w.size
      fits = omega (arith, long, room)

  module _ (header ok : Bytes) (n : ℕ) (p : Parser P) (s t u : P) (h : IsReady p)
      (small : n < 2 ^ 23) (head_plain : IsPlain header) (head_ne : header ≢ [])
      (ok_plain : IsPlain ok) (ok_ne : ok ≢ []) (ok_sees : Sees cbs Response.final_ok ok t u)
      (room : length header + n + length ok + 4 < p.buf_size) where
    -- A header line that announces a raw block of n bytes, n positive, then exactly n bytes, an
    -- empty line and an OK line: the response is the header, a newline and the n bytes, whatever
    -- bytes they are, and the parser is ready again. It was ready before and awaits a response,
    -- its buffer has room for all of it, n is below 2 ^ 23, and both lines are plain and not
    -- empty; the private state goes from scanning the header to scanning the OK line and then to
    -- the handler.
    pub feed-rawdata_response :
        (c : ℕ) (block : Bytes)
        → length (c ∷ block) ≡ n
        → Sees cbs (Response.rawdata_follows n) header s t
        → Completes cbs
            (at_parser_await_response p)
            s
            (wire header ((c ∷ block) ++ wire [] (wire ok [])))
            (cbs.handle_response (payload header (c ∷ block)) u)
    feed-rawdata_response c block e sees =
        completes cbs (at_parser_await_response p) (empty_view readline false p)
          (empty_view readline false p) s _ _ (await-Rep h)
          (feed-line cbs (Response.rawdata_follows n) (empty_view readline false p) s t header
              ((c ∷ block) ++ wire [] (wire ok []))
              (record { state = refl; handler = refl; line = refl }) head_plain head_ne sees
              (omega (arith, room))
            ∙ ap (λ u. Spec.feed cbs u.0 u.1 ((c ∷ block) ++ wire [] (wire ok [])))
                (dispatch-rawdata cbs (empty_view readline false p) t header refl n small
                  (omega (arith, room)))
            ∙ feed_rawdata-block cbs c block (wire [] (wire ok []))
                (record (keep_line (empty_view readline false p) header) {
                  data_left = n;
                  state = rawdata;
                })
                t refl (sym e) (omega (arith, room, e, length-append header (b'\n' ∷ [])))
                h.valid.small
            ∙ feed-end header (c ∷ block) ok (empty_view readline false p) t u refl refl refl refl
                ok_plain ok_ne ok_sees (omega (arith, room, e)))

    -- A header line that announces a hexadecimal block of n bytes, then digits that decode to n
    -- bytes, with anything that is no digit between them, an empty line and an OK line: the
    -- response is the header, a newline and the decoded bytes, and the parser is ready again. It
    -- was ready before and awaits a response, its buffer has room for all of it, n is below 2 ^
    -- 23, and both lines are plain and not empty; the private state goes from scanning the header
    -- to scanning the OK line and then to the handler.
    pub feed-hexdata_response :
        {input block : Bytes}
        → Decodes none input block
        → length block ≡ n
        → Sees cbs (Response.hexdata_follows n) header s t
        → Completes cbs
            (at_parser_await_response p)
            s
            (wire header (input ++ wire [] (wire ok [])))
            (cbs.handle_response (payload header block) u)
    feed-hexdata_response {input} {block} d e sees =
        completes cbs (at_parser_await_response p) (empty_view readline false p) v s _ _
          (await-Rep h)
          (feed-line cbs (Response.hexdata_follows n) (empty_view readline false p) s t header
              (input ++ wire [] (wire ok [])) (record { state = refl; handler = refl; line = refl })
              head_plain head_ne sees (omega (arith, room))
            ∙ ap (λ u. Spec.feed cbs u.0 u.1 (input ++ wire [] (wire ok [])))
                (dispatch-hexdata cbs (empty_view readline false p) t header refl n small
                  (omega (arith, room)))
            ∙ feed_hexdata-block cbs d (wire [] (wire ok []))
                (record (keep_line v header) { data_left = n; state = hexdata }) t refl refl (sym e)
                (omega (arith, room, e, length-append header (b'\n' ∷ []))) h.valid.small
            ∙ feed-end header block ok v t u refl refl refl refl ok_plain ok_ne ok_sees
                (omega (arith, room, e)))
      where
        v : View P
        v = record (empty_view readline false p) { nibble = none }

  -- On a ready parser that awaits a response, with a buffer that is longer than the header line by
  -- three bytes or more: behind a plain header line that is not empty and is seen as one that
  -- announces a raw block of zero bytes, the next byte does not matter. Inputs that differ in it
  -- alone have the same result.
  pub feed-zero_block :
      (header : Bytes) (p : Parser P) (s t : P) (c d : ℕ) (rest : Bytes)
      → IsReady p
      → IsPlain header
      → header ≢ []
      → length header + 2 < p.buf_size
      → Sees cbs (Response.rawdata_follows 0) header s t
      → at_parser_feed cbs (at_parser_await_response p) s (wire header (c ∷ rest))
        ≡ at_parser_feed cbs (at_parser_await_response p) s (wire header (d ∷ rest))
  unfolding Spec.feed
  feed-zero_block header p s t c d rest h head_plain head_ne room sees =
      let (q, e, r) = feed_refines cbs (wire header []) s (await-Rep h) in
      let split = λ (x : ℕ).
        ap (at_parser_feed cbs (at_parser_await_response p) s)
          (sym (append_assoc header (b'\r' ∷ b'\n' ∷ []) (x ∷ rest)))
        ∙ feed-append cbs (wire header []) (x ∷ rest) (at_parser_await_response p) s
        ∙ ap (λ y. y >>= λ w. at_parser_feed cbs w.0 w.1 (x ∷ rest)) e in
      split c
      ∙ feed-empty_block cbs c d rest q _ (r.state ∙ ap (λ w. w.0.state) after)
          (r.data_left ∙ ap (λ w. w.0.data_left) after)
      ∙ sym (split d)
    where
      after : Spec.feed cbs (empty_view readline false p) s (wire header []) ≡ (
        record (keep_line (empty_view readline false p) header) { data_left = 0; state = rawdata },
        t,
      )
      after =
          feed-line cbs (Response.rawdata_follows 0) (empty_view readline false p) s t header []
            (record { state = refl; handler = refl; line = refl }) head_plain head_ne sees
            (omega (arith, room))
          ∙ ap (λ u. Spec.feed cbs u.0 u.1 [])
              (dispatch-rawdata cbs (empty_view readline false p) t header refl 0 (omega arith)
                (omega (arith, room)))
