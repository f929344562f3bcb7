-- ===== src/Parser/Idle.antt =====
-- What arrives while no command waits, and the prompt that asks for data.
use attentive.Base.{
  ℕ, zero, suc, ◌-◌, ◌<◌, ◌≡◌, ◌≢◌, refl, sym, ap, ◌∙◌, true, false, none, List, [], ◌∷◌, arith,
  length, take, take-whole, inl,
}
use mathlib.Core.Path.{subst}
use attentive.Base.Text.{Bytes, codes, same_bytes}
use attentive.Response
use attentive.Parser.{
  idle, dataprompt, Callbacks, Parser, at_parser_await_response, at_parser_expect_dataprompt,
  run_scanner, generic_line_scanner,
}
use attentive.Parser.Feed.{classify}
use attentive.Parser.Spec
use attentive.Parser.Spec.{View}
use attentive.Parser.Lines.{IsPlain, wire, feed-wire_cut}
use attentive.Parser.Handled.{with_line}
use attentive.Parser.Responses.{Completes, completes}
use attentive.Parser.Valid.{IsReady, empty_view, IsReady-Rep, await_prompt-Rep}

-- The lines with their terminators.
abbrev pub wires : List Bytes → Bytes
wires [] = []
wires (line ∷ lines) = wire line (wires lines)

abbrev pub ArePlain : List Bytes → Type 0
ArePlain [] = Unit
ArePlain (line ∷ lines) = (IsPlain line × (line ≢ [])) × ArePlain lines

-- What a buffer of the size holds of a line.
abbrev pub shown : ℕ → Bytes → Bytes
shown size line = take (size - 1) line

take-ne : (n : ℕ) (line : Bytes) → 0 < n → line ≢ [] → take n line ≢ []
take-ne zero line h ne = absurd (omega arith)
take-ne (suc n) [] h ne = absurd (ne refl)
take-ne (suc n) (c ∷ cs) h ne = λ e. cc

-- The prompt, behind a line end.
abbrev pub prompt : Bytes
prompt = codes "\r\n> "

module _ {P : Type 0} (cbs : Callbacks P) where
  -- What the buffer holds of a line is scanned and then given to the URC handler.
  abbrev pub notify : Bytes → P → P
  notify line s = cbs.handle_urc line (classify cbs idle line s).1

  abbrev pub notify_all : ℕ → List Bytes → P → P
  notify_all size [] s = s
  notify_all size (line ∷ lines) s = notify_all size lines (notify (shown size line) s)

  dispatch-idle :
      (type : ℕ) (line : Bytes) (v : View P) (s : P)
      → v.state ≡ idle
      → Spec.dispatch cbs type line v s ≡ (record v { line = [] }, cbs.handle_urc line s)
  unfolding Spec.dispatch Spec.discard_line
  dispatch-idle type line v s st = ground (arith, st)

  handle_text-idle :
      (v : View P) (line : Bytes) (s : P)
      → v.state ≡ idle
      → line ≢ []
      → Spec.handle_text cbs (with_line v line) line s
        ≡ (record v { line = [] }, cbs.handle_urc line (classify cbs idle line s).1)
  unfolding Spec.handle_text
  handle_text-idle v [] s st ne = absurd (ne refl)
  handle_text-idle v (c ∷ cs) s st ne =
      ap
        (λ t.
          Spec.dispatch cbs (classify cbs t (c ∷ cs) s).0 (c ∷ cs) (with_line v (c ∷ cs))
            (classify cbs t (c ∷ cs) s).1)
        st
      ∙ dispatch-idle (classify cbs idle (c ∷ cs) s).0 (c ∷ cs) (with_line v (c ∷ cs))
          (classify cbs idle (c ∷ cs) s).1 st

  feed-wires :
      (lines : List Bytes) (v : View P) (s : P)
      → v.state ≡ idle
      → v.character_handler ≡ none
      → v.kept ≡ []
      → v.line ≡ []
      → 1 < v.size
      → ArePlain lines
      → Spec.feed cbs v s (wires lines) ≡ (v, notify_all v.size lines s)
  unfolding Spec.feed
  feed-wires [] v s st hd k l room all = refl
  feed-wires (line ∷ lines) v s st hd k l room ((plain, ne), all) =
      let cut = shown v.size line in
      feed-wire_cut cbs line (wires lines) (v.size - 1) v s (record { reads = inl st; plain = hd })
        l plain (omega (arith, ap length k))
      ∙ ap (λ u. Spec.feed cbs u.0 u.1 (wires lines))
          (handle_text-idle v cut s st (take-ne (v.size - 1) line (omega arith) ne))
      ∙ ap (λ x. Spec.feed cbs (record v { line = x }) (notify cut s) (wires lines)) (sym l)
      ∙ feed-wires lines v (notify cut s) st hd k l room all

  -- On a ready parser with no command waiting and a buffer of two bytes or more, of every plain
  -- line that is not empty, however long, as much as the buffer holds beside a terminator is
  -- scanned and then goes to the URC handler, whatever its type, in order; the response handler is
  -- not called and the parser is ready.
  pub feed-idle :
      (lines : List Bytes) (p : Parser P) (s : P)
      → IsReady p
      → 1 < p.buf_size
      → ArePlain lines
      → Completes cbs p s (wires lines) (notify_all p.buf_size lines s)
  unfolding Spec.reset
  feed-idle lines p s h room all =
      completes cbs p (empty_view idle false p) (empty_view idle false p) s _ _ (IsReady-Rep h)
        (feed-wires lines (empty_view idle false p) s refl refl refl refl room all)

  -- A line that fits is seen whole.
  pub feed-idle_line :
      (line : Bytes) (p : Parser P) (s : P)
      → IsReady p
      → IsPlain line
      → line ≢ []
      → length line < p.buf_size
      → Completes cbs p s (wire line []) (notify line s)
  feed-idle_line line p s h plain ne room =
      subst (λ x. Completes cbs p s (wire line []) (notify x s))
        (take-whole (p.buf_size - 1) line (omega arith))
        (feed-idle (line ∷ []) p s h (long line ne room) ((plain, ne), tt))
    where
      long : (line : Bytes) → line ≢ [] → length line < p.buf_size → 1 < p.buf_size
      long [] ne room = absurd (ne refl)
      long (c ∷ cs) ne room = omega arith

  classify-prompt :
      (s : P)
      → run_scanner cbs.scan_line (codes "> ") s ≡ (Response.unknown, s)
      → classify cbs dataprompt (codes "> ") s ≡ (Response.final_ok, s)
  unfolding classify generic_line_scanner same_bytes
  classify-prompt s e = rw e

  feed-prompt_view :
      (v : View P) (s : P)
      → v.state ≡ dataprompt
      → v.character_handler ≡ none
      → v.kept ≡ []
      → v.line ≡ []
      → 3 < v.size
      → classify cbs dataprompt (codes "> ") s ≡ (Response.final_ok, s)
      → Spec.feed cbs v s prompt ≡ (Spec.reset v, cbs.handle_response [] s)
  unfolding Spec.feed Spec.feed_in Spec.feed_text Spec.append Spec.at_prompt Spec.handle_line
      Spec.handle_text Spec.dispatch Spec.act Spec.discard_line Spec.reset Spec.drop_last same_bytes
  feed-prompt_view v s st hd k l room c = ground arith

  -- A ready parser that is told to expect the data prompt and then to await a response, and that
  -- receives exactly a line end and the two characters of the prompt, completes with an empty
  -- response, if the callback does not know the prompt line and leaves its state alone at it, and
  -- the buffer is longer than three bytes.
  pub feed-prompt :
      (p : Parser P) (s : P)
      → IsReady p
      → 3 < p.buf_size
      → run_scanner cbs.scan_line (codes "> ") s ≡ (Response.unknown, s)
      → Completes cbs
          (at_parser_await_response (at_parser_expect_dataprompt p))
          s
          prompt
          (cbs.handle_response [] s)
  feed-prompt p s h room scanned =
      completes cbs (at_parser_await_response (at_parser_expect_dataprompt p))
        (empty_view dataprompt true p) (empty_view dataprompt true p) s _ _ (await_prompt-Rep h)
        (feed-prompt_view (empty_view dataprompt true p) s refl refl refl refl room
          (classify-prompt s scanned))
