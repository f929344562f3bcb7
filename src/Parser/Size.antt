-- ===== src/Parser/Size.antt =====
-- The length of the buffer, which no input changes.
use attentive.Base.{
  ℕ, ◌≡◌, refl, ap, ◌∙◌, Bool, true, false, not, ◌&&◌, ◌||◌, Option, none, some, [], ◌∷◌, ◌==◌, ltb,
  if◌then◌else◌, arith,
}
use attentive.Base.Text.{Bytes}
use attentive.Response.{ResponseType}
use attentive.Parser.{State, rawdata, hexdata, Callbacks, Parser, run_character_handler, hex2int}
use attentive.Parser.Feed.{classify, at_parser_feed}
use attentive.Parser.Spec
use attentive.Parser.Spec.{View}
use attentive.Parser.Simulation.{feed_refines}
use attentive.Parser.Valid.{IsValid, Rep-view, view}

module _ {P : Type 0} where
  append-size : (v : View P) (c : ℕ) → (Spec.append v c).size ≡ v.size
  unfolding Spec.append
  append-size v c = ground arith

  include-size : (v : View P) → (Spec.include_line v).size ≡ v.size
  unfolding Spec.include_line
  include-size v = append-size v b'\n'

  finish-size : (v : View P) → (Spec.finish_data v).size ≡ v.size
  unfolding Spec.finish_data
  finish-size v = ground (arith, include-size v)

  counted-size : (v : View P) (c : ℕ) → (Spec.counted v c).size ≡ v.size
  unfolding Spec.counted
  counted-size v c = append-size v c

  digit-size : (v : View P) (d : Option ℕ) → (Spec.feed_digit v d).size ≡ v.size
  unfolding Spec.feed_digit Spec.feed_nibble
  digit-size v none = refl
  digit-size v (some d) = go v.nibble
    where
      go : (n : Option ℕ) → (Spec.feed_nibble v d n).size ≡ v.size
      go none = refl
      go (some h) = counted-size (record v { nibble = none }) _

  rawdata-size : (v : View P) (c : ℕ) → (Spec.feed_rawdata v c).size ≡ v.size
  unfolding Spec.feed_rawdata
  rawdata-size v c =
      finish-size (if ltb 0 v.data_left then Spec.counted v c else v)
      ∙ ground (arith, counted-size v c)

  hexdata-size : (v : View P) (c : ℕ) → (Spec.feed_hexdata v c).size ≡ v.size
  unfolding Spec.feed_hexdata
  hexdata-size v c =
      finish-size (if ltb 0 v.data_left then Spec.feed_digit v (hex2int c) else v)
      ∙ ground (arith, digit-size v (hex2int c))

  module _ (cbs : Callbacks P) where
    act-size : (type : ResponseType) (v : View P) (s : P) → (Spec.act cbs type v s).0.size ≡ v.size
    unfolding Spec.act Spec.discard_line Spec.reset
    act-size type v s = ground (arith, include-size v)

    dispatch-size :
        (type : ResponseType) (line : Bytes) (v : View P) (s : P)
        → (Spec.dispatch cbs type line v s).0.size ≡ v.size
    unfolding Spec.dispatch Spec.discard_line
    dispatch-size type line v s = ground (arith, act-size type v s)

    handle-size :
        (v : View P) (line : Bytes) (s : P) → (Spec.handle_text cbs v line s).0.size ≡ v.size
    unfolding Spec.handle_text
    handle-size v [] s = refl
    handle-size v (c ∷ cs) s =
        let (type, s') = classify cbs v.state (c ∷ cs) s in dispatch-size type (c ∷ cs) v s'

    end-size :
        (b : Bool) (v : View P) (s : P)
        → (if b then Spec.handle_line cbs v s else (v, s)).0.size ≡ v.size
    unfolding Spec.handle_line
    end-size true v s = handle-size v v.line s
    end-size false v s = refl

    feed_text-size : (v : View P) (c : ℕ) (s : P) → (Spec.feed_text cbs v c s).0.size ≡ v.size
    unfolding Spec.feed_text
    feed_text-size v c s =
        let w = if not (c == b'\r') && not (c == b'\n') then Spec.append v c else v in
        let (c', s') = run_character_handler w.character_handler c w.line s in
        end-size (c' == b'\n' || Spec.at_prompt w) w s' ∙ ground (arith, append-size v c)

    feed_in-size :
        (t : State) (v : View P) (c : ℕ) (s : P) → (Spec.feed_in cbs t v c s).0.size ≡ v.size
    unfolding Spec.feed_in
    feed_in-size rawdata v c s = rawdata-size v c
    feed_in-size hexdata v c s = hexdata-size v c
    feed_in-size _ v c s = feed_text-size v c s

    spec-size : (v : View P) (s : P) (input : Bytes) → (Spec.feed cbs v s input).0.size ≡ v.size
    unfolding Spec.feed
    spec-size v s [] = refl
    spec-size v s (c ∷ rest) =
        let (w, t) = Spec.feed_in cbs v.state v c s in
        spec-size w t rest ∙ feed_in-size v.state v c s

    pub feed-size :
        (input : Bytes) (p q : Parser P) (s t : P)
        → IsValid p
        → at_parser_feed cbs p s input ≡ some (q, t)
        → q.buf_size ≡ p.buf_size
    feed-size input p q s t h e =
        let (q', e', r) = feed_refines cbs input s (Rep-view h) in
        let same : q ≡ q' = cc in
        ap (λ (x : Parser P). x.buf_size) same ∙ r.size ∙ spec-size (view p) s input
