-- ===== src/Parser/Private.antt =====
-- What the callbacks keep of their private state, the parser keeps, while it has no character handler
-- or one that leaves the state alone.
use attentive.Base.{
  ℕ, ◌≡◌, refl, sym, ap, ◌∙◌, Bool, true, false, not, ◌&&◌, ◌||◌, Option, none, some, [], ◌∷◌, ◌==◌,
  ltb, if◌then◌else◌, Bool-cases, inl, inr, arith,
}
use mathlib.Core.Path.{subst}
use attentive.Base.Text.{Bytes}
use attentive.Response
use attentive.Response.{ResponseType}
use attentive.Parser.{
  State, rawdata, hexdata, is_idle, CharacterHandler, Callbacks, Parser, run_character_handler,
  hex2int,
}
use attentive.Parser.Feed.{classify, at_parser_feed}
use attentive.Parser.Spec
use attentive.Parser.Spec.{View}
use attentive.Parser.Simulation.{feed_refines}
use attentive.Parser.Valid.{IsValid, Rep-view, Rep-IsValid, view}

module _ {P : Type 0} where
  append-handler : (v : View P) (c : ℕ) → (Spec.append v c).character_handler ≡ v.character_handler
  unfolding Spec.append
  append-handler v c = ground arith

  include-handler : (v : View P) → (Spec.include_line v).character_handler ≡ v.character_handler
  unfolding Spec.include_line
  include-handler v = append-handler v b'\n'

  finish-handler : (v : View P) → (Spec.finish_data v).character_handler ≡ v.character_handler
  unfolding Spec.finish_data
  finish-handler v = ground (arith, include-handler v)

  counted-handler :
      (v : View P) (c : ℕ) → (Spec.counted v c).character_handler ≡ v.character_handler
  unfolding Spec.counted
  counted-handler v c = append-handler v c

  digit-handler :
      (v : View P) (d : Option ℕ) → (Spec.feed_digit v d).character_handler ≡ v.character_handler
  unfolding Spec.feed_digit Spec.feed_nibble
  digit-handler v none = refl
  digit-handler v (some d) = go v.nibble
    where
      go : (n : Option ℕ) → (Spec.feed_nibble v d n).character_handler ≡ v.character_handler
      go none = refl
      go (some h) = counted-handler (record v { nibble = none }) _

  rawdata-handler :
      (v : View P) (c : ℕ) → (Spec.feed_rawdata v c).character_handler ≡ v.character_handler
  unfolding Spec.feed_rawdata
  rawdata-handler v c =
      finish-handler (if ltb 0 v.data_left then Spec.counted v c else v)
      ∙ ground (arith, counted-handler v c)

  hexdata-handler :
      (v : View P) (c : ℕ) → (Spec.feed_hexdata v c).character_handler ≡ v.character_handler
  unfolding Spec.feed_hexdata
  hexdata-handler v c =
      finish-handler (if ltb 0 v.data_left then Spec.feed_digit v (hex2int c) else v)
      ∙ ground (arith, digit-handler v (hex2int c))

  -- The handler leaves the private state alone.
  abbrev pub IsStill : Option (CharacterHandler P) → Type 0
  IsStill handler = (c : ℕ) (line : Bytes) (s : P) → (run_character_handler handler c line s).1 ≡ s

  module _ (cbs : Callbacks P) (H : Option (CharacterHandler P) → Type 0) (reset_keeps : H none)
      (still : (handler : Option (CharacterHandler P)) → H handler → IsStill handler)
      (I : P → Type 0)
      (scan_keeps : (state : State) (line : Bytes) (s : P) → I s → I (classify cbs state line s).1)
      (response_keeps : (text : Bytes) (s : P) → I s → I (cbs.handle_response text s))
      (urc_keeps : (line : Bytes) (s : P) → I s → I (cbs.handle_urc line s)) where
    abbrev Kept : View P × P → Type 0
    Kept w = H w.0.character_handler × I w.1

    act-Kept :
        (type : ResponseType) (v : View P) (s : P)
        → H v.character_handler
        → I s
        → Kept (Spec.act cbs type v s)
    unfolding Spec.act Spec.discard_line Spec.reset
    act-Kept type v s h i =
        elim (Bool-cases (
          Response.type_mask type == Response.final_ok
          || Response.type_mask type == Response.final)) [
            | inl b ↦ rw b (reset_keeps, response_keeps _ s i)
            | inr b ↦ elim (Bool-cases (Response.type_mask type == Response.rawdata_follows_type)) [
              | inl raw ↦ rw (b, raw) (wh, i)
              | inr raw ↦
                  elim (Bool-cases (Response.type_mask type == Response.hexdata_follows_type)) [
                    | inl hex ↦ rw (b, raw, hex) (wh, i)
                    | inr hex ↦ rw (b, raw, hex) (wh, i)
                  ]
            ]
          ]
      where
        w : View P
        w = if type == Response.final_ok then Spec.discard_line v else Spec.include_line v

        same : w.character_handler ≡ v.character_handler
        same = ground (arith, include-handler v)

        wh : H w.character_handler
        wh = subst H (sym same) h

    dispatch-Kept :
        (type : ResponseType) (line : Bytes) (v : View P) (s : P)
        → H v.character_handler
        → I s
        → Kept (Spec.dispatch cbs type line v s)
    unfolding Spec.dispatch Spec.discard_line
    dispatch-Kept type line v s h i = elim (Bool-cases (type == Response.urc || is_idle v.state)) [
      | inl b ↦ rw b (h, urc_keeps line s i)
      | inr b ↦ rw b (act-Kept type v s h i)
    ]

    text-Kept :
        (v : View P) (line : Bytes) (s : P)
        → H v.character_handler
        → I s
        → Kept (Spec.handle_text cbs v line s)
    unfolding Spec.handle_text
    text-Kept v [] s h i = (h, i)
    text-Kept v (c ∷ cs) s h i =
        dispatch-Kept (classify cbs v.state (c ∷ cs) s).0 (c ∷ cs) v
          (classify cbs v.state (c ∷ cs) s).1 h (scan_keeps v.state (c ∷ cs) s i)

    end-Kept :
        (v : View P) (b : Bool) (s : P)
        → H v.character_handler
        → I s
        → Kept (if b then Spec.handle_line cbs v s else (v, s))
    unfolding Spec.handle_line
    end-Kept v true s h i = text-Kept v v.line s h i
    end-Kept v false s h i = (h, i)

    feed_text-Kept :
        (v : View P) (c : ℕ) (s : P) → H v.character_handler → I s → Kept (Spec.feed_text cbs v c s)
    unfolding Spec.feed_text
    feed_text-Kept v c s h i =
        let (c', s') = run_character_handler w.character_handler c w.line s in
        end-Kept w (c' == b'\n' || Spec.at_prompt w) s' wh
          (subst I (sym (still w.character_handler wh c w.line s)) i)
      where
        w : View P
        w = if not (c == b'\r') && not (c == b'\n') then Spec.append v c else v

        same : w.character_handler ≡ v.character_handler
        same = ground (arith, append-handler v c)

        wh : H w.character_handler
        wh = subst H (sym same) h

    feed_in-Kept :
        (t : State) (v : View P) (c : ℕ) (s : P)
        → H v.character_handler
        → I s
        → Kept (Spec.feed_in cbs t v c s)
    unfolding Spec.feed_in
    feed_in-Kept rawdata v c s h i = (subst H (sym (rawdata-handler v c)) h, i)
    feed_in-Kept hexdata v c s h i = (subst H (sym (hexdata-handler v c)) h, i)
    feed_in-Kept _ v c s h i = feed_text-Kept v c s h i

    feed-Kept :
        (v : View P) (s : P) (input : Bytes)
        → H v.character_handler
        → I s
        → Kept (Spec.feed cbs v s input)
    unfolding Spec.feed
    feed-Kept v s [] h i = (h, i)
    feed-Kept v s (c ∷ rest) h i =
        let (h', i') = feed_in-Kept v.state v c s h i in
        feed-Kept (Spec.feed_in cbs v.state v c s).0 (Spec.feed_in cbs v.state v c s).1 rest h' i'

    -- Input keeps the parser valid and the private state as the callbacks keep it.
    pub feed-keeps :
        (input : Bytes) (p : Parser P) (s : P)
        → IsValid p
        → H p.character_handler
        → I s
        → (q : Parser P) × (s' : P) × (at_parser_feed cbs p s input ≡ some (q, s'))
          × IsValid q
          × H q.character_handler
          × I s'
    feed-keeps input p s h n i =
        let (q, e, r) = feed_refines cbs input s (Rep-view h) in
        let (n', i') = feed-Kept (view p) s input n i in
        (
          q,
          (Spec.feed cbs (view p) s input).1,
          e,
          Rep-IsValid r,
          subst H (sym r.character_handler) n',
          i',
        )

  -- No handler leaves the state alone.
  pub none-IsStill : (handler : Option (CharacterHandler P)) → handler ≡ none → IsStill handler
  none-IsStill handler e c line s = ap (λ h. (run_character_handler h c line s).1) e
