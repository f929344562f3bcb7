-- ===== src/Parser/Simulation.antt =====
-- `at_parser_feed` over the array follows the parser over texts, byte by byte, with the same calls
-- of the callbacks.
use attentive.Base.{
  ℕ, ◌≡◌, refl, sym, ap, ◌∙◌, Bool, true, false, not, ◌&&◌, ◌||◌, Option, none, some, [], ◌∷◌, ◌++◌,
  arith, ◌==◌, if◌then◌else◌, Bool-cases, length, take, length-append, inl, inr, Holds,
}
use attentive.Base.Text.{Bytes, codes, same_bytes}
use attentive.Response
use attentive.Response.{ResponseType}
use attentive.Parser.{
  State, rawdata, hexdata, is_idle, is_dataprompt, Callbacks, Parser, parser_append,
  parser_include_line, at_parser_reset, run_character_handler, parser_discard_line, current_line,
  at_prompt,
}
use attentive.Parser.Feed.{
  classify, parser_act, parser_dispatch, parser_handle_line, feed_text, feed_in, at_parser_feed,
}
use attentive.Parser.Spec
use attentive.Parser.Spec.{View}
use attentive.Parser.Refine.{
  Rep, Steps, append-Rep, include_line-Rep, discard_line-Rep, state-Rep, current_line-Rep,
  terminate-Rep, finalize-Rep,
}
use attentive.Parser.Steps.{data_left-Rep, nibble-Rep, feed_rawdata-Rep, feed_hexdata-Rep}

prompt-Holds :
    (xs buf : Bytes)
    → Holds xs buf
    → (length xs == 2 && same_bytes (take 2 buf) (codes "> ")) ≡ same_bytes xs (codes "> ")
unfolding same_bytes
prompt-Holds [] buf h = refl
prompt-Holds (x ∷ []) buf h = ground arith
prompt-Holds (x ∷ y ∷ []) [] h = absurd h
prompt-Holds (x ∷ y ∷ []) (a ∷ []) h = absurd h.1
prompt-Holds (x ∷ y ∷ []) (a ∷ b ∷ buf) h = rw (h.0, h.1.0)
prompt-Holds (x ∷ y ∷ z ∷ xs) buf h = ground arith

module _ {P : Type 0} where
  -- The step does not fault, calls the callbacks alike, and leaves an array for the text.
  abbrev pub Follows : Option (Parser P × P) → View P × P → Type 0
  Follows step w = (q : Parser P) × (step ≡ some (q, w.1)) × Rep q w.0

  -- What becomes of the line in `parser_act`.
  stored-Rep :
      {p : Parser P} {v : View P} (ok : Bool)
      → Rep p v
      → Steps
          (if ok then some (parser_discard_line p) else parser_include_line p)
          (if ok then Spec.discard_line v else Spec.include_line v)
  stored-Rep {p} true r = (parser_discard_line p, refl, discard_line-Rep r)
  stored-Rep false r = include_line-Rep r

  line-stored :
      (v : View P) (ok : Bool) → (if ok then Spec.discard_line v else Spec.include_line v).line ≡ []
  unfolding Spec.discard_line Spec.include_line
  line-stored v true = refl
  line-stored v false = refl

  classify-Rep :
      (cbs : Callbacks P) {p : Parser P} {v : View P} (s : P) (line : Bytes)
      → current_line p ≡ line
      → Rep p v
      → classify cbs p.state (current_line p) s ≡ classify cbs v.state line s
  unfolding classify
  classify-Rep cbs {p} {v} s line l r =
      ap (λ x. classify cbs p.state x s) l ∙ ap (λ x. classify cbs x line s) r.state

  at_prompt-Rep : {p : Parser P} {v : View P} → Rep p v → at_prompt p ≡ Spec.at_prompt v
  unfolding at_prompt Spec.at_prompt
  at_prompt-Rep {p} {v} r =
      ap (λ x. is_dataprompt x && (p.buf_used == 2 && same_bytes (take 2 p.buf) (codes "> ")))
        r.state
      ∙ ap (λ n. is_dataprompt v.state && (n == 2 && same_bytes (take 2 p.buf) (codes "> ")))
          (r.used ∙ sym (length-append v.kept v.line))
      ∙ ap (λ b. is_dataprompt v.state && b) (prompt-Holds (v.kept ++ v.line) p.buf r.text)

  handled-Rep :
      {p : Parser P} {v : View P} (ch : ℕ) (s : P)
      → Rep p v
      → run_character_handler p.character_handler ch (current_line p) s
        ≡ run_character_handler v.character_handler ch v.line s
  handled-Rep {p} {v} ch s r =
      ap (λ h. run_character_handler h ch (current_line p) s) r.character_handler
      ∙ ap (λ l. run_character_handler v.character_handler ch l s) (current_line-Rep r)

  typed-Rep :
      {p : Parser P} {v : View P} (keep : Bool) (ch : ℕ)
      → Rep p v
      → Steps (if keep then parser_append p ch else some p) (if keep then Spec.append v ch else v)
  typed-Rep true ch r = append-Rep ch r
  typed-Rep {p} false ch r = (p, refl, r)

  module _ (cbs : Callbacks P) where
    act-Rep :
        {p : Parser P} {v : View P} (type : ResponseType) (s : P)
        → Rep p v
        → Follows (parser_act cbs type p s) (Spec.act cbs type v s)
    unfolding parser_act Spec.act
    act-Rep {p} {v} type s r =
        let (q, e, f) = stored-Rep (type == Response.final_ok) r in
        let empty = line-stored v (type == Response.final_ok) in
        let (q', e', t, f') = finalize-Rep f empty in
        elim (Bool-cases (
          Response.type_mask type == Response.final_ok
          || Response.type_mask type == Response.final)) [
            | inl b ↦ (at_parser_reset q', rw (e, b, e', t), rw b f')
            | inr b ↦ elim (Bool-cases (Response.type_mask type == Response.rawdata_follows_type)) [
              | inl raw ↦ (
                record q { data_left = Response.data_amount type; state = rawdata },
                rw (e, b, raw),
                rw (b, raw) (data_left-Rep (Response.data_amount type) (state-Rep rawdata f)),
              )
              | inr raw ↦
                  elim (Bool-cases (Response.type_mask type == Response.hexdata_follows_type)) [
                    | inl hex ↦ (
                      record q {
                        data_left = Response.data_amount type;
                        nibble = none;
                        state = hexdata;
                      },
                      rw (e, b, raw, hex),
                      rw (b, raw, hex)
                          (data_left-Rep (Response.data_amount type)
                            (nibble-Rep none (state-Rep hexdata f))),
                    )
                    | inr hex ↦ (q, rw (e, b, raw, hex), rw (b, raw, hex) f)
                  ]
            ]
          ]

    dispatch-Rep :
        {p : Parser P} {v : View P} (type : ResponseType) (line : Bytes) (s : P)
        → Rep p v
        → Follows (parser_dispatch cbs type line p s) (Spec.dispatch cbs type line v s)
    unfolding parser_dispatch Spec.dispatch
    dispatch-Rep {p} {v} type line s r =
        let t = ap (λ x. type == Response.urc || is_idle x) r.state in
        elim (Bool-cases (type == Response.urc || is_idle v.state)) [
          | inl b ↦ (parser_discard_line p, rw (t ∙ b, b), rw b (discard_line-Rep r))
          | inr b ↦ rw (t ∙ b, b) (act-Rep type s r)
        ]

    handle_text-Rep :
        {p : Parser P} {v : View P} (line : Bytes) (s : P)
        → v.line ≡ line
        → Rep p v
        → Follows (parser_handle_line cbs p s) (Spec.handle_text cbs v line s)
    unfolding parser_handle_line Spec.handle_text
    handle_text-Rep {p} {v} [] s e r = (p, rw same, r)
      where
        same : (p.buf_used == p.buf_current) ≡ true
        same = ground (arith, r, ap length e)
    handle_text-Rep {p} {v} (c ∷ cs) s e r =
        let (q, e', f) = terminate-Rep 0 r in
        let l = current_line-Rep f ∙ e in
        let k = classify-Rep cbs s (c ∷ cs) l f in
        let (q', e'', f') =
          dispatch-Rep (classify cbs v.state (c ∷ cs) s).0 (c ∷ cs)
            (classify cbs v.state (c ∷ cs) s).1 f in
        (q', rw (differ, e', k, l) e'', f')
      where
        differ : (p.buf_used == p.buf_current) ≡ false
        differ = ground (arith, r, ap length e)

    handle_line-Rep :
        {p : Parser P} {v : View P} (s : P)
        → Rep p v
        → Follows (parser_handle_line cbs p s) (Spec.handle_line cbs v s)
    unfolding Spec.handle_line
    handle_line-Rep {p} {v} s r = handle_text-Rep v.line s refl r

    text_end-Rep :
        {p : Parser P} {v : View P} (ch : ℕ) (s : P)
        → Rep p v
        → Follows
            (if ch == b'\n' || at_prompt p then parser_handle_line cbs p s else some (p, s))
            (if ch == b'\n' || Spec.at_prompt v then Spec.handle_line cbs v s else (v, s))
    text_end-Rep {p} {v} ch s r =
        let t = ap (λ x. ch == b'\n' || x) (at_prompt-Rep r) in
        elim (Bool-cases (ch == b'\n' || Spec.at_prompt v)) [
          | inl b ↦ rw (t ∙ b, b) (handle_line-Rep s r)
          | inr b ↦ (p, rw (t ∙ b, b), rw b r)
        ]

    feed_text-Rep :
        {p : Parser P} {v : View P} (ch : ℕ) (s : P)
        → Rep p v
        → Follows (feed_text cbs p ch s) (Spec.feed_text cbs v ch s)
    unfolding feed_text Spec.feed_text
    feed_text-Rep {p} {v} ch s r =
        let (q, e, f) = typed-Rep (not (ch == b'\r') && not (ch == b'\n')) ch r in
        let w = if not (ch == b'\r') && not (ch == b'\n') then Spec.append v ch else v in
        let k = handled-Rep ch s f in
        let (q', e', f') =
          text_end-Rep (run_character_handler w.character_handler ch w.line s).0
            (run_character_handler w.character_handler ch w.line s).1 f in
        (q', rw (e, k) e', f')

    feed_in-Rep :
        {p : Parser P} {v : View P} (t : State) (ch : ℕ) (s : P)
        → Rep p v
        → Follows (feed_in cbs t p ch s) (Spec.feed_in cbs t v ch s)
    unfolding feed_in Spec.feed_in
    feed_in-Rep rawdata ch s r = let (q, e, f) = feed_rawdata-Rep ch r in (q, rw e, f)
    feed_in-Rep hexdata ch s r = let (q, e, f) = feed_hexdata-Rep ch r in (q, rw e, f)
    feed_in-Rep _ ch s r = feed_text-Rep ch s r

    -- Whatever bytes arrive, at_parser_feed does not write outside the buffer: from an array that
    -- stands for a text state it ends in an array that stands for the text state which the parser
    -- over texts reaches, with the same calls of the callbacks.
    pub feed_refines :
        (input : Bytes) {p : Parser P} {v : View P} (s : P)
        → Rep p v
        → (q : Parser P) × (at_parser_feed cbs p s input ≡ some (q, (Spec.feed cbs v s input).1))
          × Rep q (Spec.feed cbs v s input).0
    unfolding at_parser_feed Spec.feed
    feed_refines [] {p} s r = (p, refl, r)
    feed_refines (ch ∷ rest) {p} {v} s r =
        let (q, e, f) = feed_in-Rep v.state ch s r in
        let (q', e', f') = feed_refines rest (Spec.feed_in cbs v.state v ch s).1 f in
        (q', rw (ap (λ t. feed_in cbs t p ch s) r.state ∙ e) e', f')
