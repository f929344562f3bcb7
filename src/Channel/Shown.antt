-- ===== src/Channel/Shown.antt =====
-- The text behind the pointer that `handle_response` is given.
use attentive.Base.{
  true, ℕ, ◌<◌, ◌≡◌, ◌⊎◌, refl, ap, ◌||◌, Option, none, some, [], ◌∷◌, ◌==◌, if◌then◌else◌,
  Bool-cases, ◌>>=◌, arith, length, take, set, inl, inr, ltb, zero, suc,
}
use attentive.Base.Text.{Bytes}
use attentive.CString.{c_string}
use attentive.Response
use attentive.Response.{ResponseType}
use attentive.Parser.{
  rawdata, hexdata, Parser, at_parser_reset, parser_finalize, store, parser_include_line,
  parser_discard_line, sub_size,
}
use attentive.Parser.Feed.{parser_act}
use attentive.Channel.{At, parser_callbacks, handle_response}

-- A NUL behind the text ends the C string.
c_string-set :
    (xs : Bytes) (n : ℕ) → n < length xs → c_string (set xs n 0) ≡ c_string (take n (set xs n 0))
unfolding c_string
c_string-set [] n h = absurd (omega arith)
c_string-set (x ∷ xs) zero h = refl
c_string-set (x ∷ xs) (suc n) h =
    ap (λ r. if x == 0 then [] else x ∷ r) (c_string-set xs n (omega arith))

module _ {D : Type 0} where
  -- The channel waits still, or the buffer shows the text that it was given.
  abbrev pub Shown : Parser (Option (At D)) × Option (At D) → Type 0
  Shown (q, none) = Unit
  Shown (q, some at) =
      (at.waiting ≡ true)
      ⊎ ((text : Bytes) × (at.response ≡ some text) × (c_string q.buf ≡ c_string text))

  abbrev pub IfShown : Option (Parser (Option (At D)) × Option (At D)) → Type 0
  IfShown none = Unit
  IfShown (some w) = Shown w

  finalize-Shown :
      (p q : Parser (Option (At D))) (s : Option (At D))
      → parser_finalize p ≡ some q
      → Shown (at_parser_reset q, parser_callbacks.handle_response (take q.buf_used q.buf) s)
  unfolding parser_finalize store at_parser_reset parser_callbacks handle_response
  finalize-Shown p q none e = tt
  finalize-Shown p q (some at) e = inr (
    take q.buf_used q.buf,
    refl,
    go (if ltb 0 p.buf_used then record p { buf_used = sub_size p.buf_used 1 } else p) e,
  )
    where
      go :
          (r : Parser (Option (At D)))
          → store r r.buf_used 0 ≡ some q
          → c_string q.buf ≡ c_string (take q.buf_used q.buf)
      go r e = elim (Bool-cases (ltb r.buf_used (length r.buf))) [
        | inl b ↦ ground (arith, c_string-set r.buf r.buf_used (ground arith))
        | inr b ↦ absurd (ground arith)
      ]

  abbrev pub Waiting : Option (At D) → Type 0
  Waiting none = Unit
  Waiting (some at) = at.waiting ≡ true

  pub Waiting-Shown : (q : Parser (Option (At D))) (s : Option (At D)) → Waiting s → Shown (q, s)
  Waiting-Shown q none h = tt
  Waiting-Shown q (some at) h = inl h

  module _ (s : Option (At D)) (quiet : Waiting s) where
    pub act-Shown :
        (type : ResponseType) (p : Parser (Option (At D)))
        → IfShown (parser_act parser_callbacks type p s)
    unfolding parser_act
    act-Shown type p =
        go (
          if type == Response.final_ok then some (parser_discard_line p) else parser_include_line p)
      where
        finished :
            (r : Parser (Option (At D))) (f : Option (Parser (Option (At D))))
            → parser_finalize r ≡ f
            → IfShown (
                f >>= λ q.
                some
                  (at_parser_reset q, parser_callbacks.handle_response (take q.buf_used q.buf) s))
        finished r none e = tt
        finished r (some q) e = finalize-Shown r q s e

        go :
            (r : Option (Parser (Option (At D))))
            → IfShown (
                r >>= λ q.
                if Response.type_mask type == Response.final_ok
                  || Response.type_mask type == Response.final
                then (do
                  r ← parser_finalize q
                  some (
                    at_parser_reset r,
                    parser_callbacks.handle_response (take r.buf_used r.buf) s,
                  ))
                else if Response.type_mask type == Response.rawdata_follows_type
                then some (record q { data_left = Response.data_amount type; state = rawdata }, s)
                else if Response.type_mask type == Response.hexdata_follows_type
                then some (
                  record q {
                    data_left = Response.data_amount type;
                    nibble = none;
                    state = hexdata;
                  },
                  s,
                )
                else some (q, s))
        go none = tt
        go (some q) =
            elim (Bool-cases (
              Response.type_mask type == Response.final_ok
              || Response.type_mask type == Response.final)) [
                | inl b ↦ rw b (finished q (parser_finalize q) refl)
                | inr b ↦
                    elim (Bool-cases (Response.type_mask type == Response.rawdata_follows_type)) [
                      | inl raw ↦
                          rw (b, raw)
                            (Waiting-Shown
                              (record q { data_left = Response.data_amount type; state = rawdata })
                              s quiet)
                      | inr raw ↦
                          elim (Bool-cases
                            (Response.type_mask type == Response.hexdata_follows_type)) [
                              | inl hex ↦
                                  rw (b, raw, hex)
                                    (Waiting-Shown
                                      (record q {
                                        data_left = Response.data_amount type;
                                        nibble = none;
                                        state = hexdata;
                                      })
                                      s quiet)
                              | inr hex ↦ rw (b, raw, hex) (Waiting-Shown q s quiet)
                            ]
                    ]
              ]
