-- ===== src/Channel/Answers.antt =====
-- What a byte from the modem does to a command that waits.
use attentive.Base.{
  ℕ, ◌≡◌, ◌⊎◌, refl, sym, ap, Bool, true, false, Option, none, some, [], ◌∷◌, inl, inr,
}
use mathlib.Core.Path.{subst}
use attentive.Base.Text.{Bytes}
use attentive.CString.{c_string}
use attentive.Parser.{State, Parser, CharacterHandler, ResponseHandler}
use attentive.Parser.Feed.{at_parser_feed, classify}
use attentive.Parser.Private.{IsStill, none-IsStill, feed-keeps}
use attentive.Parser.Valid.{IsValid}
use attentive.Channel.{
  At, AtCallbacks, parser_callbacks, feed_byte, handle_urc, handle_response, run_urc_handler,
  response_text,
}
use attentive.Channel.Scanning.{classify-first_known}

abbrev pub has_text : Option Bytes → Bool
has_text none = false
has_text (some text) = true

module _ {D : Type 0} where
  -- The callbacks have not answered, or have set all that says so.
  abbrev pub Answers : At D → Option (At D) → Type 0
  Answers old none = Unit
  Answers old (some at) =
      ((at.waiting ≡ old.waiting) × (at.response ≡ old.response) × (at.signalled ≡ old.signalled))
      ⊎ ((at.waiting ≡ false) × (has_text at.response ≡ true) × (at.signalled ≡ true))

  pub response_text-some :
      (r : Option Bytes) (p : Parser (Option (At D)))
      → has_text r ≡ true
      → response_text r p ≡ some (c_string p.buf)
  response_text-some none p h = cc
  response_text-some (some text) p h = refl

  module _ (old : At D) where
    scan-Answers :
        (state : State) (line : Bytes) (s : Option (At D))
        → Answers old s
        → Answers old (classify parser_callbacks state line s).1
    unfolding classify parser_callbacks
    scan-Answers state line none h = h
    scan-Answers state line (some at) h =
        subst (Answers old) (sym (ap (λ x. x.1) (classify-first_known state line at))) h

    response-Answers :
        (text : Bytes) (s : Option (At D))
        → Answers old s
        → Answers old (parser_callbacks.handle_response text s)
    unfolding parser_callbacks handle_response
    response-Answers text none h = h
    response-Answers text (some at) h = inr (refl, refl, refl)

    urc-Answers :
        (line : Bytes) (s : Option (At D))
        → Answers old s
        → Answers old (parser_callbacks.handle_urc line s)
    unfolding parser_callbacks handle_urc
    urc-Answers line none h = h
    urc-Answers line (some at) h = go at.cbs
      where
        kept : (f : Option (ResponseHandler D)) → Answers old (some (run_urc_handler f line at))
        kept none = h
        kept (some f) = h

        go :
            (x : Option (AtCallbacks D))
            → Answers old (elim x as (λ _. Option (At D)) [
              | none ↦ none
              | some cbs ↦ some (run_urc_handler cbs.handle_urc line at)
            ])
        go none = tt
        go (some cbs) = kept cbs.handle_urc

  -- A byte that is fed without a fault.
  pub feed_byte-some :
      (c : ℕ) (p q : Parser (Option (At D))) (at at' : At D)
      → feed_byte c p at ≡ some (q, at')
      → at_parser_feed parser_callbacks p (some at) (c ∷ []) ≡ some (q, some at')
  unfolding feed_byte
  feed_byte-some c p q at at' e = go (at_parser_feed parser_callbacks p (some at) (c ∷ [])) refl e
    where
      go :
          (r : Option (Parser (Option (At D)) × Option (At D)))
          → at_parser_feed parser_callbacks p (some at) (c ∷ []) ≡ r
          → (elim r as (λ _. Option (Parser (Option (At D)) × At D)) [
            | none ↦ none
            | some (p', x) ↦ elim x as (λ _. Option (Parser (Option (At D)) × At D)) [
              | none ↦ none
              | some y ↦ some (p', y)
            ]
          ])
            ≡ some (q, at')
          → r ≡ some (q, some at')
      go none f k = cc
      go (some (p', none)) f k = cc
      go (some (p', some y)) f k = cc

  -- Input leaves the parser valid, and the command answered or not, with a handler that leaves the
  -- channel alone.
  module _ (H : Option (CharacterHandler (Option (At D))) → Type 0) (reset_keeps : H none)
      (still : (handler : Option (CharacterHandler (Option (At D))))
        → H handler
        → IsStill handler) where
    handled-Answers :
        (input : Bytes) (p q : Parser (Option (At D))) (at at' : At D)
        → at_parser_feed parser_callbacks p (some at) input ≡ some (q, some at')
        → IsValid p
        → H p.character_handler
        → Answers at (some at') × IsValid q × H q.character_handler
    handled-Answers input p q at at' f v n =
        let (q', s', f', v', n', i) =
          feed-keeps parser_callbacks H reset_keeps still (Answers at) (scan-Answers at)
            (response-Answers at) (urc-Answers at) input p (some at) v n (inl (refl, refl, refl)) in
        let same : s' ≡ some at' = cc in
        let two : q' ≡ q = cc in
        (
          subst (Answers at) same i,
          subst (λ q. IsValid q) two v',
          subst (λ (q : Parser (Option (At D))). H q.character_handler) two n',
        )

  pub feed-Answers :
      (input : Bytes) (p q : Parser (Option (At D))) (at at' : At D)
      → at_parser_feed parser_callbacks p (some at) input ≡ some (q, some at')
      → IsValid p
      → p.character_handler ≡ none
      → Answers at (some at') × IsValid q × (q.character_handler ≡ none)
  feed-Answers = handled-Answers (λ h. h ≡ none) refl none-IsStill

  pub feed_byte-Answers :
      (c : ℕ) (p q : Parser (Option (At D))) (at at' : At D)
      → feed_byte c p at ≡ some (q, at')
      → IsValid p
      → p.character_handler ≡ none
      → Answers at (some at') × IsValid q × (q.character_handler ≡ none)
  feed_byte-Answers c p q at at' e v n =
      feed-Answers (c ∷ []) p q at at' (feed_byte-some c p q at at' e) v n

  pub feed_byte-IsStill-Answers :
      (c : ℕ) (p q : Parser (Option (At D))) (at at' : At D)
      → feed_byte c p at ≡ some (q, at')
      → IsValid p
      → IsStill p.character_handler
      → Answers at (some at') × IsValid q × IsStill q.character_handler
  feed_byte-IsStill-Answers c p q at at' e v n =
      handled-Answers IsStill (none-IsStill none refl) (λ handler h. h) (c ∷ []) p q at at'
        (feed_byte-some c p q at at' e) v n
