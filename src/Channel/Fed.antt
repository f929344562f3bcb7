-- ===== src/Channel/Fed.antt =====
-- The text behind the pointer, for every byte that is fed to the parser.
use attentive.Base.{
  if_both, ℕ, ◌≡◌, refl, sym, ap, ◌∙◌, Bool, true, false, not, ◌&&◌, ◌||◌, Option, none, some, [],
  ◌∷◌, ◌==◌, if◌then◌else◌, Bool-cases, ◌>>=◌, length, inl, inr, ltb,
}
use mathlib.Core.Path.{subst}
use attentive.Base.Text.{Bytes}
use attentive.Response
use attentive.Response.{ResponseType}
use attentive.Parser.{
  State, rawdata, hexdata, Parser, ResponseHandler, store, with_priv, feed_rawdata, feed_hexdata,
  parser_discard_line, current_line, at_prompt, parser_append, run_character_handler, is_idle,
  sub_size,
}
use attentive.Parser.Feed.{
  at_parser_feed, feed_in, feed_text, parser_handle_line, parser_dispatch, classify,
}
use attentive.Channel.{At, AtCallbacks, parser_callbacks, handle_urc, run_urc_handler}
use attentive.Channel.Scanning.{classify-first_known}
use attentive.Channel.Shown.{Shown, IfShown, Waiting, Waiting-Shown, act-Shown}

module _ {D : Type 0} where
  urc-Waiting :
      (line : Bytes) (s : Option (At D)) → Waiting s → Waiting (parser_callbacks.handle_urc line s)
  unfolding parser_callbacks handle_urc
  urc-Waiting line none h = h
  urc-Waiting line (some at) h = go at.cbs
    where
      kept : (f : Option (ResponseHandler D)) → Waiting (some (run_urc_handler f line at))
      kept none = h
      kept (some f) = h

      go :
          (x : Option (AtCallbacks D))
          → Waiting (elim x as (λ _. Option (At D)) [
            | none ↦ none
            | some cbs ↦ some (run_urc_handler cbs.handle_urc line at)
          ])
      go none = tt
      go (some cbs) = kept cbs.handle_urc

  scan-Waiting :
      (state : State) (line : Bytes) (s : Option (At D))
      → Waiting s
      → Waiting (classify parser_callbacks state line s).1
  unfolding classify parser_callbacks
  scan-Waiting state line none h = h
  scan-Waiting state line (some at) h =
      subst Waiting (sym (ap (λ x. x.1) (classify-first_known state line at))) h

  dispatch-Shown :
      (type : ResponseType) (line : Bytes) (p : Parser (Option (At D))) (s : Option (At D))
      → Waiting s
      → IfShown (parser_dispatch parser_callbacks type line p s)
  unfolding parser_dispatch
  dispatch-Shown type line p s h = elim (Bool-cases (type == Response.urc || is_idle p.state)) [
    | inl b ↦ rw b (
        Waiting-Shown (parser_discard_line p) (parser_callbacks.handle_urc line s)
          (urc-Waiting line s h))
    | inr b ↦ rw b (act-Shown s h type p)
  ]

  line-Shown :
      (p : Parser (Option (At D))) (s : Option (At D))
      → Waiting s
      → IfShown (parser_handle_line parser_callbacks p s)
  unfolding parser_handle_line
  line-Shown p s h = elim (Bool-cases (p.buf_used == p.buf_current)) [
    | inl b ↦ rw b (Waiting-Shown p s h)
    | inr b ↦ rw b (go (store p p.buf_used 0))
  ]
    where
      go :
          (r : Option (Parser (Option (At D))))
          → IfShown (
              r >>= λ q.
              let line = current_line q in
              let (type, s') = classify parser_callbacks q.state line s in
              parser_dispatch parser_callbacks type line q s')
      go none = tt
      go (some q) =
          dispatch-Shown (classify parser_callbacks q.state (current_line q) s).0 (current_line q) q
            (classify parser_callbacks q.state (current_line q) s).1
            (scan-Waiting q.state (current_line q) s h)

  -- The step keeps the character handler.
  abbrev KeepsHandler : Parser (Option (At D)) → Option (Parser (Option (At D))) → Type 0
  KeepsHandler p none = Unit
  KeepsHandler p (some q) = q.character_handler ≡ p.character_handler

  append-KeepsHandler : (p : Parser (Option (At D))) (c : ℕ) → KeepsHandler p (parser_append p c)
  unfolding parser_append store
  append-KeepsHandler p c = elim (Bool-cases (ltb p.buf_used (sub_size p.buf_size 1))) [
    | inl b ↦ elim (Bool-cases (ltb p.buf_used (length p.buf))) [
      | inl l ↦ rw (b, l) refl
      | inr l ↦ rw (b, l) tt
    ]
    | inr b ↦ rw b refl
  ]

  text-Shown :
      (p : Parser (Option (At D))) (c : ℕ) (s : Option (At D))
      → p.character_handler ≡ none
      → Waiting s
      → IfShown (feed_text parser_callbacks p c s)
  unfolding feed_text
  text-Shown p c s n h =
      go (if not (c == b'\r') && not (c == b'\n') then parser_append p c else some p) (
        if_both (KeepsHandler p) (not (c == b'\r') && not (c == b'\n')) (parser_append p c) (some p)
          (append-KeepsHandler p c) refl)
    where
      end :
          (q : Parser (Option (At D))) (b : Bool)
          → IfShown (if b then parser_handle_line parser_callbacks q s else some (q, s))
      end q true = line-Shown q s h
      end q false = Waiting-Shown q s h

      go :
          (r : Option (Parser (Option (At D))))
          → KeepsHandler p r
          → IfShown (
              r >>= λ q.
              let (c', s') = run_character_handler q.character_handler c (current_line q) s in
              if c' == b'\n' || at_prompt q
              then parser_handle_line parser_callbacks q s'
              else some (q, s'))
      go none e = tt
      go (some q) e =
          subst
            (λ f. IfShown (
              let (c', s') = run_character_handler f c (current_line q) s in
              if c' == b'\n' || at_prompt q
              then parser_handle_line parser_callbacks q s'
              else some (q, s')))
            (sym (e ∙ n)) (end q (c == b'\n' || at_prompt q))

  priv-Shown :
      (s : Option (At D)) (r : Option (Parser (Option (At D))))
      → Waiting s
      → IfShown (with_priv s r)
  priv-Shown s none h = tt
  priv-Shown s (some q) h = Waiting-Shown q s h

  feed_in-Shown :
      (t : State) (p : Parser (Option (At D))) (c : ℕ) (s : Option (At D))
      → p.character_handler ≡ none
      → Waiting s
      → IfShown (feed_in parser_callbacks t p c s)
  unfolding feed_in
  feed_in-Shown rawdata p c s n h = priv-Shown s (feed_rawdata p c) h
  feed_in-Shown hexdata p c s n h = priv-Shown s (feed_hexdata p c) h
  feed_in-Shown _ p c s n h = text-Shown p c s n h

  pub feed-Shown :
      (c : ℕ) (p q : Parser (Option (At D))) (s s' : Option (At D))
      → p.character_handler ≡ none
      → Waiting s
      → at_parser_feed parser_callbacks p s (c ∷ []) ≡ some (q, s')
      → Shown (q, s')
  unfolding at_parser_feed
  feed-Shown c p q s s' n h e =
      go (feed_in parser_callbacks p.state p c s) e (feed_in-Shown p.state p c s n h)
    where
      go :
          (r : Option (Parser (Option (At D)) × Option (At D)))
          → (r >>= λ w. at_parser_feed parser_callbacks w.0 w.1 []) ≡ some (q, s')
          → IfShown r
          → Shown (q, s')
      go none e h = cc
      go (some w) e h = subst IfShown e h
