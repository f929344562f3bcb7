-- ===== src/Channel/Driver.antt =====
-- A driver's callbacks behind those of the parser: installed, and missing.
use attentive.Base.{◌<◌, ◌≡◌, refl, ◌≢◌, sym, ap, ◌∙◌, Option, none, some, [], ◌∷◌, length}
use mathlib.Core.Path.{subst}
use attentive.Base.Text.{Bytes}
use attentive.Parser.{State, Parser, idle, ResponseHandler, generic_line_scanner}
use attentive.Parser.Feed.{classify, at_parser_feed}
use attentive.Parser.Private.{feed-keeps, none-IsStill}
use attentive.Parser.Lines.{IsPlain, wire}
use attentive.Parser.Idle.{feed-idle_line}
use attentive.Parser.Responses.{Completes}
use attentive.Parser.Valid.{IsValid, IsReady}
use attentive.Channel.{
  At, AtCallbacks, driver_scanner, parser_callbacks, handle_urc, run_urc_handler, handle_response,
}
use attentive.Channel.Scanning.{first_known, classify-first_known}

module _ {D : Type 0} where
  -- Nothing has faulted, and the callbacks are those.
  abbrev pub HasCallbacks : AtCallbacks D → Option (At D) → Type 0
  HasCallbacks c none = ⊥
  HasCallbacks c (some at) = at.cbs ≡ some c

  urc-HasCallbacks :
      (c : AtCallbacks D) (line : Bytes) (s : Option (At D))
      → HasCallbacks c s
      → HasCallbacks c (parser_callbacks.handle_urc line s)
  unfolding parser_callbacks handle_urc
  urc-HasCallbacks c line none h = h
  urc-HasCallbacks c line (some at) h =
      subst
        (λ x. HasCallbacks c (elim x as (λ _. Option (At D)) [
          | none ↦ none
          | some cbs ↦ some (run_urc_handler cbs.handle_urc line at)
        ]))
        (sym h) (go c.handle_urc)
    where
      go : (f : Option (ResponseHandler D)) → (run_urc_handler f line at).cbs ≡ some c
      go none = h
      go (some f) = h

  scan-HasCallbacks :
      (c : AtCallbacks D) (state : State) (line : Bytes) (s : Option (At D))
      → HasCallbacks c s
      → HasCallbacks c (classify parser_callbacks state line s).1
  unfolding classify parser_callbacks
  scan-HasCallbacks c state line none h = h
  scan-HasCallbacks c state line (some at) h =
      subst (HasCallbacks c) (sym (ap (λ x. x.1) (classify-first_known state line at))) h

  response-HasCallbacks :
      (c : AtCallbacks D) (text : Bytes) (s : Option (At D))
      → HasCallbacks c s
      → HasCallbacks c (parser_callbacks.handle_response text s)
  unfolding parser_callbacks handle_response
  response-HasCallbacks c text none h = h
  response-HasCallbacks c text (some at) h = h

  pub feed-HasCallbacks :
      (c : AtCallbacks D) (input : Bytes) (p : Parser (Option (At D))) (at : At D)
      → IsValid p
      → p.character_handler ≡ none
      → at.cbs ≡ some c
      → (q : Parser (Option (At D))) × (at' : At D) × (at_parser_feed parser_callbacks p
            (some at)
            input
          ≡ some (q, some at'))
        × IsValid q
        × (q.character_handler ≡ none)
        × (at'.cbs ≡ some c)
  feed-HasCallbacks c input p at h n installed =
      let (q, s, e, h', n', i) =
        feed-keeps parser_callbacks (λ h. h ≡ none) refl none-IsStill (HasCallbacks c)
          (scan-HasCallbacks c) (response-HasCallbacks c) (urc-HasCallbacks c) input p (some at) h n
          installed in
      go s q e h' n' i
    where
      go :
          (s : Option (At D)) (q : Parser (Option (At D)))
          → at_parser_feed parser_callbacks p (some at) input ≡ some (q, s)
          → IsValid q
          → q.character_handler ≡ none
          → HasCallbacks c s
          → (q : Parser (Option (At D))) × (at' : At D) × (at_parser_feed parser_callbacks p
                (some at)
                input
              ≡ some (q, some at'))
            × IsValid q
            × (q.character_handler ≡ none)
            × (at'.cbs ≡ some c)
      go none q e h' n' i = absurd i
      go (some at') q e h' n' i = (q, at', e, h', n', i)

  handle_urc-missing :
      (line : Bytes) (at : At D) → at.cbs ≡ none → parser_callbacks.handle_urc line (some at) ≡ none
  unfolding parser_callbacks handle_urc
  handle_urc-missing line at e =
      ap
        (λ x. elim x as (λ _. Option (At D)) [
          | none ↦ none
          | some cbs ↦ some (run_urc_handler cbs.handle_urc line at)
        ])
        e

  -- On a channel whose callbacks are NULL, with a ready parser: a plain line that is not empty,
  -- shorter than the buffer and not asked for ends in a fault of the URC callback.
  pub feed-missing_callbacks :
      (line : Bytes) (p : Parser (Option (At D))) (at : At D)
      → IsReady p
      → IsPlain line
      → line ≢ []
      → length line < p.buf_size
      → at.cbs ≡ none
      → Completes parser_callbacks p (some at) (wire line []) none
  feed-missing_callbacks line p at h plain ne room missing =
      subst (Completes parser_callbacks p (some at) (wire line [])) faulted
        (feed-idle_line parser_callbacks line p (some at) h plain ne room)
    where
      faulted :
          parser_callbacks.handle_urc line (classify parser_callbacks idle line (some at)).1 ≡ none
      faulted =
          ap (λ x. parser_callbacks.handle_urc line x.1) (classify-first_known idle line at)
          ∙ handle_urc-missing line _ missing

  handle_urc-installed :
      (c : AtCallbacks D) (f : ResponseHandler D) (line : Bytes) (at : At D)
      → at.cbs ≡ some c
      → c.handle_urc ≡ some f
      → parser_callbacks.handle_urc line (some at) ≡ some (record at { arg = f line at.arg })
  unfolding parser_callbacks handle_urc
  handle_urc-installed c f line at e h =
      ap
        (λ x. elim x as (λ _. Option (At D)) [
          | none ↦ none
          | some cbs ↦ some (run_urc_handler cbs.handle_urc line at)
        ])
        e
      ∙ ap (λ x. some (run_urc_handler x line at)) h

  -- On a channel with no command waiting and a ready parser, whose driver has a URC handler: a
  -- plain line that is not empty and is shorter than the buffer reaches that handler once, with
  -- the private state of the driver as the scanners left it, whatever type they give the line; the
  -- channel is otherwise as before and the parser is ready.
  pub feed-installed_callbacks :
      (c : AtCallbacks D) (f : ResponseHandler D) (line : Bytes) (p : Parser (Option (At D)))
      (at : At D)
      → IsReady p
      → IsPlain line
      → line ≢ []
      → length line < p.buf_size
      → at.cbs ≡ some c
      → c.handle_urc ≡ some f
      → let scanned =
          first_known
            (at.command_scanner ∷ c.scan_line ∷ [])
            (generic_line_scanner line idle)
            line
            at.arg in
        Completes parser_callbacks p
          (some at)
          (wire line [])
          (some (record at { arg = f line scanned.1 }))
  feed-installed_callbacks c f line p at h plain ne room installed handles =
      subst (Completes parser_callbacks p (some at) (wire line [])) handled
        (feed-idle_line parser_callbacks line p (some at) h plain ne room)
    where
      scan : Option (AtCallbacks D) → D
      scan x =
          (first_known (at.command_scanner ∷ driver_scanner x ∷ []) (generic_line_scanner line idle)
            line at.arg).1

      handled :
          parser_callbacks.handle_urc line (classify parser_callbacks idle line (some at)).1
          ≡ some (record at { arg = f line (scan (some c)) })
      handled =
          ap (λ x. parser_callbacks.handle_urc line x.1) (classify-first_known idle line at)
          ∙ handle_urc-installed c f line (record at { arg = scan at.cbs }) installed handles
          ∙ ap (λ x. some (record at { arg = f line (scan x) })) installed
