-- ===== src/Channel/Argument.antt =====
-- Scanning and notifying change a driver's own data and nothing else of the channel.
use attentive.Base.{◌≡◌, sym, ap, Option, none, some, List, [], ◌∷◌}
use mathlib.Core.Path.{subst}
use attentive.Base.Text.{Bytes}
use attentive.Parser.{readline, State, Callbacks, ResponseHandler, generic_line_scanner}
use attentive.Parser.Feed.{classify}
use attentive.Parser.Exchange.{Item, stored, unsolicited, AreSeen}
use attentive.Channel.{
  At, AtCallbacks, parser_callbacks, driver_scanner, handle_urc, run_urc_handler,
}
use attentive.Channel.Scanning.{first_known, classify-first_known}

module _ {P : Type 0} (cbs : Callbacks P) (I : P → Type 0)
    (scan_keeps : (line : Bytes) (s : P) → I s → I (classify cbs readline line s).1)
    (urc_keeps : (line : Bytes) (s : P) → I s → I (cbs.handle_urc line s)) where
  -- What scanning and the URC handler keep, items keep.
  AreSeen-keeps : (items : List Item) (s t : P) → AreSeen cbs items s t → I s → I t
  AreSeen-keeps [] s t e h = subst I e h
  AreSeen-keeps (stored line ∷ items) s t (u, _, _, sees, seen) h =
      AreSeen-keeps items u t seen (subst I (ap (λ w. w.1) sees) (scan_keeps line s h))
  AreSeen-keeps (unsolicited line ∷ items) s t (u, _, _, sees, seen) h =
      AreSeen-keeps items (cbs.handle_urc line u) t seen
        (urc_keeps line u (subst I (ap (λ w. w.1) sees) (scan_keeps line s h)))

module _ {D : Type 0} (old : At D) where
  -- The channel is as before but for the driver's data.
  abbrev pub OnlyArg : Option (At D) → Type 0
  OnlyArg none = Unit
  OnlyArg (some at) = at ≡ record old { arg = at.arg }

  with_arg :
      (at : At D) (d : D)
      → at ≡ record old { arg = at.arg }
      → record at { arg = d } ≡ record old { arg = d }
  with_arg at d h = ap (λ (x : At D). record x { arg = d }) h

  pub scan-OnlyArg :
      (state : State) (line : Bytes) (s : Option (At D))
      → OnlyArg s
      → OnlyArg (classify parser_callbacks state line s).1
  unfolding classify parser_callbacks
  scan-OnlyArg state line none h = h
  scan-OnlyArg state line (some at) h =
      subst OnlyArg (sym (ap (λ x. x.1) (classify-first_known state line at))) (
        with_arg at
          (first_known (at.command_scanner ∷ driver_scanner at.cbs ∷ [])
            (generic_line_scanner line state) line at.arg).1
          h)

  urc-OnlyArg :
      (line : Bytes) (s : Option (At D)) → OnlyArg s → OnlyArg (parser_callbacks.handle_urc line s)
  unfolding parser_callbacks handle_urc
  urc-OnlyArg line none h = h
  urc-OnlyArg line (some at) h = go at.cbs
    where
      kept : (f : Option (ResponseHandler D)) → OnlyArg (some (run_urc_handler f line at))
      kept none = h
      kept (some f) = with_arg at (f line at.arg) h

      go :
          (x : Option (AtCallbacks D))
          → OnlyArg (elim x as (λ _. Option (At D)) [
            | none ↦ none
            | some cbs ↦ some (run_urc_handler cbs.handle_urc line at)
          ])
      go none = tt
      go (some cbs) = kept cbs.handle_urc

  pub AreSeen-OnlyArg :
      (items : List Item) (s t : Option (At D))
      → AreSeen parser_callbacks items s t
      → OnlyArg s
      → OnlyArg t
  AreSeen-OnlyArg items s t =
      AreSeen-keeps parser_callbacks OnlyArg (scan-OnlyArg readline) urc-OnlyArg items s t
