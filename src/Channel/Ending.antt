-- ===== src/Channel/Ending.antt =====
-- The answer of a modem to a command, as the callbacks of the channel take it.
use attentive.Base.{true, false, ◌<◌, ◌≢◌, refl, ap, ℕ, some, List, [], length}
use mathlib.Core.Path.{subst}
use attentive.Base.Text.{Bytes}
use attentive.Response.{ResponseType}
use attentive.Parser.{readline}
use attentive.Parser.Lines.{IsPlain, wire}
use attentive.Parser.Handled.{Sees}
use attentive.Parser.Exchange.{Item, send, AreSeen}
use attentive.Channel.{At, parser_callbacks}
use attentive.Channel.Argument.{OnlyArg, AreSeen-OnlyArg, scan-OnlyArg}

module _ {D : Type 0} where
  pub scanned-OnlyArg :
      (type : ResponseType) (items : List Item) (last : Bytes) (at at1 at2 : At D)
      → AreSeen parser_callbacks items (some at) (some at1)
      → Sees parser_callbacks type last (some at1) (some at2)
      → OnlyArg at (some at1) × OnlyArg at (some at2)
  scanned-OnlyArg type items last at at1 at2 seen sees =
      let only = AreSeen-OnlyArg at items (some at) (some at1) seen refl in
      (
        only,
        subst (OnlyArg at) (ap (λ w. w.1) sees) (scan-OnlyArg at readline last (some at1) only),
      )

  -- Lines that the callbacks take for intermediate or URC lines, then a line of the type, all plain
  -- and shorter than the buffer, and the channel as the scanners leave it.
  pub record Ending (start : At D) (size : ℕ) (type : ResponseType) (items : List Item)
      (last : Bytes) (at : At D) : Type 0 where
    pub before : At D
    pub seen : AreSeen parser_callbacks items (some start) (some before)
    pub sees : Sees parser_callbacks type last (some before) (some at)
    pub plain : IsPlain last
    pub filled : last ≢ []
    pub fits : length (send items (wire last [])) < size

  -- The channel's part once the handler has had the text.
  abbrev pub handled : Bytes → At D → At D
  handled text at = record at { response = some text; waiting = false; signalled = true }
