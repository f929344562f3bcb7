-- ===== src/Channel/Fixed.antt =====
-- Lines of which the scanners say the same whatever the driver's data.
use attentive.Base.{◌≡◌, ◌≢◌, refl, sym, ap, ◌∙◌, none, some, List, [], ◌∷◌}
use mathlib.Core.Path.{subst}
use attentive.Base.Text.{Bytes}
use attentive.Response
use attentive.Response.{ResponseType}
use attentive.Parser.{readline, generic_line_scanner}
use attentive.Parser.Lines.{IsPlain}
use attentive.Parser.Exchange.{Item, stored, unsolicited, AreSeen}
use attentive.Parser.Handled.{Sees}
use attentive.Channel.{At, AtCallbacks, parser_callbacks, driver_scanner}
use attentive.Channel.Scanning.{first_known, classify-first_known}
use attentive.Channel.Notices.{scanned, notified, with_data, urc-data}

module _ {D : Type 0} (cbs : AtCallbacks D) where
  -- A plain line that is not empty and has the type for a command without a scanner.
  pub record IsFixed (type : ResponseType) (line : Bytes) : Type 0 where
    pub plain : IsPlain line
    pub filled : line ≢ []
    pub same : (d : D) → scanned cbs none line d ≡ (type, d)

  abbrev pub AreFixed : List Item → Type 0
  AreFixed [] = Unit
  AreFixed (stored line ∷ items) = IsFixed Response.intermediate line × AreFixed items
  AreFixed (unsolicited line ∷ items) = IsFixed Response.urc line × AreFixed items

  -- The driver's data once the items have arrived.
  abbrev pub data_after : List Item → D → D
  data_after [] d = d
  data_after (stored line ∷ items) d = data_after items d
  data_after (unsolicited line ∷ items) d = data_after items (notified cbs.handle_urc line d)

  module _ (at : At D) (installed : at.cbs ≡ some cbs) (off : at.command_scanner ≡ none) where
    pub fixed-Sees :
        (type : ResponseType) (line : Bytes) (d : D)
        → IsFixed type line
        → Sees parser_callbacks type line (some (with_data at d)) (some (with_data at d))
    fixed-Sees type line d h =
        classify-first_known readline line (with_data at d)
        ∙ ap
            (λ x.
              let (t, e) =
                first_known (x ∷ driver_scanner at.cbs ∷ []) (generic_line_scanner line readline)
                  line d in
              (t, some (with_data at e)))
            off
        ∙ ap
            (λ x.
              let (t, e) =
                first_known (none ∷ driver_scanner x ∷ []) (generic_line_scanner line readline) line
                  d in
              (t, some (with_data at e)))
            installed
        ∙ ap (λ x. (x.0, some (with_data at x.1))) (h.same d)

    pub fixed-AreSeen :
        (items : List Item) (d : D)
        → AreFixed items
        → AreSeen parser_callbacks items
            (some (with_data at d))
            (some (with_data at (data_after items d)))
    fixed-AreSeen [] d h = refl
    fixed-AreSeen (stored line ∷ items) d (h, hs) =
        (_, h.plain, h.filled, fixed-Sees Response.intermediate line d h, fixed-AreSeen items d hs)
    fixed-AreSeen (unsolicited line ∷ items) d (h, hs) = (
      _,
      h.plain,
      h.filled,
      fixed-Sees Response.urc line d h,
      subst
          (λ x.
            AreSeen parser_callbacks items x
              (some (with_data at (data_after items (notified cbs.handle_urc line d)))))
          (sym (urc-data cbs line (with_data at d) installed))
          (fixed-AreSeen items (notified cbs.handle_urc line d) hs),
    )
