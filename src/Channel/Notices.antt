-- ===== src/Channel/Notices.antt =====
-- A driver's callbacks on a channel, and the notices that its code reads them as.
use attentive.Base.{◌≡◌, ◌≢◌, refl, sym, ap, ◌∙◌, Option, none, some, List, [], ◌∷◌, ◌++◌, arith}
use mathlib.Core.Path.{subst}
use attentive.Base.Text.{Bytes}
use attentive.Response
use attentive.Response.{ResponseType}
use attentive.Parser.{readline, LineScanner, ResponseHandler, generic_line_scanner}
use attentive.Parser.Exchange.{Item, stored, unsolicited, AreSeen}
use attentive.Parser.Handled.{Sees}
use attentive.Channel.{
  At, AtCallbacks, parser_callbacks, driver_scanner, handle_urc, run_urc_handler,
}
use attentive.Channel.Scanning.{first_known, classify-first_known}
use attentive.Modem.{Action, Notice, notice_all}

abbrev pub unsolicited_lines : List Item → List Bytes
unsolicited_lines [] = []
unsolicited_lines (stored line ∷ items) = unsolicited_lines items
unsolicited_lines (unsolicited line ∷ items) = line ∷ unsolicited_lines items

module _ {D : Type 0} where
  -- What the scanners of a command and of a driver make of a line of a response.
  abbrev pub scanned : AtCallbacks D → Option (LineScanner D) → Bytes → D → ResponseType × D
  scanned cbs scanner line d =
      first_known (scanner ∷ cbs.scan_line ∷ []) (generic_line_scanner line readline) line d

  abbrev pub notified : Option (ResponseHandler D) → Bytes → D → D
  notified none line d = d
  notified (some handler) line d = handler line d

  -- The callbacks do to the driver's data what the notice says for a URC line, and nothing for
  -- another line.
  pub record Matches (cbs : AtCallbacks D) (scanner : Option (LineScanner D)) (notice : Notice D)
      : Type 0 where
    pub urc :
        (line : Bytes) (d : D)
        → (scanned cbs scanner line d).0 ≡ Response.urc
        → notified cbs.handle_urc line (scanned cbs scanner line d).1 ≡ (notice line d).0
    pub other :
        (line : Bytes) (d : D)
        → (scanned cbs scanner line d).0 ≢ Response.urc
        → (scanned cbs scanner line d).1 ≡ d

  -- The channel with other data of the driver.
  abbrev pub with_data : At D → D → At D
  with_data at d = record at { arg = d }

  module _ (cbs : AtCallbacks D) where
    scan-data :
        (type : ResponseType) (line : Bytes) (at : At D) (u : Option (At D))
        → at.cbs ≡ some cbs
        → Sees parser_callbacks type line (some at) u
        → ((scanned cbs at.command_scanner line at.arg).0 ≡ type)
          × (u ≡ some (with_data at (scanned cbs at.command_scanner line at.arg).1))
    scan-data type line at u installed sees =
        let e : (type, u) ≡ (
          (scanned cbs at.command_scanner line at.arg).0,
          some (with_data at (scanned cbs at.command_scanner line at.arg).1),
        ) =
          sym sees
          ∙ classify-first_known readline line at
          ∙ ap
              (λ x.
                let (t, d) =
                  first_known (at.command_scanner ∷ driver_scanner x ∷ [])
                    (generic_line_scanner line readline) line at.arg in
                (t, some (with_data at d)))
              installed in
        (sym (ap (λ w. w.0) e), ap (λ w. w.1) e)

    pub urc-data :
        (line : Bytes) (at : At D)
        → at.cbs ≡ some cbs
        → parser_callbacks.handle_urc line (some at)
          ≡ some (with_data at (notified cbs.handle_urc line at.arg))
    unfolding parser_callbacks handle_urc
    urc-data line at installed =
        ap
          (λ x. elim x as (λ _. Option (At D)) [
            | none ↦ none
            | some c ↦ some (run_urc_handler c.handle_urc line at)
          ])
          installed
        ∙ kept cbs.handle_urc
      where
        kept :
            (f : Option (ResponseHandler D))
            → ◌≡◌ {A = Option (At D)}
                (some (run_urc_handler f line at))
                (some (with_data at (notified f line at.arg)))
        kept none = refl
        kept (some f) = refl

    pub AreSeen-notices :
        (notice : Notice D) (items : List Item) (log : List Action) (at after : At D)
        → Matches cbs at.command_scanner notice
        → at.cbs ≡ some cbs
        → AreSeen parser_callbacks items (some at) (some after)
        → after.arg ≡ (notice_all notice (unsolicited_lines items) at.arg log).0
    unfolding notice_all
    AreSeen-notices notice [] log at after m installed seen = cc
    AreSeen-notices notice (stored line ∷ items) log at after m installed (u, p, n, sees, seen) =
        let (type, data_) = scan-data Response.intermediate line at u installed sees in
        let same = m.other line at.arg (λ e. omega (arith, type, e)) in
        AreSeen-notices notice items log at after m installed (
          subst (λ x. AreSeen parser_callbacks items x (some after))
            (data_ ∙ ap (λ d. some (with_data at d)) same) seen)
    AreSeen-notices notice (unsolicited line ∷ items) log at after m installed
          (u, p, n, sees, seen) =
        let (type, data_) = scan-data Response.urc line at u installed sees in
        let d = (scanned cbs at.command_scanner line at.arg).1 in
        AreSeen-notices notice items ((notice line at.arg).1 ++ log)
          (with_data at (notice line at.arg).0) after m installed
          (subst (λ x. AreSeen parser_callbacks items x (some after))
            (ap (λ x. parser_callbacks.handle_urc line x) data_
              ∙ urc-data line (with_data at d) installed
              ∙ ap (λ d. some (with_data at d)) (m.urc line at.arg type))
            seen)

    -- A line of another type than a URC leaves the data alone.
    pub scan-keeps_data :
        (notice : Notice D) (type : ResponseType) (line : Bytes) (at after : At D)
        → Matches cbs at.command_scanner notice
        → at.cbs ≡ some cbs
        → type ≢ Response.urc
        → Sees parser_callbacks type line (some at) (some after)
        → after.arg ≡ at.arg
    scan-keeps_data notice type line at after m installed ne sees =
        let (e, data_) = scan-data type line at (some after) installed sees in
        let same = m.other line at.arg (λ k. ne (sym e ∙ k)) in
        let whole : after ≡ with_data at (scanned cbs at.command_scanner line at.arg).1 = cc in
        ap (λ (x : At D). x.arg) whole ∙ same
