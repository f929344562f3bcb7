-- ===== src/Channel/Scanning.antt =====
-- Which scanner decides about a line.
use attentive.Base.{◌≡◌, Option, some, List, [], ◌∷◌, ◌==◌, if◌then◌else◌, arith}
use attentive.Base.Text.{Bytes}
use attentive.Response
use attentive.Response.{ResponseType}
use attentive.Parser.{State, LineScanner, generic_line_scanner, run_scanner}
use attentive.Parser.Feed.{classify}
use attentive.Channel.{At, driver_scanner, scan_line, parser_callbacks}

module _ {D : Type 0} where
  -- The scanners in turn, each on the state that the one before left: the first type that is not
  -- unknown, or else the type that is given.
  abbrev pub first_known :
      List (Option (LineScanner D)) → ResponseType → Bytes → D → ResponseType × D
  first_known [] type line d = (type, d)
  first_known (scanner ∷ scanners) type line d =
      let (t, d') = run_scanner scanner line d in
      if t == Response.unknown then first_known scanners type line d' else (t, d')

  -- The type of a line on a channel is the first that is not unknown of what the scanner of the
  -- command, the scanner of the driver and the generic scanner say; the scanners that were asked
  -- have seen the private state of the driver one after the other, and nothing else of the channel
  -- changes.
  pub classify-first_known :
      (state : State) (line : Bytes) (at : At D)
      → classify parser_callbacks state line (some at) ≡ (
          let (type, d) =
            first_known
              (at.command_scanner ∷ driver_scanner at.cbs ∷ [])
              (generic_line_scanner line state)
              line
              at.arg in
          (type, some (record at { arg = d })))
  unfolding classify parser_callbacks scan_line
  classify-first_known state line at = ground arith
