-- ===== src/Channel.antt =====
-- What the two implementations of the AT channel share (include/attentive/at.h, and the callbacks and
-- setters that stand alike in src/at-unix.c and src/at-freertos.c).
pub mod Scanning
pub mod Driver
pub mod Shown
pub mod Answers
pub mod Fed
pub mod Argument
pub mod Ending
pub mod Notices
pub mod Fixed
use attentive.Base.{ℕ, Bool, true, false, Option, none, some, List, [], ◌∷◌, ◌==◌, if◌then◌else◌}
use attentive.Base.Text.{Bytes}
use attentive.Response
use attentive.Response.{ResponseType}
use attentive.CString.{c_string}
use attentive.Parser.{Callbacks, LineScanner, Parser, ResponseHandler, run_scanner}
use attentive.Parser.Feed.{at_parser_feed}

-- `struct at_callbacks`
pub record AtCallbacks (D : Type 0) : Type 0 where
  pub scan_line : Option (LineScanner D)
  pub handle_urc : Option (ResponseHandler D)

-- `struct at` without its parser, and the members of the implementations that the callbacks of the
-- parser write. `arg` stands for what the pointer points to. `response` is NULL or the start of the
-- parser's buffer, as it is set, with the text that stands there; `signalled` is the condition
-- variable or the semaphore.
pub record At (D : Type 0) : Type 0 where
  pub cbs : Option (AtCallbacks D)
  pub arg : D
  pub command_scanner : Option (LineScanner D)
  pub response : Option Bytes
  pub waiting : Bool
  pub signalled : Bool

module _ {D : Type 0} where
  unfoldable pub handle_response : Bytes → At D → At D
  handle_response buf at = record at { response = some buf; waiting = false; signalled = true }

  abbrev pub run_urc_handler : Option (ResponseHandler D) → Bytes → At D → At D
  run_urc_handler none buf at = at
  run_urc_handler (some handler) buf at = record at { arg = handler buf at.arg }

  -- `at->cbs->handle_urc`, which faults where `cbs` is NULL.
  unfoldable pub handle_urc : Bytes → At D → Option (At D)
  handle_urc buf at = elim at.cbs [
    | none ↦ none
    | some cbs ↦ some (run_urc_handler cbs.handle_urc buf at)
  ]

  abbrev pub driver_scanner : Option (AtCallbacks D) → Option (LineScanner D)
  driver_scanner none = none
  driver_scanner (some cbs) = cbs.scan_line

  unfoldable pub scan_line : Bytes → At D → ResponseType × At D
  scan_line line at =
      let (type, arg) = run_scanner at.command_scanner line at.arg in
      if type == Response.unknown
      then (let (type', arg') = run_scanner (driver_scanner at.cbs) line arg in
          (type', record at { arg = arg' }))
      else (type, record at { arg = arg })

  -- The private state of the parser is `none` once a callback has faulted.
  abbrev pub with_at : (At D → Option (At D)) → Option (At D) → Option (At D)
  with_at f none = none
  with_at f (some at) = f at

  abbrev pub scan_with_at : Bytes → Option (At D) → ResponseType × Option (At D)
  scan_with_at line none = (Response.unknown, none)
  scan_with_at line (some at) = let (type, at') = scan_line line at in (type, some at')

  unfoldable pub parser_callbacks : Callbacks (Option (At D))
  unfolding handle_response handle_urc scan_line
  parser_callbacks = record {
    scan_line = some scan_with_at;
    handle_response = λ buf. with_at (λ at. some (handle_response buf at));
    handle_urc = λ buf. with_at (handle_urc buf);
  }

  -- `at_parser_feed` of one byte, as the readers call it; `none` is a fault.
  unfoldable pub feed_byte :
      ℕ → Parser (Option (At D)) → At D → Option (Parser (Option (At D)) × At D)
  feed_byte c p at = elim (at_parser_feed parser_callbacks p (some at) (c ∷ [])) [
    | none ↦ none
    | some (q, x) ↦ elim x [ none ↦ none | some at' ↦ some (q, at') ]
  ]

  -- The text that the pointer `response` shows: the C string at the start of the buffer, as it is now.
  abbrev pub response_text : Option Bytes → Parser (Option (At D)) → Option Bytes
  response_text none p = none
  response_text (some _) p = some (c_string p.buf)

  unfoldable pub at_set_callbacks : Option (AtCallbacks D) → D → At D → At D
  at_set_callbacks cbs arg at = record at { cbs = cbs; arg = arg }

  unfoldable pub at_set_command_scanner : Option (LineScanner D) → At D → At D
  at_set_command_scanner scanner at = record at { command_scanner = scanner }
