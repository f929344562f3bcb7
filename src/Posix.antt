-- ===== src/Posix.antt =====
-- The AT channel on POSIX (src/at-unix.c): what each thread does with the state between two points
-- where it lets go of the mutex. A thread that holds the mutex is not interrupted, so such a piece is
-- one function. Three threads use a channel: the reader, one that issues commands and one that opens,
-- closes and frees.
pub mod Step
pub mod Parsing
pub mod Agrees
pub mod Invariant
pub mod Close
pub mod Strand
pub mod Late
pub mod Delivery
pub mod Exchange
pub mod Answer
pub mod Expired
pub mod Served
pub mod Refines
pub mod Script
pub mod Free
pub mod Waits
pub mod Answered
use attentive.Base.{
  ◌>>=◌, ℕ, Bool, true, false, not, ◌&&◌, Option, none, some, List, [], ◌∷◌, ◌++◌, leb,
  if◌then◌else◌, length,
}
use attentive.Base.Text.{Bytes}
use attentive.Parser.{
  LineScanner, Parser, at_parser_await_response, at_parser_reset, at_parser_alloc,
  at_parser_expect_dataprompt,
}
use attentive.Channel.{At, AtCallbacks, feed_byte, response_text, at_set_command_scanner}

-- What `read` returned: a byte, -1 with EINTR, or another error or the end of the file.
pub data Input : Type 0 where
  byte : ℕ → Input
  interrupted ended : Input

-- Where the reader stands. It tests the flags at the top of its loop, or is parked in the wait there;
-- it reads; it has a result to report; it has a byte to feed; it has returned.
pub data Reader : Type 0 where
  testing parked reading finished : Reader
  reporting : Input → Reader
  holding : ℕ → Reader

-- Where the thread that issues commands stands: outside, with what the last command returned; parked in
-- the wait of `_at_command`; or awake in it, with the loop's test ahead.
pub data Client : Type 0 where
  outside : Option Bytes → Client
  parked awake : Client

-- Where the thread that opens and closes stands: outside; parked in the wait of `at_close`, or awake in
-- it, called by itself or by `at_free`; in `at_free` behind `at_close`; in `pthread_join`; behind it.
pub data Control : Type 0 where
  outside stopping joining freed : Control
  parked awake : Bool → Control

-- `struct at_unix`. `fd` tells whether the descriptor is valid, `sent` is what was written to it, the
-- last first.
pub record Posix (D : Type 0) : Type 0 where
  pub parser : Parser (Option (At D))
  pub at : At D
  pub timeout : ℕ
  pub fd : Bool
  pub running : Bool
  pub open_ : Bool
  pub busy : Bool
  pub sent : List Bytes
  pub reader : Reader
  pub client : Client
  pub control : Control

-- `at_close` called by itself goes back to its caller, and else on in `at_free`.
abbrev pub after_close : Bool → Control
after_close freeing = if freeing then Control.stopping else Control.outside

abbrev pub after_input : Input → Reader
after_input (byte c) = holding c
after_input interrupted = testing
after_input ended = finished

module _ {D : Type 0} where
  -- A zeroed struct with its parser, and the reader about to start.
  abbrev pub new_channel : D → Parser (Option (At D)) → Posix D
  new_channel arg p = record {
    parser = p;
    at = record {
      cbs = none;
      arg = arg;
      command_scanner = none;
      response = none;
      waiting = false;
      signalled = false;
    };
    timeout = 0;
    fd = false;
    running = true;
    open_ = false;
    busy = false;
    sent = [];
    reader = Reader.testing;
    client = Client.outside none;
    control = Control.outside;
  }

  -- `at_alloc_unix`, given memory for the struct itself: `raw` and `mem` are what `malloc` returned for
  -- the parser and for its buffer.
  unfoldable pub at_alloc_unix :
      D → Option (Parser (Option (At D))) → Option Bytes → Option (Posix D)
  at_alloc_unix arg raw mem = do p ← at_parser_alloc raw mem 256; some (new_channel arg p)

  -- The top of the loop of `at_reader_thread`, up to the `read`.
  unfoldable pub reader_test : Posix D → Posix D
  reader_test s =
      if s.running && not s.open_
      then record s { reader = parked }
      else if not s.running
      then record s { reader = finished }
      else record s { busy = true; reader = reading }

  -- Behind the `read`: the descriptor is free again. A signal follows.
  unfoldable pub reader_report : Input → Posix D → Posix D
  reader_report input s = record s { busy = false; reader = after_input input }

  -- The byte is fed to the parser, under the mutex.
  unfoldable pub reader_feed : ℕ → Posix D → Option (Posix D)
  reader_feed c s = do
    (q, at) ← feed_byte c s.parser s.at
    some (record s { parser = q; at = at; reader = testing })

  -- What `_at_command` returns, from the flags.
  unfoldable pub command_result : Posix D → Option Bytes
  command_result s =
      if not s.open_
      then none
      else if s.at.waiting
      then none
      else response_text s.at.response s.parser

  -- `_at_command` behind its wait: the parser is reset where the wait timed out.
  unfoldable pub command_end : Posix D → Posix D
  unfolding command_result
  command_end s = record s {
    parser = if s.open_ && s.at.waiting then at_parser_reset s.parser else s.parser;
    at = at_set_command_scanner none s.at;
    client = outside (command_result s);
  }

  -- The test of its loop, after a wake-up.
  unfoldable pub command_test : Posix D → Posix D
  unfolding command_end
  command_test s = if s.open_ && s.at.waiting then record s { client = parked } else command_end s

  -- `_at_command` up to its wait. A wait follows at once, since both flags are set.
  unfoldable pub command_begin : Bytes → Posix D → Posix D
  command_begin bytes s = if not s.open_ then record s { client = outside none } else record s {
    parser = at_parser_await_response s.parser;
    sent = bytes ∷ s.sent;
    at = record (s.at) { waiting = true };
    client = parked;
  }

  -- `AT_COMMAND_LENGTH` is 80.
  unfoldable pub at_command : Bytes → Posix D → Posix D
  unfolding command_begin
  at_command line s =
      if leb 79 (length line)
      then record s { client = outside none }
      else command_begin (line ++ (b'\r' ∷ [])) s

  abbrev pub at_command_raw : Bytes → Posix D → Posix D
  at_command_raw bytes s = command_begin bytes s

  -- `at_open`, with what `open` returned. Where the channel is opened a signal follows.
  unfoldable pub at_open : Bool → Posix D → Posix D
  at_open opened s =
      if s.open_
      then s
      else if opened
      then record s { fd = true; open_ = true }
      else record s { fd = false }

  -- `at_close` behind its wait.
  unfoldable pub close_end : Bool → Posix D → Posix D
  close_end freeing s = record s { fd = false; control = after_close freeing }

  -- The test of its loop.
  unfoldable pub close_test : Bool → Posix D → Posix D
  unfolding close_end
  close_test freeing s =
      if s.busy then record s { control = Control.parked freeing } else close_end freeing s

  unfoldable pub at_close : Bool → Posix D → Posix D
  unfolding close_test
  at_close freeing s =
      if not s.open_
      then record s { control = after_close freeing }
      else close_test freeing (record s { open_ = false })

  -- `at_free` behind `at_close`, up to the `pthread_join`.
  unfoldable pub free_stop : Posix D → Posix D
  free_stop s = record s { running = false; control = Control.joining }

  unfoldable pub at_set_timeout : ℕ → Posix D → Posix D
  at_set_timeout timeout s = record s { timeout = timeout }

  unfoldable pub at_expect_dataprompt : Posix D → Posix D
  at_expect_dataprompt s = record s { parser = at_parser_expect_dataprompt s.parser }
