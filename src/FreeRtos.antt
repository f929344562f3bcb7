-- ===== src/FreeRtos.antt =====
-- The AT channel on FreeRTOS (src/at-freertos.c): what each task does with the state up to the next
-- point where another may come in between. There is no mutex. The task that reads has a higher priority
-- than those that call, so a byte is fed in one piece, while the calls are cut where the reader can come
-- in between with an effect.
pub mod Step
pub mod Races
pub mod Reset
pub mod Delivery
pub mod Exchange
pub mod Answer
use attentive.Base.{
  ◌>>=◌, ℕ, zero, suc, Bool, true, false, not, ◌&&◌, ◌||◌, Option, none, some, List, [], ◌∷◌, ◌++◌,
  leb, if◌then◌else◌, length,
}
use attentive.Base.Text.{Bytes}
use attentive.Parser.{
  CharacterHandler, Parser, idle, at_parser_set_character_handler, at_parser_await_response,
  at_parser_alloc, at_parser_expect_dataprompt,
}
use attentive.Channel.{At, feed_byte, response_text, at_set_command_scanner}

-- The calls of the driver of the serial port, each with whether the descriptor is not NULL.
pub data Call : Type 0 where
  write_to : Bool → Bytes → Call
  read_from close_of : Bool → Call

-- Where the reader stands: at the top of its loop; in the call of `FreeRTOS_read`; with a byte to feed;
-- deleted.
pub data Reader : Type 0 where
  testing reading deleted : Reader
  holding : ℕ → Reader

-- The fields that `at_parser_reset` sets, in its order.
pub data Field : Type 0 where
  state expect_dataprompt buf_used buf_current data_left character_handler : Field

-- Where the task that issues commands stands: outside, with what the last command returned; in
-- `_at_command` behind the write; behind `waiting = true`; at the test of the loop, with `timeout`; in
-- the wait for the semaphore; in `at_parser_reset`, before the assignment to a field; behind that, with
-- what `result` points to.
pub data Client : Type 0 where
  outside : Option Bytes → Client
  sent armed : Client
  looping taking : ℕ → Client
  resetting : Field → Client
  leaving : Option Bytes → Client

-- Where the task that opens and closes stands: outside; in `at_close` behind `open = false`, called by
-- itself or by `at_free`; in `at_free` behind `at_close`; behind `at_free`.
pub data Control : Type 0 where
  outside stopping freed : Control
  closing : Bool → Control

-- `struct at_freertos`. `uart` tells whether the descriptor is not NULL. `log` has the calls of the
-- driver of the port, the last first. The semaphore is `signalled` in `at`.
pub record FreeRtos (D : Type 0) : Type 0 where
  pub parser : Parser (Option (At D))
  pub at : At D
  pub timeout : ℕ
  pub uart : Bool
  pub running : Bool
  pub open_ : Bool
  pub busy : Bool
  pub log : List Call
  pub reader : Reader
  pub client : Client
  pub control : Control

abbrev pub after_close : Bool → Control
after_close freeing = if freeing then Control.stopping else Control.outside

abbrev pub after_read : Option ℕ → Reader
after_read none = testing
after_read (some c) = holding c

-- The assignment behind one of `at_parser_reset`.
unfoldable pub after_field : Field → Client
after_field Field.state = resetting Field.expect_dataprompt
after_field Field.expect_dataprompt = resetting Field.buf_used
after_field Field.buf_used = resetting Field.buf_current
after_field Field.buf_current = resetting Field.data_left
after_field Field.data_left = resetting Field.character_handler
after_field Field.character_handler = leaving none

module _ {D : Type 0} where
  -- A zeroed struct with its parser, and the reader about to start.
  abbrev pub new_channel : D → Parser (Option (At D)) → FreeRtos D
  new_channel arg p = record {
    parser = p;
    at = record {
      cbs = none;
      arg = arg;
      command_scanner = none;
      response = none;
      waiting = false;
      signalled = false;
    };
    timeout = 0;
    uart = false;
    running = true;
    open_ = false;
    busy = false;
    log = [];
    reader = Reader.testing;
    client = Client.outside none;
    control = Control.outside;
  }

  -- `at_alloc_freertos`, given memory for the struct itself: `raw` and `mem` are what `malloc` returned
  -- for the parser and for its buffer.
  unfoldable pub at_alloc_freertos :
      D → Option (Parser (Option (At D))) → Option Bytes → Option (FreeRtos D)
  at_alloc_freertos arg raw mem = do p ← at_parser_alloc raw mem 512; some (new_channel arg p)

  -- The loop of `at_reader_thread` from its top to the call of `FreeRTOS_read`; the delay leads back to
  -- the top. The tasks of a lower priority cannot come in between.
  unfoldable pub reader_test : FreeRtos D → FreeRtos D
  reader_test s =
      if not s.running || not s.open_
      then s
      else record s { busy = true; log = read_from s.uart ∷ s.log; reader = reading }

  -- What it returned.
  unfoldable pub reader_return : Option ℕ → FreeRtos D → FreeRtos D
  reader_return input s = record s { busy = false; reader = after_read input }

  unfoldable pub reader_feed : ℕ → FreeRtos D → Option (FreeRtos D)
  reader_feed c s = do
    (q, at) ← feed_byte c s.parser s.at
    some (record s { parser = q; at = at; reader = testing })

  -- `_at_command` up to the write.
  unfoldable pub command_begin : Bytes → FreeRtos D → FreeRtos D
  command_begin bytes s = if not s.open_ then record s { client = outside none } else record s {
    parser = at_parser_await_response s.parser;
    log = write_to s.uart bytes ∷ s.log;
    client = sent;
  }

  -- `AT_COMMAND_LENGTH` is 80.
  unfoldable pub at_command : Bytes → FreeRtos D → FreeRtos D
  unfolding command_begin
  at_command line s =
      if leb 79 (length line)
      then record s { client = outside none }
      else command_begin (line ++ (b'\r' ∷ [])) s

  abbrev pub at_command_raw : Bytes → FreeRtos D → FreeRtos D
  at_command_raw bytes s = command_begin bytes s

  unfoldable pub command_arm : FreeRtos D → FreeRtos D
  command_arm s = record s { at = record (s.at) { waiting = true }; client = armed }

  -- The semaphore is taken if it is given, and the loop begins.
  unfoldable pub command_drain : FreeRtos D → FreeRtos D
  command_drain s = record s {
    at = record (s.at) { signalled = false };
    client = looping s.timeout;
  }

  -- Where `_at_command` goes on behind its loop.
  unfoldable pub after_loop : FreeRtos D → Client
  after_loop s =
      if not s.open_
      then leaving none
      else if s.at.waiting
      then resetting Field.state
      else leaving s.at.response

  unfoldable pub command_leave : FreeRtos D → FreeRtos D
  unfolding after_loop
  command_leave s = record s { client = after_loop s }

  -- One assignment of `at_parser_reset`.
  unfoldable pub reset_field : Field → Parser (Option (At D)) → Parser (Option (At D))
  reset_field Field.state p = record p { state = idle }
  reset_field Field.expect_dataprompt p = record p { expect_dataprompt = false }
  reset_field Field.buf_used p = record p { buf_used = 0 }
  reset_field Field.buf_current p = record p { buf_current = 0 }
  reset_field Field.data_left p = record p { data_left = 0 }
  reset_field Field.character_handler p = record p { character_handler = none }

  unfoldable pub command_reset : Field → FreeRtos D → FreeRtos D
  command_reset field s = record s {
    parser = reset_field field s.parser;
    client = after_field field;
  }

  -- The end of `_at_command`. The text behind `result` is the one that stands there then.
  unfoldable pub command_return : Option Bytes → FreeRtos D → FreeRtos D
  command_return result s = record s {
    at = at_set_command_scanner none s.at;
    client = outside (response_text result s.parser);
  }

  -- The test of the loop.
  unfoldable pub command_test : ℕ → FreeRtos D → FreeRtos D
  unfolding command_leave
  command_test zero s = command_leave s
  command_test (suc n) s =
      if s.open_ && s.at.waiting then record s { client = taking n } else command_leave s

  -- The semaphore was given: the loop ends.
  unfoldable pub command_taken : FreeRtos D → FreeRtos D
  unfolding command_leave
  command_taken s = command_leave (record s { at = record (s.at) { signalled = false } })

  -- `_at_send`
  unfoldable pub send_bytes : Bytes → FreeRtos D → Bool × FreeRtos D
  send_bytes bytes s =
      if not s.open_ then (false, s) else (true, record s { log = write_to s.uart bytes ∷ s.log })

  unfoldable pub at_send : Bytes → FreeRtos D → Bool × FreeRtos D
  unfolding send_bytes
  at_send line s = if leb 79 (length line) then (false, s) else send_bytes (line ++ (b'\r' ∷ [])) s

  abbrev pub at_send_raw : Bytes → FreeRtos D → Bool × FreeRtos D
  at_send_raw bytes s = send_bytes bytes s

  -- `at_open`, with whether `FreeRTOS_open` gave a descriptor.
  unfoldable pub at_open : Bool → FreeRtos D → FreeRtos D
  at_open opened s =
      if opened
      then record s { uart = true; open_ = true; at = record (s.at) { signalled = false } }
      else record s { uart = false }

  -- `at_close` up to `FreeRTOS_close`.
  unfoldable pub at_close : Bool → FreeRtos D → FreeRtos D
  at_close freeing s = record s { open_ = false; control = closing freeing }

  unfoldable pub close_end : Bool → FreeRtos D → FreeRtos D
  close_end freeing s = record s {
    log = close_of s.uart ∷ s.log;
    uart = false;
    control = after_close freeing;
  }

  -- `at_free` behind `at_close`.
  unfoldable pub free_stop : FreeRtos D → FreeRtos D
  free_stop s = record s { running = false; reader = deleted; control = freed }

  unfoldable pub at_set_timeout : ℕ → FreeRtos D → FreeRtos D
  at_set_timeout timeout s = record s { timeout = timeout }

  unfoldable pub at_set_character_handler :
      Option (CharacterHandler (Option (At D))) → FreeRtos D → FreeRtos D
  at_set_character_handler handler s = record s {
    parser = at_parser_set_character_handler s.parser handler;
  }

  unfoldable pub at_expect_dataprompt : FreeRtos D → FreeRtos D
  at_expect_dataprompt s = record s { parser = at_parser_expect_dataprompt s.parser }
