-- ===== src/Examples/Conversations.antt =====
-- Whole conversations with a modem behind a channel on POSIX.
use attentive.Base.{◌++◌, ◌≡◌, refl, true, none, some, List, [], ◌∷◌, arith}
use attentive.Base.Text.{codes, starts_with, same_bytes}
use attentive.CString.{c_string}
use attentive.Response
use attentive.Parser.{generic_line_scanner, at_prefix_in_table}
use attentive.Examples.{is_plain-IsPlain, cons_ne}
use attentive.Parser.Exchange.{Item, stored, unsolicited}
use attentive.Channel.{At}
use attentive.Channel.Notices.{Matches}
use attentive.Channel.Fixed.{fixed-AreSeen, IsFixed}
use attentive.Modem
use attentive.Modem.{Action, Notice, Reply, World, done}
use attentive.FreeRtos
use attentive.FreeRtos.{FreeRtos}
use attentive.FreeRtos.Exchange
use attentive.FreeRtos.Answer.{ok-delivery}
use attentive.Posix.{Posix}
use attentive.Posix.Step.{RunOn}
use attentive.Posix.Exchange.{Idle, Returns}
use attentive.Posix.Answer.{EndsWith, ok-exchange}
use attentive.Posix.Expired.{expired-exchange}
use attentive.Posix.Served.{Serves, served, accepts}
use attentive.Posix.Refines.{Related, at_command-Related}
use attentive.Posix.Script.{fixed-EndsWith}
use attentive.Examples.Threads.{D, driver, parser, parser-IsReady, ready}

ready-Idle : Idle driver none ready
ready-Idle = record {
  running = refl;
  open_ = refl;
  reader = refl;
  client = refl;
  control = refl;
  quiet = refl;
  installed = refl;
  ready = parser-IsReady;
}

-- A call comes in, and the signal is 7.
abbrev items : List Item
items = unsolicited (codes "RING") ∷ stored (codes "7") ∷ []

ring : IsFixed driver Response.urc (codes "RING")
unfolding generic_line_scanner at_prefix_in_table starts_with same_bytes
ring = record { plain = is_plain-IsPlain (codes "RING") refl; filled = cons_ne; same = λ d. refl }

seven : IsFixed driver Response.intermediate (codes "7")
unfolding generic_line_scanner at_prefix_in_table starts_with same_bytes
seven = record { plain = is_plain-IsPlain (codes "7") refl; filled = cons_ne; same = λ d. refl }

ok_line : IsFixed driver Response.final_ok (codes "OK")
unfolding generic_line_scanner at_prefix_in_table starts_with same_bytes
ok_line = record { plain = is_plain-IsPlain (codes "OK") refl; filled = cons_ne; same = λ d. refl }

abbrev notice : Notice D
notice line d = (line ∷ d, [])

-- The URC handler has had the call.
abbrev rung : At D
rung = record (ready.at) { waiting = true; arg = codes "RING" ∷ [] }

ready-EndsWith : EndsWith ready Response.final_ok items (codes "OK") rung
ready-EndsWith =
    fixed-EndsWith driver 16 Response.final_ok items (codes "OK") none ready (ring, (seven, tt))
      ok_line (omega arith) ready-Idle refl refl

ok-exchange_example :
    (t : Posix D) × Returns driver
      (codes "AT")
      (codes "RING\r\n7\r\nOK\r\n")
      ready
      (codes "7")
      (codes "RING" ∷ [])
      t
ok-exchange_example =
    ok-exchange driver (codes "AT") none ready items (codes "OK") rung ready-Idle (omega arith)
      ready-EndsWith

driver-Matches : Matches driver none notice
driver-Matches = record { urc = λ line d e. refl; other = λ line d e. refl }

abbrev reply : Reply
reply = record { response = some (codes "7"); lines = codes "RING" ∷ [] }

abbrev world : World D
world = record {
  script = reply ∷ [];
  log = [];
  command_scanner = none;
  modem = record { attached = true; apn = []; pdp_failures = 0; pdp_threshold = 3 };
  dev = [];
}

ready-Related : Related driver none world ready
ready-Related = record { idle = ready-Idle; dev = refl; scanner = refl; sent = refl }

ready-Serves : Serves ready reply
unfolding c_string
ready-Serves = accepts items (codes "OK") rung ready-EndsWith refl refl

at_command-Related_example :
    (t : Posix D) × (v : World D) × (Modem.at_command notice (codes "AT") world
      ≡ (done reply.response, v))
    × (v.script ≡ [])
    × (v.command_scanner ≡ none)
    × RunOn ready (codes "RING\r\n7\r\nOK\r\n") t
    × Related driver reply.response v t
    × (t.timeout ≡ 0)
    × (t.parser.buf_size ≡ 16)
unfolding served ready-Serves
at_command-Related_example =
    at_command-Related driver notice (λ line d. refl) (codes "AT") none reply [] world ready
      ready-Related driver-Matches refl (omega arith) ready-Serves

-- The same on FreeRTOS, with a timeout of one round and the semaphore given from before.
abbrev task : FreeRtos D
task = record (FreeRtos.new_channel [] parser) {
  at = record (ready.at) { signalled = true };
  timeout = 1;
  uart = true;
  open_ = true;
}

task-Idle : FreeRtos.Exchange.Idle driver none task
task-Idle = record {
  running = refl;
  open_ = refl;
  reader = refl;
  client = refl;
  installed = refl;
  ready = parser-IsReady;
  limited = omega arith;
}

ok-delivery_example :
    (t : FreeRtos D) × FreeRtos.Exchange.Returns driver
      (codes "AT")
      (codes "RING\r\n7\r\nOK\r\n")
      task
      (codes "7")
      (codes "RING" ∷ [])
      t
ok-delivery_example =
    ok-delivery driver (codes "AT") none task items (codes "OK") rung task-Idle (omega arith)
      ready-EndsWith

-- The channel with a timeout.
abbrev hurried : Posix D
hurried = record ready { timeout = 3 }

hurried-Idle : Idle driver none hurried
hurried-Idle = record {
  running = refl;
  open_ = refl;
  reader = refl;
  client = refl;
  control = refl;
  quiet = refl;
  installed = refl;
  ready = parser-IsReady;
}

-- The modem stops in the middle of a line.
expired-exchange_example :
    (t : Posix D) × RunOn hurried (codes "RING\r\n7\r\nO") t
    × Idle driver none t
    × (t.at
        ≡ record (hurried.at) { arg = codes "RING" ∷ []; command_scanner = none; waiting = true })
    × (t.sent ≡ (codes "AT" ++ (b'\r' ∷ [])) ∷ hurried.sent)
    × (t.timeout ≡ hurried.timeout)
    × (t.parser.buf_size ≡ hurried.parser.buf_size)
expired-exchange_example =
    expired-exchange driver (codes "AT") none hurried items (codes "O") rung hurried-Idle
      (omega arith) (omega arith)
      (fixed-AreSeen driver (record (ready.at) { waiting = true }) refl refl items []
        (ring, (seven, tt)))
      (is_plain-IsPlain (codes "O") refl) (omega arith)
