-- ===== src/Examples/Tasks.antt =====
-- The channel on FreeRTOS, in a buffer of sixteen bytes, in some orders of its tasks.
use attentive.Base.{arith, ◌∷◌, ◌≡◌, refl, true, false, Option, none, some, List, []}
use attentive.Base.Text.{Bytes}
use attentive.Parser.{Parser, idle, readline}
use attentive.Channel.{At, AtCallbacks}
use attentive.FreeRtos.{Field, FreeRtos, Client, new_channel, command_arm, command_drain}
use attentive.FreeRtos.Step.{ReachOn}
use attentive.FreeRtos.Reset.{reset-keeps_bytes}
use attentive.FreeRtos.Races.{sent-lost, sent-timed_out, ended}
use attentive.Examples.{zeros}

abbrev D : Type 0
D = List Bytes

abbrev parser : Parser (Option (At D))
parser = record {
  character_handler = none;
  state = idle;
  expect_dataprompt = false;
  data_left = 0;
  nibble = none;
  buf = zeros 16;
  buf_used = 0;
  buf_size = 16;
  buf_current = 0;
}

-- Open, with a timeout of two seconds.
abbrev ready : FreeRtos D
ready = record (new_channel [] parser) { uart = true; open_ = true; timeout = 2 }

-- The empty response to a command has arrived before the command waits for it.
abbrev early : FreeRtos D
early = record ready {
  at = record (ready.at) { response = some []; signalled = true };
  client = Client.sent;
}

sent-timed_out_example : ReachOn early [] (ended (command_drain (command_arm early)))
sent-timed_out_example = sent-timed_out early refl refl

-- The command waits, its time is up in each of two rounds, the parser is reset, and it returns.
early-Reach : ReachOn early [] (ended (command_drain (command_arm early)))
early-Reach = sent-timed_out early refl refl

abbrev nothing : Option Bytes
nothing = none

sent-lost_example : nothing ≡ none
sent-lost_example =
    sent-lost early (ended (command_drain (command_arm early))) early-Reach.0 none refl (λ c e. cc)
      early-Reach.1 refl

abbrev quiet_driver : AtCallbacks D
quiet_driver = record { scan_line = none; handle_urc = none }

-- A command has timed out when the modem had sent a line of two bytes.
abbrev late : FreeRtos D
late = record ready {
  at = record (ready.at) { cbs = some quiet_driver; waiting = true };
  parser = record parser {
    state = readline;
    buf = b'7' ∷ b'\n' ∷ zeros 14;
    buf_used = 2;
    buf_current = 2;
  };
  client = Client.resetting Field.state;
}

reset-keeps_bytes_example :
    (t : FreeRtos D) × ReachOn late (b'\n' ∷ []) t
    × (t.client ≡ Client.outside none)
    × (t.parser.state ≡ idle)
    × (t.parser.buf_used ≡ 2)
    × (t.parser.buf_current ≡ 0)
reset-keeps_bytes_example =
    reset-keeps_bytes quiet_driver late refl refl refl refl refl (omega arith) refl (omega arith)
