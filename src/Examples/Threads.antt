-- ===== src/Examples/Threads.antt =====
-- A channel on POSIX in a buffer of sixteen bytes, with what holds of it.
use attentive.Base.{◌≡◌, refl, true, false, Option, none, some, List, [], ◌∷◌, arith}
use attentive.Base.Text.{Bytes, codes}
use attentive.Parser.{Parser, idle, readline}
use attentive.Parser.Valid.{IsValid, IsReady}
use attentive.Channel.{At, AtCallbacks}
use attentive.Posix.{Posix, Reader, Client, Control, new_channel}
use attentive.Posix.Agrees.{in_read}
use attentive.Posix.Invariant.{IsSound}
use attentive.Posix.Waits.{Waits}
use attentive.Examples.{zeros}

abbrev pub D : Type 0
D = List Bytes

-- The URC handler keeps its lines.
abbrev pub driver : AtCallbacks D
driver = record { scan_line = none; handle_urc = some (λ line s. line ∷ s) }

abbrev pub parser : Parser (Option (At D))
parser = record {
  character_handler = none;
  state = idle;
  expect_dataprompt = false;
  data_left = 0;
  nibble = none;
  buf = zeros 16;
  buf_used = 0;
  buf_size = 16;
  buf_current = 0;
}

pub parser-IsReady : IsReady parser
parser-IsReady = record {
  valid = omega arith;
  state = refl;
  no_handler = refl;
  no_prompt = refl;
  used = refl;
  current = refl;
  data_left = refl;
}

abbrev pub fresh : Posix D
fresh = new_channel [] parser

-- Open, with the driver's callbacks.
abbrev pub ready : Posix D
ready = record fresh { fd = true; open_ = true; at = record (fresh.at) { cbs = some driver } }

-- The reader reads, and no command waits.
abbrev pub reading : Posix D
reading = record ready { busy = true; reader = Reader.reading }

-- A command waits.
abbrev pub asked : Posix D
asked = record ready {
  parser = record parser { state = readline };
  sent = codes "AT\r" ∷ [];
  at = record (ready.at) { waiting = true };
  client = Client.parked;
}

abbrev pub asked_reading : Posix D
asked_reading = record asked { busy = true; reader = Reader.reading }

-- The response was empty; the command has been woken.
abbrev pub answered : Posix D
answered = record ready { at = record (ready.at) { response = some [] }; client = Client.awake }

-- The newline of an OK line is next.
abbrev pub nearly : Posix D
nearly = record asked {
  parser = record parser { state = readline; buf = b'O' ∷ b'K' ∷ zeros 14; buf_used = 2 };
}

-- An open channel that nobody closes.
open-IsSound :
    (s : Posix D)
    → s.busy ≡ in_read s.reader
    → s.fd ≡ true
    → s.open_ ≡ true
    → s.running ≡ true
    → s.control ≡ Control.outside
    → IsValid s.parser
    → s.parser.character_handler ≡ none
    → IsSound s
open-IsSound s b f o r c v n = record { agrees = ground arith; valid = v; plain = n }

pub fresh-IsSound : IsSound fresh
fresh-IsSound = record { agrees = ground arith; valid = omega arith; plain = refl }

pub reading-IsSound : IsSound reading
reading-IsSound = open-IsSound reading refl refl refl refl refl (omega arith) refl

pub asked_reading-IsSound : IsSound asked_reading
asked_reading-IsSound = open-IsSound asked_reading refl refl refl refl refl (omega arith) refl

pub answered-IsSound : IsSound answered
answered-IsSound = open-IsSound answered refl refl refl refl refl (omega arith) refl

pub nearly-IsSound : IsSound nearly
nearly-IsSound = open-IsSound nearly refl refl refl refl refl (omega arith) refl

pub answered-Waits : Waits answered
answered-Waits = record {
  quiet = refl;
  client = λ e. cc;
  alone = λ f c e. cc;
  answered = λ e w. refl;
}

pub nearly-Waits : Waits nearly
nearly-Waits = record {
  quiet = refl;
  client = λ e. refl;
  alone = λ f c e. cc;
  answered = λ e w. cc;
}
