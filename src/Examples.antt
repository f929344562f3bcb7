-- ===== src/Examples.antt =====
-- A modem's callbacks, a parser in a small buffer, and the tests that run the model on them
-- (tests/test-parser.c), with the theorems at these inputs.
mod Channel
mod Limits
mod Drivers
mod Transfers
mod Threads
mod Commands
mod Closing
mod Conversations
mod Tasks
use attentive.Base.{
  ℕ, ◌+◌, ◌-◌, ◌≡◌, ◌≢◌, refl, Bool, true, false, not, ◌&&◌, none, some, List, [], ◌∷◌, arith, ◌==◌,
  if◌then◌else◌,
}
use attentive.Base.Text.{Bytes, codes, same_bytes}
use attentive.Response
use attentive.Parser.{Parser, Callbacks, idle}
use attentive.Parser.Lines.{IsPlain}
use attentive.Parser.Valid.{IsValid, IsReady}

-- What the callbacks were called with, the last first.
pub data Event : Type 0 where
  response urc : Bytes → Event

abbrev pub callbacks : Callbacks (List Event)
callbacks = record {
  scan_line = some (λ line s. (
    if same_bytes line (codes "#RAW: 3")
        then Response.rawdata_follows 3
        else if same_bytes line (codes "#RAW: 0")
        then Response.rawdata_follows 0
        else if same_bytes line (codes "#HEX: 2")
        then Response.hexdata_follows 2
        else Response.unknown,
    s,
  ));
  handle_response = λ line s. response line ∷ s;
  handle_urc = λ line s. urc line ∷ s;
}

abbrev pub zeros : ℕ → Bytes
zeros ℕ.zero = []
zeros (ℕ.suc n) = 0 ∷ zeros n

-- Memory as `malloc` may give it.
abbrev pub raw : Parser (List Event)
raw = record {
  character_handler = none;
  state = idle;
  expect_dataprompt = false;
  data_left = 0;
  nibble = none;
  buf = [];
  buf_used = 0;
  buf_size = 0;
  buf_current = 0;
}

abbrev pub parser : Parser (List Event)
parser = record raw { buf = zeros 64; buf_size = 64 }

pub parser-IsValid : IsValid parser
parser-IsValid = omega arith

pub parser-IsReady : IsReady parser
parser-IsReady = record {
  valid = parser-IsValid;
  state = refl;
  no_handler = refl;
  no_prompt = refl;
  used = refl;
  current = refl;
  data_left = refl;
}

abbrev pub is_plain : Bytes → Bool
is_plain [] = true
is_plain (c ∷ cs) = not (c == b'\r') && not (c == b'\n') && is_plain cs

pub is_plain-IsPlain : (line : Bytes) → is_plain line ≡ true → IsPlain line
is_plain-IsPlain [] e = tt
is_plain-IsPlain (c ∷ cs) e = (ground arith, ground arith, is_plain-IsPlain cs (ground arith))

pub cons_ne : {c : ℕ} {cs : Bytes} → (c ∷ cs) ≢ []
cons_ne = λ e. cc
