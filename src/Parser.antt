-- ===== src/Parser.antt =====
-- The response parser (src/parser.c). The buffer is an array of bytes, and a write outside it is
-- the fault `none`. The private pointer of the callbacks is a value that every callback may
-- replace. Callbacks do not call the parser back and do not write through `line`.
pub mod Spec
pub mod Feed
pub mod Refine
pub mod Steps
pub mod Simulation
pub mod Valid
pub mod Lines
pub mod Handled
pub mod Blocks
pub mod Exchange
pub mod Calls
pub mod Limits
pub mod Responses
pub mod Payload
pub mod Idle
pub mod Private
pub mod Size
pub mod Interrupted
pub mod Unfinished
use attentive.Base.{
  ℕ, ◌+◌, ◌-◌, ◌*◌, ◌%◌, ◌^◌, Bool, true, false, not, ◌&&◌, ◌||◌, Option, none, some, List, [], ◌∷◌,
  ltb, leb, ◌==◌, if◌then◌else◌, ◌>>=◌, length, set, take, drop,
}
use attentive.Base.Text.{Bytes, codes, starts_with, same_bytes}
use attentive.Response
use attentive.Response.{ResponseType}
use Prim.Native.Nat.{bit_or}

-- `enum at_parser_state`
pub data State : Type 0 where
  idle readline dataprompt rawdata hexdata : State

abbrev pub is_idle : State → Bool
is_idle idle = true
is_idle _ = false

abbrev pub is_dataprompt : State → Bool
is_dataprompt dataprompt = true
is_dataprompt _ = false

abbrev pub CharacterHandler : Type 0 → Type 0
CharacterHandler P = ℕ → Bytes → P → ℕ × P

abbrev pub LineScanner : Type 0 → Type 0
LineScanner P = Bytes → P → ResponseType × P

abbrev pub ResponseHandler : Type 0 → Type 0
ResponseHandler P = Bytes → P → P

-- `struct at_parser_callbacks`; a handler is given the bytes `line[0..len)`.
pub record Callbacks (P : Type 0) : Type 0 where
  pub scan_line : Option (LineScanner P)
  pub handle_response : ResponseHandler P
  pub handle_urc : ResponseHandler P

-- `struct at_parser`. `nibble` is `none` where the int is -1. `cbs` and `priv` are arguments of the
-- functions that use them.
pub record Parser (P : Type 0) : Type 0 where
  pub character_handler : Option (CharacterHandler P)
  pub state : State
  pub expect_dataprompt : Bool
  pub data_left : ℕ
  pub nibble : Option ℕ
  pub buf : Bytes
  pub buf_used : ℕ
  pub buf_size : ℕ
  pub buf_current : ℕ

abbrev pub size_max : ℕ
size_max = 2 ^ 64

-- `size_t` addition and subtraction wrap.
abbrev pub add_size : ℕ → ℕ → ℕ
add_size a b = (a + b) % size_max

abbrev pub sub_size : ℕ → ℕ → ℕ
sub_size a b = (a + size_max - b) % size_max

abbrev pub final_ok_responses : List Bytes
final_ok_responses = codes "OK" ∷ []

abbrev pub final_responses : List Bytes
final_responses =
    codes "OK" ∷ codes "ERROR" ∷ codes "NO CARRIER" ∷ codes "+CME ERROR:" ∷ codes "+CMS ERROR:" ∷ []

abbrev pub urc_responses : List Bytes
urc_responses = codes "RING" ∷ []

unfoldable pub at_prefix_in_table : Bytes → List Bytes → Bool
at_prefix_in_table line [] = false
at_prefix_in_table line (t ∷ table) = starts_with t line || at_prefix_in_table line table

unfoldable pub generic_line_scanner : Bytes → State → ResponseType
generic_line_scanner line state =
    if is_dataprompt state && same_bytes line (codes "> ")
    then Response.final_ok
    else if at_prefix_in_table line urc_responses
    then Response.urc
    else if at_prefix_in_table line final_ok_responses
    then Response.final_ok
    else if at_prefix_in_table line final_responses
    then Response.final
    else Response.intermediate

-- `hex2int`; `none` is -1.
unfoldable pub hex2int : ℕ → Option ℕ
hex2int c =
    if leb b'0' c && leb c b'9'
    then some (c - b'0')
    else if leb b'A' c && leb c b'F'
    then some (c - b'A' + 10)
    else if leb b'a' c && leb c b'f'
    then some (c - b'a' + 10)
    else none

-- `value |= (parser->nibble << 4)`
unfoldable pub join_nibbles : ℕ → ℕ → ℕ
join_nibbles nibble value = bit_or value (nibble * 2 ^ 4)

module _ {P : Type 0} where
  unfoldable pub at_parser_reset : Parser P → Parser P
  at_parser_reset p = record p {
    state = idle;
    expect_dataprompt = false;
    buf_used = 0;
    buf_current = 0;
    data_left = 0;
    character_handler = none;
  }

  -- The two arguments are what `malloc` returned for the struct and for the buffer, with the
  -- contents that the blocks had.
  unfoldable pub at_parser_alloc : Option (Parser P) → Option Bytes → ℕ → Option (Parser P)
  at_parser_alloc none mem bufsize = none
  at_parser_alloc (some raw) none bufsize = none
  at_parser_alloc (some raw) (some mem) bufsize =
      some (at_parser_reset (record raw { buf = mem; buf_size = bufsize }))

  unfoldable pub at_parser_set_character_handler : Parser P → Option (CharacterHandler P) → Parser P
  at_parser_set_character_handler p handler = record p { character_handler = handler }

  unfoldable pub at_parser_expect_dataprompt : Parser P → Parser P
  at_parser_expect_dataprompt p = record p { expect_dataprompt = true }

  unfoldable pub at_parser_await_response : Parser P → Parser P
  at_parser_await_response p = record p {
    state = if p.expect_dataprompt then dataprompt else readline;
  }

  -- `parser->buf[i] = ch`
  unfoldable pub store : Parser P → ℕ → ℕ → Option (Parser P)
  store p i ch = if ltb i (length p.buf) then some (record p { buf = set p.buf i ch }) else none

  unfoldable pub parser_append : Parser P → ℕ → Option (Parser P)
  parser_append p ch =
      if ltb p.buf_used (sub_size p.buf_size 1)
      then (do q ← store p p.buf_used ch; some (record q { buf_used = add_size q.buf_used 1 }))
      else some p

  unfoldable pub parser_include_line : Parser P → Option (Parser P)
  parser_include_line p = do q ← parser_append p b'\n'; some (record q { buf_current = q.buf_used })

  unfoldable pub parser_discard_line : Parser P → Parser P
  parser_discard_line p = record p { buf_used = p.buf_current }

  unfoldable pub parser_finalize : Parser P → Option (Parser P)
  parser_finalize p =
      let q = if ltb 0 p.buf_used then record p { buf_used = sub_size p.buf_used 1 } else p in
      store q q.buf_used 0

  -- `parser->buf + parser->buf_current`, of length `buf_used - buf_current`
  unfoldable pub current_line : Parser P → Bytes
  current_line p = take (sub_size p.buf_used p.buf_current) (drop p.buf_current p.buf)

  -- `buf_used == 2 && !memcmp(buf, "> ", 2)`, in the state that waits for the prompt
  unfoldable pub at_prompt : Parser P → Bool
  at_prompt p = is_dataprompt p.state && (p.buf_used == 2 && same_bytes (take 2 p.buf) (codes "> "))

  abbrev pub run_scanner : Option (LineScanner P) → Bytes → P → ResponseType × P
  run_scanner none line s = (Response.unknown, s)
  run_scanner (some scan) line s = scan line s

  abbrev pub run_character_handler : Option (CharacterHandler P) → ℕ → Bytes → P → ℕ × P
  run_character_handler none ch line s = (ch, s)
  run_character_handler (some handler) ch line s = handler ch line s

  -- The end of `case STATE_RAWDATA` and `STATE_HEXDATA`
  unfoldable pub finish_data : Parser P → Option (Parser P)
  finish_data p =
      if p.data_left == 0
      then (do q ← parser_include_line p; some (record q { state = readline }))
      else some p

  unfoldable pub feed_rawdata : Parser P → ℕ → Option (Parser P)
  feed_rawdata p ch = do
    q ←
        (if ltb 0 p.data_left
          then (do r ← parser_append p ch; some (record r { data_left = sub_size r.data_left 1 }))
          else some p)
    finish_data q

  -- The digit `value` was read: it is the first or the second of a byte.
  unfoldable pub feed_nibble : Parser P → ℕ → Option ℕ → Option (Parser P)
  feed_nibble p value none = some (record p { nibble = some value })
  feed_nibble p value (some high) = do
    r ← parser_append (record p { nibble = none }) (join_nibbles high value)
    some (record r { data_left = sub_size r.data_left 1 })

  unfoldable pub feed_digit : Parser P → Option ℕ → Option (Parser P)
  feed_digit p none = some p
  feed_digit p (some value) = feed_nibble p value p.nibble

  unfoldable pub feed_hexdata : Parser P → ℕ → Option (Parser P)
  feed_hexdata p ch = do
    q ← (if ltb 0 p.data_left then feed_digit p (hex2int ch) else some p)
    finish_data q

  abbrev pub with_priv : P → Option (Parser P) → Option (Parser P × P)
  with_priv s none = none
  with_priv s (some p) = some (p, s)
