-- ===== src/Parser/Spec.antt =====
-- The parser over texts in place of the array: what is kept of the response, and the line that is
-- being read. An append that finds the buffer full is dropped.
use attentive.Base.{
  ℕ, ◌+◌, Bool, false, not, ◌&&◌, ◌||◌, Option, none, some, [], ◌∷◌, ◌++◌, ltb, ◌==◌, if◌then◌else◌,
  length, take, ◌-◌,
}
use attentive.Base.Text.{Bytes, codes, same_bytes}
use attentive.Response
use attentive.Response.{ResponseType}
use attentive.Parser.Feed.{classify}
use attentive.Parser.{
  State, idle, readline, rawdata, hexdata, is_idle, is_dataprompt, CharacterHandler, Callbacks,
  hex2int, join_nibbles, sub_size, run_character_handler,
}

pub record View (P : Type 0) : Type 0 where
  pub character_handler : Option (CharacterHandler P)
  pub state : State
  pub expect_dataprompt : Bool
  pub data_left : ℕ
  pub nibble : Option ℕ
  pub kept : Bytes
  pub line : Bytes
  pub size : ℕ

-- The response is the kept text without its last byte.
unfoldable pub drop_last : Bytes → Bytes
drop_last xs = take (length xs - 1) xs

module _ {P : Type 0} where
  unfoldable pub append : View P → ℕ → View P
  append v ch =
      if ltb (length v.kept + length v.line + 1) v.size
      then record v { line = v.line ++ (ch ∷ []) }
      else v

  unfoldable pub include_line : View P → View P
  include_line v = let w = append v b'\n' in record w { kept = w.kept ++ w.line; line = [] }

  unfoldable pub discard_line : View P → View P
  discard_line v = record v { line = [] }

  unfoldable pub reset : View P → View P
  reset v = record v {
    state = idle;
    expect_dataprompt = false;
    kept = [];
    line = [];
    data_left = 0;
    character_handler = none;
  }

  unfoldable pub finish_data : View P → View P
  finish_data v = if v.data_left == 0 then record (include_line v) { state = readline } else v

  -- One byte of a block, and the count of those left.
  unfoldable pub counted : View P → ℕ → View P
  counted v ch = let w = append v ch in record w { data_left = sub_size w.data_left 1 }

  unfoldable pub feed_rawdata : View P → ℕ → View P
  feed_rawdata v ch = finish_data (if ltb 0 v.data_left then counted v ch else v)

  unfoldable pub feed_nibble : View P → ℕ → Option ℕ → View P
  feed_nibble v value none = record v { nibble = some value }
  feed_nibble v value (some high) = counted (record v { nibble = none }) (join_nibbles high value)

  unfoldable pub feed_digit : View P → Option ℕ → View P
  feed_digit v none = v
  feed_digit v (some value) = feed_nibble v value v.nibble

  unfoldable pub feed_hexdata : View P → ℕ → View P
  feed_hexdata v ch = finish_data (if ltb 0 v.data_left then feed_digit v (hex2int ch) else v)

  unfoldable pub at_prompt : View P → Bool
  at_prompt v = is_dataprompt v.state && same_bytes (v.kept ++ v.line) (codes "> ")

  module _ (cbs : Callbacks P) where
    unfoldable pub act : ResponseType → View P → P → View P × P
    act type v s =
        let w = if type == Response.final_ok then discard_line v else include_line v in
        if Response.type_mask type == Response.final_ok || Response.type_mask type == Response.final
        then (reset w, cbs.handle_response (drop_last w.kept) s)
        else if Response.type_mask type == Response.rawdata_follows_type
        then (record w { data_left = Response.data_amount type; state = rawdata }, s)
        else if Response.type_mask type == Response.hexdata_follows_type
        then (record w { data_left = Response.data_amount type; nibble = none; state = hexdata }, s)
        else (w, s)

    unfoldable pub dispatch : ResponseType → Bytes → View P → P → View P × P
    dispatch type line v s =
        if type == Response.urc || is_idle v.state
        then (discard_line v, cbs.handle_urc line s)
        else act type v s

    unfoldable pub handle_text : View P → Bytes → P → View P × P
    handle_text v [] s = (v, s)
    handle_text v (c ∷ cs) s =
        let (type, s') = classify cbs v.state (c ∷ cs) s in dispatch type (c ∷ cs) v s'

    unfoldable pub handle_line : View P → P → View P × P
    handle_line v s = handle_text v v.line s

    unfoldable pub feed_text : View P → ℕ → P → View P × P
    feed_text v ch s =
        let w = if not (ch == b'\r') && not (ch == b'\n') then append v ch else v in
        let (ch', s') = run_character_handler w.character_handler ch w.line s in
        if ch' == b'\n' || at_prompt w then handle_line w s' else (w, s')

    unfoldable pub feed_in : State → View P → ℕ → P → View P × P
    feed_in rawdata v ch s = (feed_rawdata v ch, s)
    feed_in hexdata v ch s = (feed_hexdata v ch, s)
    feed_in _ v ch s = feed_text v ch s

    unfoldable pub feed : View P → P → Bytes → View P × P
    feed v s [] = (v, s)
    feed v s (ch ∷ rest) = let (w, s') = feed_in v.state v ch s in feed w s' rest
