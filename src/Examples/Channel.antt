-- ===== src/Examples/Channel.antt =====
-- The channel's parser on what a modem sends.
use attentive.Base.{◌≡◌, refl, none, some, List, [], ◌∷◌, ◌++◌, arith}
use attentive.Base.Text.{codes, starts_with, same_bytes}
use attentive.Response
use attentive.Parser.{
  Parser, at_parser_await_response, at_parser_expect_dataprompt, at_prefix_in_table,
  generic_line_scanner, parser_append, store, at_prompt, current_line, parser_discard_line, hex2int,
  join_nibbles,
}
use attentive.Parser.Feed.{
  classify, at_parser_feed, feed_in, feed_text, parser_handle_line, parser_dispatch,
}
use attentive.Parser.Spec
use attentive.Parser.Refine.{Rep}
use attentive.Parser.Simulation.{feed_refines}
use attentive.Parser.Lines.{wire}
use attentive.Parser.Handled.{Sees}
use attentive.Parser.Exchange.{Item, stored, unsolicited, send, AreSeen}
use attentive.Parser.Responses.{Completes, feed-ok_response, feed-final_response}
use attentive.Parser.Payload.{
  payload, feed-rawdata_response, feed-hexdata_response, feed-zero_block,
}
use attentive.Parser.Blocks.{Decodes, high, low, last, skip}
use attentive.Parser.Calls.{
  Call, reset, expect_dataprompt, await_response, feed, Keeps, run_calls, run_calls-IsValid,
}
use attentive.Parser.Interrupted.{feed-interrupted}
use attentive.Parser.Idle.{wires, prompt, feed-idle, feed-prompt}
use attentive.Parser.Valid.{view, Rep-view}
use attentive.Examples.{
  Event, response, urc, callbacks, parser, zeros, parser-IsReady, parser-IsValid, is_plain-IsPlain,
  cons_ne,
}

abbrev items : List Item
items = stored (codes "ABC") ∷ unsolicited (codes "RING") ∷ stored (codes "D") ∷ []

items-AreSeen : AreSeen callbacks items [] (urc (codes "RING") ∷ [])
unfolding classify generic_line_scanner at_prefix_in_table starts_with same_bytes
items-AreSeen = (
  [],
  is_plain-IsPlain (codes "ABC") refl,
  cons_ne,
  refl,
  (
    [],
    is_plain-IsPlain (codes "RING") refl,
    cons_ne,
    refl,
    (_, is_plain-IsPlain (codes "D") refl, cons_ne, refl, refl),
  ),
)

ok-Sees : (s : List Event) → Sees callbacks Response.final_ok (codes "OK") s s
unfolding classify generic_line_scanner at_prefix_in_table starts_with same_bytes
ok-Sees s = refl

error-Sees : (s : List Event) → Sees callbacks Response.final (codes "ERROR") s s
unfolding classify generic_line_scanner at_prefix_in_table starts_with same_bytes
error-Sees s = refl

raw-Sees : (s : List Event) → Sees callbacks (Response.rawdata_follows 3) (codes "#RAW: 3") s s
unfolding classify generic_line_scanner at_prefix_in_table starts_with same_bytes
    Response.rawdata_follows
raw-Sees s = refl

empty-Sees : (s : List Event) → Sees callbacks (Response.rawdata_follows 0) (codes "#RAW: 0") s s
unfolding classify generic_line_scanner at_prefix_in_table starts_with same_bytes
    Response.rawdata_follows
empty-Sees s = refl

hex-Sees : (s : List Event) → Sees callbacks (Response.hexdata_follows 2) (codes "#HEX: 2") s s
unfolding classify generic_line_scanner at_prefix_in_table starts_with same_bytes
    Response.hexdata_follows
hex-Sees s = refl

feed-ok_response_example :
    Completes callbacks
      (at_parser_await_response parser)
      []
      (send items (wire (codes "OK") []))
      (response (codes "ABC\nD") ∷ urc (codes "RING") ∷ [])
feed-ok_response_example =
    feed-ok_response callbacks items (codes "OK") parser [] _ _ parser-IsReady items-AreSeen
      (is_plain-IsPlain (codes "OK") refl) cons_ne (ok-Sees _) (omega arith)

feed-final_response_example :
    Completes callbacks
      (at_parser_await_response parser)
      []
      (send items (wire (codes "ERROR") []))
      (response (codes "ABC\nD\nERROR") ∷ urc (codes "RING") ∷ [])
feed-final_response_example =
    feed-final_response callbacks items (codes "ERROR") parser [] _ _ parser-IsReady items-AreSeen
      (is_plain-IsPlain (codes "ERROR") refl) cons_ne (error-Sees _) (omega arith)

feed_refines_example :
    (q : Parser (List Event)) × (at_parser_feed callbacks parser [] (codes "RING\r\n")
      ≡ some (q, (Spec.feed callbacks (view parser) [] (codes "RING\r\n")).1))
    × Rep q (Spec.feed callbacks (view parser) [] (codes "RING\r\n")).0
feed_refines_example = feed_refines callbacks (codes "RING\r\n") [] (Rep-view parser-IsValid)

abbrev calls : List (Call (List Event))
calls =
    reset
    ∷ expect_dataprompt
    ∷ await_response
    ∷ feed (codes "> ")
    ∷ feed (codes "RI")
    ∷ feed (codes "NG\r\n")
    ∷ []

run_calls-IsValid_example : Keeps callbacks parser (run_calls callbacks calls parser [])
run_calls-IsValid_example = run_calls-IsValid callbacks calls parser [] parser-IsValid

ring_test :
    at_parser_feed callbacks parser [] (codes "RING\r\n")
    ≡ some (record parser { buf = codes "RING" ++ zeros 60 }, urc (codes "RING") ∷ [])
unfolding at_parser_feed feed_in feed_text parser_append store at_prompt parser_handle_line
    parser_dispatch classify same_bytes current_line generic_line_scanner at_prefix_in_table
    starts_with parser_discard_line
ring_test = refl

-- A carriage return, a final result and a notification inside the block are data.
feed-rawdata_response_example :
    Completes callbacks
      (at_parser_await_response parser)
      []
      (wire (codes "#RAW: 3") (codes "O\r\n" ++ wire [] (wire (codes "OK") [])))
      (response (payload (codes "#RAW: 3") (codes "O\r\n")) ∷ [])
feed-rawdata_response_example =
    feed-rawdata_response callbacks (codes "#RAW: 3") (codes "OK") 3 parser [] [] [] parser-IsReady
      (omega arith) (is_plain-IsPlain (codes "#RAW: 3") refl) cons_ne
      (is_plain-IsPlain (codes "OK") refl) cons_ne (ok-Sees _) (omega arith) b'O' (codes "\r\n")
      refl (raw-Sees _)

digits-Decodes : Decodes none (codes "4f 4B") (codes "OK")
unfolding hex2int join_nibbles
digits-Decodes = high refl (low refl (skip refl (high refl (last refl))))

feed-hexdata_response_example :
    Completes callbacks
      (at_parser_await_response parser)
      []
      (wire (codes "#HEX: 2") (codes "4f 4B" ++ wire [] (wire (codes "OK") [])))
      (response (payload (codes "#HEX: 2") (codes "OK")) ∷ [])
feed-hexdata_response_example =
    feed-hexdata_response callbacks (codes "#HEX: 2") (codes "OK") 2 parser [] [] [] parser-IsReady
      (omega arith) (is_plain-IsPlain (codes "#HEX: 2") refl) cons_ne
      (is_plain-IsPlain (codes "OK") refl) cons_ne (ok-Sees _) (omega arith) digits-Decodes refl
      (hex-Sees _)

feed-zero_block_example :
    at_parser_feed callbacks
      (at_parser_await_response parser)
      []
      (wire (codes "#RAW: 0") (codes "ABC"))
    ≡ at_parser_feed callbacks
        (at_parser_await_response parser)
        []
        (wire (codes "#RAW: 0") (codes "\nBC"))
feed-zero_block_example =
    feed-zero_block callbacks (codes "#RAW: 0") parser [] [] b'A' b'\n' (codes "BC") parser-IsReady
      (is_plain-IsPlain (codes "#RAW: 0") refl) cons_ne (omega arith) (empty-Sees _)

feed-idle_example :
    Completes callbacks parser []
      (wires (codes "OK" ∷ codes "RING" ∷ []))
      (urc (codes "RING") ∷ urc (codes "OK") ∷ [])
unfolding classify
feed-idle_example =
    feed-idle callbacks (codes "OK" ∷ codes "RING" ∷ []) parser [] parser-IsReady (omega arith) (
      (is_plain-IsPlain (codes "OK") refl, cons_ne),
      ((is_plain-IsPlain (codes "RING") refl, cons_ne), tt),
    )

feed-prompt_example :
    Completes callbacks
      (at_parser_await_response (at_parser_expect_dataprompt parser))
      []
      prompt
      (response [] ∷ [])
unfolding same_bytes
feed-prompt_example = feed-prompt callbacks parser [] parser-IsReady (omega arith) refl

-- The first command ends behind its first line; the second has the lines of both.
feed-interrupted_example :
    (q : Parser (List Event)) × (at_parser_feed callbacks
        (at_parser_await_response parser)
        []
        (send items [])
      ≡ some (q, urc (codes "RING") ∷ []))
    × Completes callbacks
        (at_parser_await_response q)
        (urc (codes "RING") ∷ [])
        (send [] (wire (codes "OK") []))
        (response (codes "ABC\nD") ∷ urc (codes "RING") ∷ [])
feed-interrupted_example =
    feed-interrupted callbacks items [] (codes "OK") parser [] _ _ _ parser-IsReady items-AreSeen
      refl (is_plain-IsPlain (codes "OK") refl) cons_ne (ok-Sees _) (omega arith)
