-- ===== src/Parser/Valid.antt =====
-- The invariant of `struct at_parser`, and what a parser between two commands looks like.
use attentive.Base.{
  ℕ, ◌<◌, ◌≤◌, ◌≡◌, refl, false, true, Bool, none, some, [], arith, length, take, drop,
  Holds-take-drop, length-take_le, length-drop, ◌-◌,
}
use attentive.Base.Text.{Bytes}
use attentive.Parser.{
  Parser, State, idle, readline, size_max, at_parser_reset, at_parser_await_response,
  at_parser_alloc, at_parser_expect_dataprompt, dataprompt,
}
use attentive.Parser.Spec
use attentive.Parser.Spec.{View}
use attentive.Parser.Refine.{Rep}

pub record IsValid {P : Type 0} (p : Parser P) : Type 0 where
  pub ordered : p.buf_current ≤ p.buf_used
  pub room : p.buf_used < p.buf_size
  pub array : length p.buf ≡ p.buf_size
  pub small : p.buf_size < size_max

-- Valid, and as `at_parser_reset` leaves it.
pub record IsReady {P : Type 0} (p : Parser P) : Type 0 where
  pub valid : IsValid p
  pub state : p.state ≡ idle
  pub no_handler : p.character_handler ≡ none
  pub no_prompt : p.expect_dataprompt ≡ false
  pub used : p.buf_used ≡ 0
  pub current : p.buf_current ≡ 0
  pub data_left : p.data_left ≡ 0

module _ {P : Type 0} where
  -- The text that a valid array holds.
  abbrev pub view : Parser P → View P
  view p = record {
    character_handler = p.character_handler;
    state = p.state;
    expect_dataprompt = p.expect_dataprompt;
    data_left = p.data_left;
    nibble = p.nibble;
    kept = take p.buf_current p.buf;
    line = take (p.buf_used - p.buf_current) (drop p.buf_current p.buf);
    size = p.buf_size;
  }

  -- Nothing is kept, and the parser is in the given state.
  abbrev pub empty_view : State → Bool → Parser P → View P
  empty_view t prompt p = record {
    character_handler = none;
    state = t;
    expect_dataprompt = prompt;
    data_left = 0;
    nibble = p.nibble;
    kept = [];
    line = [];
    size = p.buf_size;
  }

  pub Rep-view : {p : Parser P} → IsValid p → Rep p (view p)
  Rep-view {p} h = record {
    text = Holds-take-drop p.buf_current (p.buf_used - p.buf_current) p.buf;
    used = omega (arith, h, kept, line);
    current = omega (arith, kept);
    size = refl;
    array = h.array;
    room = omega (arith, h, kept, line);
    small = h.small;
    character_handler = refl;
    state = refl;
    expect_dataprompt = refl;
    data_left = refl;
    nibble = refl;
  }
    where
      kept : length (take p.buf_current p.buf) ≡ p.buf_current
      kept = length-take_le p.buf_current p.buf (omega (arith, h))

      line :
          length (take (p.buf_used - p.buf_current) (drop p.buf_current p.buf))
          ≡ p.buf_used - p.buf_current
      line =
          length-take_le (p.buf_used - p.buf_current) (drop p.buf_current p.buf)
            (omega (arith, h, length-drop p.buf_current p.buf))

  pub Rep-IsValid : {p : Parser P} {v : View P} → Rep p v → IsValid p
  Rep-IsValid r = omega (arith, r)

  -- A reset text stands for a parser between two commands.
  pub reset-IsReady : {p : Parser P} (v : View P) → Rep p (Spec.reset v) → IsReady p
  unfolding Spec.reset
  reset-IsReady v r = ground (arith, r)

  pub IsReady-Rep : {p : Parser P} → IsReady p → Rep p (empty_view idle false p)
  IsReady-Rep h = ground (arith, h, h.valid)

  pub await-Rep :
      {p : Parser P} → IsReady p → Rep (at_parser_await_response p) (empty_view readline false p)
  unfolding at_parser_await_response
  await-Rep h = ground (arith, h, h.valid)

  pub await_prompt-Rep :
      {p : Parser P}
      → IsReady p
      → Rep
          (at_parser_await_response (at_parser_expect_dataprompt p))
          (empty_view dataprompt true p)
  unfolding at_parser_await_response at_parser_expect_dataprompt
  await_prompt-Rep h = ground (arith, h, h.valid)

  -- at_parser_alloc with memory of the size asked for, positive and below the range of size_t,
  -- gives a parser that is valid and ready, with a buffer of that size.
  pub alloc-IsReady :
      (raw : Parser P) (mem : Bytes) (bufsize : ℕ)
      → length mem ≡ bufsize
      → 0 < bufsize
      → bufsize < size_max
      → (p : Parser P) × (at_parser_alloc (some raw) (some mem) bufsize ≡ some p)
        × IsReady p
        × (p.buf_size ≡ bufsize)
  unfolding at_parser_alloc at_parser_reset
  alloc-IsReady raw mem bufsize e pos small =
      (at_parser_reset (record raw { buf = mem; buf_size = bufsize }), refl, ground arith, refl)
