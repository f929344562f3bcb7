-- ===== src/Parser/Refine.antt =====
-- The array parser does what the parser over texts does, and never writes outside its buffer.
use attentive.Base.{
  inl, inr, ℕ, ◌+◌, ◌-◌, ◌<◌, ◌≡◌, sym, ap, ◌∙◌, Option, some, [], ◌∷◌, ◌++◌, arith, ltb,
  Bool-cases, length, set, take, drop, length-append, length-set, Holds, Holds-left, Holds-set,
  Holds-concat, slice-Holds, take-set, take-Holds_le, append_assoc, append-nil,
}
use attentive.Parser.{
  State, Parser, size_max, store, parser_append, parser_include_line, parser_discard_line,
  parser_finalize, current_line, at_parser_reset,
}
use attentive.Parser.Spec
use attentive.Parser.Spec.{View}

-- The array holds the kept text and then the line, and one byte is left for the terminator.
pub record Rep {P : Type 0} (p : Parser P) (v : View P) : Type 0 where
  pub text : Holds (v.kept ++ v.line) p.buf
  pub used : p.buf_used ≡ length v.kept + length v.line
  pub current : p.buf_current ≡ length v.kept
  pub size : p.buf_size ≡ v.size
  pub array : length p.buf ≡ v.size
  pub room : length v.kept + length v.line < v.size
  pub small : v.size < size_max
  pub character_handler : p.character_handler ≡ v.character_handler
  pub state : p.state ≡ v.state
  pub expect_dataprompt : p.expect_dataprompt ≡ v.expect_dataprompt
  pub data_left : p.data_left ≡ v.data_left
  pub nibble : p.nibble ≡ v.nibble

module _ {P : Type 0} where
  -- The step does not fault, and the array that it leaves stands for the text `v`.
  abbrev pub Steps : Option (Parser P) → View P → Type 0
  Steps step v = (q : Parser P) × (step ≡ some q) × Rep q v

  pub append-Rep :
      {p : Parser P} {v : View P} (ch : ℕ) → Rep p v → Steps (parser_append p ch) (Spec.append v ch)
  unfolding parser_append store Spec.append
  append-Rep {p} {v} ch r = elim (Bool-cases (ltb (length v.kept + length v.line + 1) v.size)) [
    | inl more ↦ (
      record p { buf = set p.buf p.buf_used ch; buf_used = p.buf_used + 1 },
      ground arith,
      rw more (record {
        text = rw (← append_assoc) (
            Holds-concat (v.kept ++ v.line) p.buf p.buf_used ch
              (length-append v.kept v.line ∙ sym r.used) (omega (arith, r.used, r.array, r.room))
              r.text);
        used = omega (arith, r.used, length-append {0} v.line (ch ∷ []));
        current = r.current;
        size = r.size;
        array = length-set p.buf p.buf_used ch ∙ r.array;
        room = ground (arith, length-append v.line (ch ∷ []));
        small = r.small;
        character_handler = r.character_handler;
        state = r.state;
        expect_dataprompt = r.expect_dataprompt;
        data_left = r.data_left;
        nibble = r.nibble;
      }),
    )
    | inr full ↦ (p, ground arith, rw full r)
  ]

  pub include_line-Rep :
      {p : Parser P} {v : View P} → Rep p v → Steps (parser_include_line p) (Spec.include_line v)
  unfolding parser_include_line Spec.include_line
  include_line-Rep {p} {v} r =
      let (q, e, f) = append-Rep b'\n' r in
      let w = Spec.append v b'\n' in
      let joined = length-append w.kept w.line in
      (
        record q { buf_current = q.buf_used },
        rw e,
        record {
          text = rw append-nil f.text;
          used = omega (arith, f.used, joined);
          current = omega (arith, f.used, joined);
          size = f.size;
          array = f.array;
          room = omega (arith, f.room, joined);
          small = f.small;
          character_handler = f.character_handler;
          state = f.state;
          expect_dataprompt = f.expect_dataprompt;
          data_left = f.data_left;
          nibble = f.nibble;
        },
      )

  pub discard_line-Rep :
      {p : Parser P} {v : View P} → Rep p v → Rep (parser_discard_line p) (Spec.discard_line v)
  unfolding parser_discard_line Spec.discard_line
  discard_line-Rep {p} {v} r = record {
    text = rw append-nil (Holds-left v.kept v.line p.buf r.text);
    used = omega (arith, r.current);
    current = r.current;
    size = r.size;
    array = r.array;
    room = omega (arith, r.room);
    small = r.small;
    character_handler = r.character_handler;
    state = r.state;
    expect_dataprompt = r.expect_dataprompt;
    data_left = r.data_left;
    nibble = r.nibble;
  }

  pub state-Rep :
      {p : Parser P} {v : View P} (t : State)
      → Rep p v
      → Rep (record p { state = t }) (record v { state = t })
  state-Rep t r = ground arith

  pub current_line-Rep : {p : Parser P} {v : View P} → Rep p v → current_line p ≡ v.line
  unfolding current_line
  current_line-Rep {p} {v} r =
      ap (λ n. take n (drop p.buf_current p.buf))
        (omega (arith, r.used, r.current, r.room, r.small))
      ∙ ap (λ n. take (length v.line) (drop n p.buf)) r.current
      ∙ slice-Holds v.kept v.line p.buf r.text

  pub terminate-Rep :
      {p : Parser P} {v : View P} (ch : ℕ) → Rep p v → Steps (store p p.buf_used ch) v
  unfolding store
  terminate-Rep {p} {v} ch r = (
    record p { buf = set p.buf p.buf_used ch },
    ground arith,
    ground (
      arith,
      r,
      length-set p.buf p.buf_used ch,
      Holds-set (v.kept ++ v.line) p.buf p.buf_used ch
          (omega (arith, length-append v.kept v.line, r.used)) r.text,
    ),
  )

  -- Removing the last byte and terminating leaves the response at the front of the buffer.
  pub finalize-Rep :
      {p : Parser P} {v : View P}
      → Rep p v
      → v.line ≡ []
      → (q : Parser P) × (parser_finalize p ≡ some q)
        × (take q.buf_used q.buf ≡ Spec.drop_last v.kept)
        × Rep (at_parser_reset q) (Spec.reset v)
  unfolding parser_finalize store at_parser_reset Spec.reset Spec.drop_last
  finalize-Rep {p} {v} r e = (
    record p { buf = set p.buf (p.buf_used - 1) 0; buf_used = p.buf_used - 1 },
    ground (arith, r, empty),
    take-set (p.buf_used - 1) (p.buf_used - 1) 0 p.buf (omega arith)
        ∙ take-Holds_le (p.buf_used - 1) v.kept p.buf (omega (arith, empty, r.used))
            (Holds-left v.kept v.line p.buf r.text)
        ∙ ap (λ n. take (n - 1) v.kept) (omega (arith, empty, r.used)),
    ground (arith, r, length-set p.buf (p.buf_used - 1) 0),
  )
    where
      empty : length v.line ≡ 0
      empty = ap length e
