-- ===== src/Parser/Steps.antt =====
-- The steps of `at_parser_feed` inside a block of data follow those of the parser over texts.
use attentive.Base.{
  ℕ, refl, sym, ap, ◌∙◌, Option, none, some, arith, ltb, ◌==◌, ◌>>=◌, Bool-cases, inl, inr,
}
use mathlib.Core.Path.{subst}
use attentive.Parser.{
  readline, Parser, sub_size, parser_append, finish_data, feed_rawdata, feed_nibble, feed_digit,
  feed_hexdata, join_nibbles, hex2int,
}
use attentive.Parser.Spec
use attentive.Parser.Spec.{View}
use attentive.Parser.Refine.{Rep, Steps, append-Rep, include_line-Rep, state-Rep}

module _ {P : Type 0} where
  pub data_left-Rep :
      {p : Parser P} {v : View P} (n : ℕ)
      → Rep p v
      → Rep (record p { data_left = n }) (record v { data_left = n })
  data_left-Rep n r = ground arith

  pub nibble-Rep :
      {p : Parser P} {v : View P} (n : Option ℕ)
      → Rep p v
      → Rep (record p { nibble = n }) (record v { nibble = n })
  nibble-Rep n r = ground arith

  finish_data-Rep :
      {p : Parser P} {v : View P} → Rep p v → Steps (finish_data p) (Spec.finish_data v)
  unfolding finish_data Spec.finish_data
  finish_data-Rep {p} {v} r = elim (Bool-cases (v.data_left == 0)) [
    | inl last ↦
        let (q, e, f) = include_line-Rep r in
        let t = ap (λ n. n == 0) r.data_left ∙ last in
        (record q { state = readline }, rw (t, e), rw last (state-Rep readline f))
    | inr more ↦ let t = ap (λ n. n == 0) r.data_left ∙ more in (p, rw t, rw more r)
  ]

  -- One byte of a block: append it, and count it.
  counted-Rep :
      {p : Parser P} {v : View P} (ch : ℕ)
      → Rep p v
      → Steps
          (parser_append p ch >>= λ q. some (record q { data_left = sub_size q.data_left 1 }))
          (Spec.counted v ch)
  unfolding Spec.counted
  counted-Rep {p} {v} ch r =
      let (q, e, f) = append-Rep ch r in
      (record q { data_left = sub_size q.data_left 1 }, rw e, ground (arith, f))

  pub feed_rawdata-Rep :
      {p : Parser P} {v : View P} (ch : ℕ)
      → Rep p v
      → Steps (feed_rawdata p ch) (Spec.feed_rawdata v ch)
  unfolding feed_rawdata Spec.feed_rawdata
  feed_rawdata-Rep {p} {v} ch r = elim (Bool-cases (ltb 0 v.data_left)) [
    | inl more ↦
        let (q, e, f) = counted-Rep ch r in
        let (q', e', f') = finish_data-Rep f in
        let t = ap (ltb 0) r.data_left ∙ more in (q', rw (t, e) e', rw more f')
    | inr last ↦
        let (q', e', f') = finish_data-Rep r in
        let t = ap (ltb 0) r.data_left ∙ last in (q', rw t e', rw last f')
  ]

  feed_nibble-Rep :
      {p : Parser P} {v : View P} (value : ℕ) (nibble : Option ℕ)
      → Rep p v
      → Steps (feed_nibble p value nibble) (Spec.feed_nibble v value nibble)
  unfolding feed_nibble Spec.feed_nibble
  feed_nibble-Rep {p} {v} value none r = (record p { nibble = some value }, refl, nibble-Rep _ r)
  feed_nibble-Rep {p} {v} value (some high) r =
      counted-Rep (join_nibbles high value) (nibble-Rep none r)

  feed_digit-Rep :
      {p : Parser P} {v : View P} (digit : Option ℕ)
      → Rep p v
      → Steps (feed_digit p digit) (Spec.feed_digit v digit)
  unfolding feed_digit Spec.feed_digit
  feed_digit-Rep {p} {v} none r = (p, refl, r)
  feed_digit-Rep {p} {v} (some value) r =
      subst (λ n. Steps (feed_nibble p value n) (Spec.feed_nibble v value v.nibble)) (sym r.nibble)
        (feed_nibble-Rep value v.nibble r)

  pub feed_hexdata-Rep :
      {p : Parser P} {v : View P} (ch : ℕ)
      → Rep p v
      → Steps (feed_hexdata p ch) (Spec.feed_hexdata v ch)
  unfolding feed_hexdata Spec.feed_hexdata
  feed_hexdata-Rep {p} {v} ch r = elim (Bool-cases (ltb 0 v.data_left)) [
    | inl more ↦
        let (q, e, f) = feed_digit-Rep (hex2int ch) r in
        let (q', e', f') = finish_data-Rep f in
        let t = ap (ltb 0) r.data_left ∙ more in (q', rw (t, e) e', rw more f')
    | inr last ↦
        let (q', e', f') = finish_data-Rep r in
        let t = ap (ltb 0) r.data_left ∙ last in (q', rw t e', rw last f')
  ]
