-- ===== src/Parser/Blocks.antt =====
-- Blocks of raw and of hexadecimal data.
use attentive.Base.{
  ℕ, suc, ◌+◌, ◌<◌, ◌≡◌, refl, ap, ◌∙◌, true, none, some, Option, [], ◌∷◌, ◌++◌, arith, length,
  length-append, append_assoc, ltb, lt→ltb, if◌then◌else◌,
}
use attentive.Base.Text.{Bytes}
use attentive.Parser.{readline, rawdata, hexdata, Callbacks, hex2int, join_nibbles, size_max}
use attentive.Parser.Spec
use attentive.Parser.Spec.{View}

-- One reading of a hexadecimal block: digits pair up, and what is no digit is passed over. The last
-- byte of the input ends the last pair.
pub data Decodes : Option ℕ → Bytes → Bytes → Type 0 where
  skip :
      {n : Option ℕ} {c : ℕ} {input block : Bytes}
      → hex2int c ≡ none
      → Decodes n input block
      → Decodes n (c ∷ input) block
  high :
      {c d : ℕ} {input block : Bytes}
      → hex2int c ≡ some d
      → Decodes (some d) input block
      → Decodes none (c ∷ input) block
  low :
      {c d h : ℕ} {input block : Bytes}
      → hex2int c ≡ some d
      → Decodes none input block
      → Decodes (some h) (c ∷ input) (join_nibbles h d ∷ block)
  last : {c d h : ℕ} → hex2int c ≡ some d → Decodes (some h) (c ∷ []) (join_nibbles h d ∷ [])

Decodes-pos : {n : Option ℕ} {input block : Bytes} → Decodes n input block → 0 < length block
Decodes-pos (skip h d) = Decodes-pos d
Decodes-pos (high h d) = Decodes-pos d
Decodes-pos (low h d) = omega arith
Decodes-pos (last h) = omega arith

module _ {P : Type 0} where
  -- The block is kept behind the line, with a newline behind it, and the parser reads lines again.
  abbrev pub keep_block : View P → Bytes → View P
  keep_block v block = record v {
    state = readline;
    data_left = 0;
    kept = v.kept ++ (v.line ++ (block ++ (b'\n' ∷ [])));
    line = [];
  }

  finish-more : (v : View P) → 0 < v.data_left → Spec.finish_data v ≡ v
  unfolding Spec.finish_data
  finish-more v h = ground arith

  digit-none : (v : View P) → Spec.feed_digit v none ≡ v
  unfolding Spec.feed_digit
  digit-none v = refl

  digit-first :
      (v : View P) (x : ℕ)
      → v.nibble ≡ none
      → Spec.feed_digit v (some x) ≡ record v { nibble = some x }
  unfolding Spec.feed_digit Spec.feed_nibble
  digit-first v x e = ap (Spec.feed_nibble v x) e

  digit-second :
      (v : View P) (x y : ℕ)
      → v.nibble ≡ some y
      → Spec.feed_digit v (some x) ≡ Spec.counted (record v { nibble = none }) (join_nibbles y x)
  unfolding Spec.feed_digit Spec.feed_nibble
  digit-second v x y e = ap (Spec.feed_nibble v x) e

  counted-more :
      (v : View P) (c n : ℕ)
      → v.data_left ≡ suc n
      → 0 < n
      → n < size_max
      → length v.kept + length v.line + 1 < v.size
      → Spec.finish_data (Spec.counted v c) ≡ record v { line = v.line ++ (c ∷ []); data_left = n }
  unfolding Spec.counted Spec.finish_data Spec.append
  counted-more v c n e pos lt room = ground arith

  counted-last :
      (v : View P) (c : ℕ)
      → v.data_left ≡ 1
      → length v.kept + length v.line + 2 < v.size
      → Spec.finish_data (Spec.counted v c) ≡ keep_block v (c ∷ [])
  unfolding Spec.counted Spec.finish_data Spec.append Spec.include_line
  counted-last v c e room =
      ground (arith, length-append v.line (c ∷ []), append_assoc v.line (c ∷ []) (b'\n' ∷ []))

  module _ (cbs : Callbacks P) where
    feed-raw :
        (v : View P) (s : P) (c : ℕ) (rest : Bytes)
        → v.state ≡ rawdata
        → ltb 0 v.data_left ≡ true
        → Spec.feed cbs v s (c ∷ rest) ≡ Spec.feed cbs (Spec.finish_data (Spec.counted v c)) s rest
    unfolding Spec.feed Spec.feed_in Spec.feed_rawdata
    feed-raw v s c rest st more =
        ap (λ t. Spec.feed cbs (Spec.feed_in cbs t v c s).0 (Spec.feed_in cbs t v c s).1 rest) st
        ∙ ap (λ b. Spec.feed cbs (Spec.finish_data (if b then Spec.counted v c else v)) s rest) more

    feed-hex :
        (v : View P) (s : P) (c : ℕ) (digit : Option ℕ) (rest : Bytes)
        → v.state ≡ hexdata
        → ltb 0 v.data_left ≡ true
        → hex2int c ≡ digit
        → Spec.feed cbs v s (c ∷ rest)
          ≡ Spec.feed cbs (Spec.finish_data (Spec.feed_digit v digit)) s rest
    unfolding Spec.feed Spec.feed_in Spec.feed_hexdata
    feed-hex v s c digit rest st more e =
        ap (λ t. Spec.feed cbs (Spec.feed_in cbs t v c s).0 (Spec.feed_in cbs t v c s).1 rest) st
        ∙ ap
            (λ b.
              Spec.feed cbs (Spec.finish_data (if b then Spec.feed_digit v (hex2int c) else v)) s
                rest)
            more
        ∙ ap (λ d. Spec.feed cbs (Spec.finish_data (Spec.feed_digit v d)) s rest) e

    -- A raw block of the announced size is kept as it came, whatever its bytes.
    pub feed_rawdata-block :
        (c : ℕ) (block rest : Bytes) (v : View P) (s : P)
        → v.state ≡ rawdata
        → v.data_left ≡ length (c ∷ block)
        → length v.kept + length v.line + length (c ∷ block) + 1 < v.size
        → v.size < size_max
        → Spec.feed cbs v s ((c ∷ block) ++ rest) ≡ Spec.feed cbs (keep_block v (c ∷ block)) s rest
    feed_rawdata-block c [] rest v s st e room small =
        feed-raw v s c rest st (ap (ltb 0) e)
        ∙ ap (λ w. Spec.feed cbs w s rest) (counted-last v c e (omega arith))
    feed_rawdata-block c (d ∷ block) rest v s st e room small =
        feed-raw v s c (d ∷ (block ++ rest)) st (lt→ltb 0 v.data_left (omega (arith, e)))
        ∙ ap (λ w. Spec.feed cbs w s (d ∷ (block ++ rest)))
            (counted-more v c (suc (length block)) e (omega arith) (omega arith) (omega arith))
        ∙ feed_rawdata-block d block rest
            (record v { line = v.line ++ (c ∷ []); data_left = suc (length block) }) s st refl
            (omega (arith, length-append v.line (c ∷ []))) small
        ∙ ap
            (λ k.
              Spec.feed cbs
                (record v { state = readline; data_left = 0; kept = v.kept ++ k; line = [] }) s
                rest)
            (append_assoc v.line (c ∷ []) ((d ∷ block) ++ (b'\n' ∷ [])))

    -- A hexadecimal block is kept decoded.
    pub feed_hexdata-block :
        {n : Option ℕ} {input block : Bytes}
        → Decodes n input block
        → (rest : Bytes) (v : View P) (s : P) → v.state ≡ hexdata
        → v.nibble ≡ n
        → v.data_left ≡ length block
        → length v.kept + length v.line + length block + 1 < v.size
        → v.size < size_max
        → Spec.feed cbs v s (input ++ rest)
          ≡ Spec.feed cbs (keep_block (record v { nibble = none }) block) s rest
    feed_hexdata-block (skip {c} {input} {block} h d) rest v s st nb e room small =
        feed-hex v s c none (input ++ rest) st
          (lt→ltb 0 v.data_left (omega (arith, e, Decodes-pos d))) h
        ∙ ap (λ w. Spec.feed cbs (Spec.finish_data w) s (input ++ rest)) (digit-none v)
        ∙ ap (λ w. Spec.feed cbs w s (input ++ rest))
            (finish-more v (omega (arith, e, Decodes-pos d)))
        ∙ feed_hexdata-block d rest v s st nb e room small
    feed_hexdata-block (high {c} {d = x} {input} {block} h d) rest v s st nb e room small =
        feed-hex v s c (some x) (input ++ rest) st
          (lt→ltb 0 v.data_left (omega (arith, e, Decodes-pos d))) h
        ∙ ap (λ w. Spec.feed cbs (Spec.finish_data w) s (input ++ rest)) (digit-first v x nb)
        ∙ ap (λ w. Spec.feed cbs w s (input ++ rest))
            (finish-more (record v { nibble = some x }) (omega (arith, e, Decodes-pos d)))
        ∙ feed_hexdata-block d rest (record v { nibble = some x }) s st refl e room small
    feed_hexdata-block (low {c} {d = x} {h = y} {input} {block} h d) rest v s st nb e room small =
        feed-hex v s c (some x) (input ++ rest) st (lt→ltb 0 v.data_left (omega (arith, e))) h
        ∙ ap (λ w. Spec.feed cbs (Spec.finish_data w) s (input ++ rest)) (digit-second v x y nb)
        ∙ ap (λ w. Spec.feed cbs w s (input ++ rest))
            (counted-more (record v { nibble = none }) (join_nibbles y x) (length block) e
              (Decodes-pos d) (omega arith) (omega arith))
        ∙ feed_hexdata-block d rest
            (record v {
              line = v.line ++ (join_nibbles y x ∷ []);
              data_left = length block;
              nibble = none;
            })
            s st refl refl (omega (arith, length-append v.line (join_nibbles y x ∷ []))) small
        ∙ ap
            (λ k.
              Spec.feed cbs
                (record v {
                  state = readline;
                  data_left = 0;
                  nibble = none;
                  kept = v.kept ++ k;
                  line = [];
                })
                s rest)
            (append_assoc v.line (join_nibbles y x ∷ []) (block ++ (b'\n' ∷ [])))
    feed_hexdata-block (last {c} {d = x} {h = y} h) rest v s st nb e room small =
        feed-hex v s c (some x) rest st (lt→ltb 0 v.data_left (omega (arith, e))) h
        ∙ ap (λ w. Spec.feed cbs (Spec.finish_data w) s rest) (digit-second v x y nb)
        ∙ ap (λ w. Spec.feed cbs w s rest)
            (counted-last (record v { nibble = none }) (join_nibbles y x) e (omega arith))
