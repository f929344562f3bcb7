-- ===== src/Parser/Lines.antt =====
-- One line on the wire: its bytes, CR and LF, for a parser that reads text.
use attentive.Base.{
  ℕ, zero, suc, ◌+◌, ◌-◌, ◌<◌, ◌≡◌, ◌≢◌, sym, ap, ◌∙◌, none, [], ◌∷◌, ◌++◌, arith, length,
  length-append, take, take-nil, take-whole, append_assoc, append-nil, ◌⊎◌,
}
use attentive.Base.Text.{Bytes}
use attentive.Parser.{idle, readline, Callbacks}
use attentive.Parser.Spec
use attentive.Parser.Spec.{View}

-- No byte of the line ends it.
abbrev pub IsPlain : Bytes → Type 0
IsPlain [] = Unit
IsPlain (c ∷ cs) = (c ≢ b'\r') × (c ≢ b'\n') × IsPlain cs

-- The line with its terminator.
abbrev pub wire : Bytes → Bytes → Bytes
wire line rest = line ++ (b'\r' ∷ b'\n' ∷ rest)

module _ {P : Type 0} where
  -- The parser reads text, waits for no prompt, and has no character handler.
  pub record Listens (v : View P) : Type 0 where
    pub reads : (v.state ≡ idle) ⊎ (v.state ≡ readline)
    pub plain : v.character_handler ≡ none

  module _ (cbs : Callbacks P) where
    pub feed-char :
        (v : View P) (s : P) (c : ℕ) (rest : Bytes)
        → Listens v
        → c ≢ b'\r'
        → c ≢ b'\n'
        → length v.kept + length v.line + 1 < v.size
        → Spec.feed cbs v s (c ∷ rest)
          ≡ Spec.feed cbs (record v { line = v.line ++ (c ∷ []) }) s rest
    unfolding Spec.feed Spec.feed_in Spec.feed_text Spec.append Spec.at_prompt
    feed-char v s c rest l h k room = ground (arith, l)

    pub feed-return :
        (v : View P) (s : P) (rest : Bytes)
        → Listens v
        → Spec.feed cbs v s (b'\r' ∷ rest) ≡ Spec.feed cbs v s rest
    unfolding Spec.feed Spec.feed_in Spec.feed_text Spec.append Spec.at_prompt
    feed-return v s rest l = ground (arith, l)

    feed-newline :
        (v : View P) (s : P) (rest : Bytes)
        → Listens v
        → Spec.feed cbs v s (b'\n' ∷ rest)
          ≡ Spec.feed cbs (Spec.handle_line cbs v s).0 (Spec.handle_line cbs v s).1 rest
    unfolding Spec.feed Spec.feed_in Spec.feed_text Spec.append Spec.at_prompt
    feed-newline v s rest l = ground (arith, l)

    pub feed-chars :
        (line rest : Bytes) (v : View P) (s : P)
        → Listens v
        → IsPlain line
        → length v.kept + length v.line + length line < v.size
        → Spec.feed cbs v s (line ++ rest)
          ≡ Spec.feed cbs (record v { line = v.line ++ line }) s rest
    feed-chars [] rest v s l p room =
        ap (λ x. Spec.feed cbs (record v { line = x }) s rest) (sym (append-nil v.line))
    feed-chars (c ∷ cs) rest v s l p room =
        feed-char v s c (cs ++ rest) l p.0 p.1 (omega arith)
        ∙ feed-chars cs rest (record v { line = v.line ++ (c ∷ []) }) s
            (record { reads = l.reads; plain = l.plain }) p.2
            (omega (arith, length-append v.line (c ∷ [])))
        ∙ ap (λ x. Spec.feed cbs (record v { line = x }) s rest) (append_assoc v.line (c ∷ []) cs)

    feed-full :
        (v : View P) (s : P) (c : ℕ) (rest : Bytes)
        → Listens v
        → c ≢ b'\r'
        → c ≢ b'\n'
        → length v.kept + length v.line + 1 ≡ v.size
        → Spec.feed cbs v s (c ∷ rest) ≡ Spec.feed cbs v s rest
    unfolding Spec.feed Spec.feed_in Spec.feed_text Spec.append Spec.at_prompt
    feed-full v s c rest l h k full = ground (arith, l)

    -- Of any line, as much is read as there is room for.
    feed-cut :
        (line rest : Bytes) (n : ℕ) (v : View P) (s : P)
        → Listens v
        → IsPlain line
        → length v.kept + length v.line + n + 1 ≡ v.size
        → Spec.feed cbs v s (line ++ rest)
          ≡ Spec.feed cbs (record v { line = v.line ++ take n line }) s rest
    feed-cut [] rest n v s l p room =
        ap (λ x. Spec.feed cbs (record v { line = x }) s rest)
          (sym (ap (λ x. v.line ++ x) (take-nil n) ∙ append-nil v.line))
    feed-cut (c ∷ cs) rest zero v s l p room =
        feed-full v s c (cs ++ rest) l p.0 p.1 (omega arith) ∙ feed-cut cs rest zero v s l p.2 room
    feed-cut (c ∷ cs) rest (suc n) v s l p room =
        feed-char v s c (cs ++ rest) l p.0 p.1 (omega arith)
        ∙ feed-cut cs rest n (record v { line = v.line ++ (c ∷ []) }) s
            (record { reads = l.reads; plain = l.plain }) p.2
            (omega (arith, length-append v.line (c ∷ [])))
        ∙ ap (λ x. Spec.feed cbs (record v { line = x }) s rest)
            (append_assoc v.line (c ∷ []) (take n cs))

    pub feed-wire_cut :
        (line rest : Bytes) (n : ℕ) (v : View P) (s : P)
        → Listens v
        → v.line ≡ []
        → IsPlain line
        → length v.kept + n + 1 ≡ v.size
        → Spec.feed cbs v s (wire line rest)
          ≡ Spec.feed cbs
              (Spec.handle_text cbs (record v { line = take n line }) (take n line) s).0
              (Spec.handle_text cbs (record v { line = take n line }) (take n line) s).1
              rest
    unfolding Spec.handle_line
    feed-wire_cut line rest n v s l e p room =
        feed-cut line (b'\r' ∷ b'\n' ∷ rest) n v s l p (omega (arith, ap length e))
        ∙ ap (λ x. Spec.feed cbs (record v { line = x ++ take n line }) s (b'\r' ∷ b'\n' ∷ rest)) e
        ∙ feed-return w s (b'\n' ∷ rest) (record { reads = l.reads; plain = l.plain })
        ∙ feed-newline w s rest (record { reads = l.reads; plain = l.plain })
      where
        w : View P
        w = record v { line = take n line }

    -- A line that fits is handled whole, and nothing of its terminator is left.
    pub feed-wire :
        (line rest : Bytes) (v : View P) (s : P)
        → Listens v
        → v.line ≡ []
        → IsPlain line
        → length v.kept + length line < v.size
        → Spec.feed cbs v s (wire line rest)
          ≡ Spec.feed cbs
              (Spec.handle_text cbs (record v { line = line }) line s).0
              (Spec.handle_text cbs (record v { line = line }) line s).1
              rest
    feed-wire line rest v s l e p room =
        feed-wire_cut line rest (v.size - length v.kept - 1) v s l e p (omega arith)
        ∙ ap
            (λ x.
              Spec.feed cbs (Spec.handle_text cbs (record v { line = x }) x s).0
                (Spec.handle_text cbs (record v { line = x }) x s).1 rest)
            (take-whole (v.size - length v.kept - 1) line (omega arith))
