-- ===== src/Parser/Exchange.antt =====
-- A command's whole exchange: the lines that the modem sends, up to the final one.
use attentive.Base.{
  ℕ, suc, ◌+◌, ◌-◌, ◌<◌, ◌≤◌, ◌≡◌, ◌≢◌, refl, sym, ap, ◌∙◌, false, none, List, [], ◌∷◌, ◌++◌, arith,
  length, take, length-append, append_assoc, append-nil, inr,
}
use attentive.Base.Text.{Bytes}
use attentive.Response
use attentive.Response.{ResponseType}
use attentive.Parser.{readline, Callbacks, Parser}
use attentive.Parser.Spec
use attentive.Parser.Spec.{View}
use attentive.Parser.Lines.{IsPlain, wire, feed-wire}
use attentive.Parser.Handled.{
  Sees, with_line, keep_line, handle-Sees, dispatch-intermediate, dispatch-urc,
}
use attentive.Parser.Valid.{IsReady, empty_view}

-- A line that belongs to the response, or one that comes in between unasked.
pub data Item : Type 0 where
  stored : Bytes → Item
  unsolicited : Bytes → Item

abbrev pub bytes_of : Item → Bytes
bytes_of (stored line) = line
bytes_of (unsolicited line) = line

-- What the modem sends for the items, in front of `rest`.
abbrev pub send : List Item → Bytes → Bytes
send [] rest = rest
send (i ∷ items) rest = wire (bytes_of i) (send items rest)

abbrev pub stored_lines : List Item → List Bytes
stored_lines [] = []
stored_lines (stored line ∷ items) = line ∷ stored_lines items
stored_lines (unsolicited line ∷ items) = stored_lines items

-- The lines with a newline between each two.
abbrev pub join_lines : List Bytes → Bytes
join_lines [] = []
join_lines (line ∷ []) = line
join_lines (line ∷ next ∷ lines) = line ++ (b'\n' ∷ join_lines (next ∷ lines))

abbrev pub stored_text : List Bytes → Bytes
stored_text [] = []
stored_text (line ∷ lines) = line ++ (b'\n' ∷ stored_text lines)

drop_last-cons : (c d : ℕ) (ys : Bytes) → Spec.drop_last (c ∷ d ∷ ys) ≡ c ∷ Spec.drop_last (d ∷ ys)
unfolding Spec.drop_last
drop_last-cons c d ys =
    ap (λ n. take n (c ∷ d ∷ ys))
      (let e : suc (suc (length ys)) - 1 ≡ suc (suc (length ys) - 1) = omega arith in e)

drop_last-append :
    (xs : Bytes) (d : ℕ) (ys : Bytes)
    → Spec.drop_last (xs ++ (d ∷ ys)) ≡ xs ++ Spec.drop_last (d ∷ ys)
drop_last-append [] d ys = refl
drop_last-append (x ∷ []) d ys = drop_last-cons x d ys
drop_last-append (x ∷ y ∷ xs) d ys =
    drop_last-cons x y (xs ++ (d ∷ ys)) ∙ ap (◌∷◌ x) (drop_last-append (y ∷ xs) d ys)

pub drop_last-concat : (xs : Bytes) (d : ℕ) → Spec.drop_last (xs ++ (d ∷ [])) ≡ xs
unfolding Spec.drop_last
drop_last-concat xs d = drop_last-append xs d [] ∙ append-nil xs

-- Without its last newline, the stored text is the lines joined.
pub drop_last-stored_text :
    (lines : List Bytes) → Spec.drop_last (stored_text lines) ≡ join_lines lines
unfolding Spec.drop_last
drop_last-stored_text [] = refl
drop_last-stored_text (line ∷ []) = drop_last-concat line b'\n'
drop_last-stored_text (line ∷ next ∷ lines) =
    drop_last-append line b'\n' (next ++ (b'\n' ∷ stored_text lines))
    ∙ ap (λ x. line ++ x)
        (drop_last-append (b'\n' ∷ next) b'\n' (stored_text lines)
          ∙ ap (◌∷◌ b'\n') (
              sym (drop_last-append next b'\n' (stored_text lines))
              ∙ drop_last-stored_text (next ∷ lines)))

pub stored_text-snoc :
    (lines : List Bytes) (line : Bytes)
    → stored_text lines ++ (line ++ (b'\n' ∷ [])) ≡ stored_text (lines ++ (line ∷ []))
stored_text-snoc [] line = refl
stored_text-snoc (l ∷ lines) line =
    append_assoc l (b'\n' ∷ stored_text lines) (line ++ (b'\n' ∷ []))
    ∙ ap (λ x. l ++ (b'\n' ∷ x)) (stored_text-snoc lines line)

pub length-wire : (line rest : Bytes) → length (wire line rest) ≡ length line + 2 + length rest
length-wire line rest = omega (arith, length-append line (b'\r' ∷ b'\n' ∷ rest))

pub length-stored_text :
    (items : List Item) (rest : Bytes)
    → length (stored_text (stored_lines items)) + length rest ≤ length (send items rest)
length-stored_text [] rest = omega arith
length-stored_text (stored line ∷ items) rest = omega (
  arith,
  length-wire line (send items rest),
  length-stored_text items rest,
  length-append line (b'\n' ∷ stored_text (stored_lines items)),
)
length-stored_text (unsolicited line ∷ items) rest =
    omega (arith, length-wire line (send items rest), length-stored_text items rest)

module _ {P : Type 0} (cbs : Callbacks P) where
  -- The items are plain lines that are not empty, each of the type that it stands for. Scanning them and
  -- the calls of the URC handler, in order, take the private state from the first to the second.
  abbrev pub AreSeen : List Item → P → P → Type 0
  AreSeen [] s t = s ≡ t
  AreSeen (stored line ∷ items) s t =
      (u : P) × IsPlain line
      × (line ≢ [])
      × Sees cbs Response.intermediate line s u
      × AreSeen items u t
  AreSeen (unsolicited line ∷ items) s t =
      (u : P) × IsPlain line
      × (line ≢ [])
      × Sees cbs Response.urc line s u
      × AreSeen items (cbs.handle_urc line u) t

  -- The parser awaits a response, and is at the start of a line.
  pub record Reads (v : View P) : Type 0 where
    pub state : v.state ≡ readline
    pub handler : v.character_handler ≡ none
    pub line : v.line ≡ []

  pub feed-line :
      (type : ResponseType) (v : View P) (s s' : P) (line rest : Bytes)
      → Reads v
      → IsPlain line
      → line ≢ []
      → Sees cbs type line s s'
      → length v.kept + length line < v.size
      → Spec.feed cbs v s (wire line rest)
        ≡ Spec.feed cbs
            (Spec.dispatch cbs type line (with_line v line) s').0
            (Spec.dispatch cbs type line (with_line v line) s').1
            rest
  feed-line type v s s' line rest r p ne sees room =
      feed-wire cbs line rest v s (record { reads = inr r.state; plain = r.handler }) r.line p room
      ∙ ap (λ w. Spec.feed cbs w.0 w.1 rest)
          (handle-Sees cbs type (with_line v line) s s' line r.state ne sees)

  pub feed-items :
      (items : List Item) (rest : Bytes) (v : View P) (s t : P)
      → Reads v
      → AreSeen items s t
      → length v.kept + length (send items rest) < v.size
      → Spec.feed cbs v s (send items rest)
        ≡ Spec.feed cbs
            (record v { kept = v.kept ++ stored_text (stored_lines items); line = [] })
            t
            rest
  feed-items [] rest v s t r seen room =
      ap (λ w. Spec.feed cbs w s rest)
        (λ i. record v { kept = sym (append-nil v.kept) i; line = r.line i })
      ∙ ap (λ x. Spec.feed cbs (record v { kept = v.kept ++ []; line = [] }) x rest) seen
  feed-items (stored line ∷ items) rest v s t r (u, p, ne, sees, seen) room =
      feed-line Response.intermediate v s u line (send items rest) r p ne sees (omega (arith, long))
      ∙ ap (λ w. Spec.feed cbs w.0 w.1 (send items rest))
          (dispatch-intermediate cbs v u line r.state (omega (arith, long)))
      ∙ feed-items items rest (keep_line v line) u t
          (record { state = r.state; handler = r.handler; line = refl }) seen
          (omega (
            arith,
            long,
            length-append v.kept (line ++ (b'\n' ∷ [])),
            length-append line (b'\n' ∷ []),
          ))
      ∙ ap (λ k. Spec.feed cbs (record v { kept = k; line = [] }) t rest)
          (append_assoc v.kept (line ++ (b'\n' ∷ [])) (stored_text (stored_lines items))
            ∙ ap (λ x. v.kept ++ x)
                (append_assoc line (b'\n' ∷ []) (stored_text (stored_lines items))))
    where
      long : length (wire line (send items rest)) ≡ length line + 2 + length (send items rest)
      long = length-wire line (send items rest)
  feed-items (unsolicited line ∷ items) rest v s t r (u, p, ne, sees, seen) room =
      feed-line Response.urc v s u line (send items rest) r p ne sees
        (omega (arith, length-wire line (send items rest)))
      ∙ ap (λ w. Spec.feed cbs w.0 w.1 (send items rest)) (dispatch-urc cbs v u line r.state)
      ∙ feed-items items rest (record v { line = [] }) (cbs.handle_urc line u) t
          (record { state = r.state; handler = r.handler; line = refl }) seen
          (omega (arith, length-wire line (send items rest)))

  -- The exchange up to its final line.
  pub feed-exchange :
      (type : ResponseType) (items : List Item) (line : Bytes) (p : Parser P) (s t u : P)
      → IsReady p
      → AreSeen items s t
      → IsPlain line
      → line ≢ []
      → Sees cbs type line t u
      → length (send items (wire line [])) < p.buf_size
      → let v : View P = record (empty_view readline false p) {
        kept = stored_text (stored_lines items);
      } in
        Spec.feed cbs (empty_view readline false p) s (send items (wire line []))
        ≡ Spec.feed cbs
            (Spec.dispatch cbs type line (with_line v line) u).0
            (Spec.dispatch cbs type line (with_line v line) u).1
            []
  feed-exchange type items line p s t u h seen plain ne sees room =
      feed-items items (wire line []) (empty_view readline false p) s t
        (record { state = refl; handler = refl; line = refl }) seen (omega arith)
      ∙ feed-line type v t u line [] (record { state = refl; handler = refl; line = refl }) plain ne
          sees (omega (arith, room, length-stored_text items (wire line []), length-wire line []))
    where
      v : View P
      v = record (empty_view readline false p) { kept = stored_text (stored_lines items) }
