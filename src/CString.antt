-- ===== src/CString.antt =====
-- What the drivers use of the C library's string functions: comparison, search, decimal output and
-- `sscanf`. A text is followed by a terminator; bytes behind a NUL within it do not count.
use attentive.Base.{
  ℕ, zero, suc, ◌+◌, ◌-◌, ◌*◌, ◌/◌, ◌%◌, Bool, true, false, ◌&&◌, ◌||◌, Option, none, some, List,
  [], ◌∷◌, ◌++◌, leb, ◌==◌, if◌then◌else◌, refl, ◌≡◌,
}
use attentive.Base.Int.{ℤ, pos, negsuc}
use attentive.Base.Text.{Bytes, codes, same_bytes, starts_with}

-- The bytes before the first NUL.
unfoldable pub c_string : Bytes → Bytes
c_string [] = []
c_string (c ∷ cs) = if c == 0 then [] else c ∷ c_string cs

-- `!strcmp(text, literal)`
unfoldable pub same_string : Bytes → Bytes → Bool
unfolding c_string same_bytes
same_string text literal = same_bytes (c_string text) literal

-- `strchr(text, c)`: the rest of the text from the first `c` on.
unfoldable pub strchr : Bytes → ℕ → Option Bytes
strchr [] c = none
strchr (x ∷ xs) c = if x == c then some (x ∷ xs) else if x == 0 then none else strchr xs c

-- `strstr(text, literal)`, for a literal that is not empty.
unfoldable pub strstr : Bytes → Bytes → Option Bytes
unfolding starts_with
strstr [] literal = none
strstr (x ∷ xs) literal =
    if starts_with literal (x ∷ xs)
    then some (x ∷ xs)
    else if x == 0
    then none
    else strstr xs literal

abbrev pub is_digit : ℕ → Bool
is_digit c = leb b'0' c && leb c b'9'

abbrev pub is_space : ℕ → Bool
is_space c = c == b' ' || (leb 9 c && leb c 13)

-- `%d` and `%zu` on output; the fuel is the number itself plus one.
print_digits : ℕ → ℕ → Bytes
print_digits zero n = []
print_digits (suc fuel) n =
    let more = print_digits fuel (n / 10) in
    (if leb n 9 then [] else more) ++ ((b'0' + n % 10) ∷ [])

unfoldable pub print_nat : ℕ → Bytes
unfolding print_digits
print_nat n = print_digits (suc n) n

unfoldable pub print_int : ℤ → Bytes
unfolding print_nat
print_int (pos n) = print_nat n
print_int (negsuc n) = b'-' ∷ print_nat (suc n)

-- One directive of a `sscanf` format. `skip_int` is `%*d`, `skip_word` is `%*s`; white space in the
-- format is `space`.
pub data Directive : Type 0 where
  lit : ℕ → Directive
  space int skip_int char skip_word : Directive

abbrev pub Format : Type 0
Format = List Directive

-- The literal part of a format.
abbrev pub lits : Bytes → Format → Format
lits [] rest = rest
lits (c ∷ cs) rest = (if is_space c then space else lit c) ∷ lits cs rest

-- White space in a format passes over any white space, also none.
unfoldable pub skip_spaces : Bytes → Bytes
skip_spaces [] = []
skip_spaces (c ∷ cs) = if is_space c then skip_spaces cs else c ∷ cs

unfoldable pub skip_nonspaces : Bytes → Bytes
skip_nonspaces [] = []
skip_nonspaces (c ∷ cs) = if is_space c || c == 0 then c ∷ cs else skip_nonspaces cs

-- The digits of a number read so far, and the rest.
scan_digits : ℕ → Bytes → ℕ × Bytes
scan_digits n [] = (n, [])
scan_digits n (c ∷ cs) = if is_digit c then scan_digits (n * 10 + (c - b'0')) cs else (n, c ∷ cs)

unfoldable pub starts_number : Bytes → Bool
starts_number [] = false
starts_number (c ∷ cs) = is_digit c

negate : ℕ → ℤ
negate zero = pos 0
negate (suc n) = negsuc n

-- `%d`: white space, a sign, at least one digit. Values that do not fit an int are not treated.
scan_sign : Bytes → Option (ℤ × Bytes)
unfolding scan_digits starts_number negate
scan_sign [] = none
scan_sign (c ∷ cs) =
    if c == b'-' && starts_number cs
    then some (negate (scan_digits 0 cs).0, (scan_digits 0 cs).1)
    else if c == b'+' && starts_number cs
    then some (pos (scan_digits 0 cs).0, (scan_digits 0 cs).1)
    else if is_digit c
    then some (pos (scan_digits 0 (c ∷ cs)).0, (scan_digits 0 (c ∷ cs)).1)
    else none

unfoldable pub scan_int : Bytes → Option (ℤ × Bytes)
unfolding scan_sign skip_spaces
scan_int text = scan_sign (skip_spaces text)

-- The values that the conversions stored, in order, up to the first that fails. `sscanf` returns
-- their number, or EOF if the text ends before the first.
unfoldable pub sscanf : Format → Bytes → List ℤ
unfolding scan_int skip_spaces skip_nonspaces
sscanf [] text = []
sscanf (lit c ∷ format) [] = []
sscanf (lit c ∷ format) (x ∷ xs) = elim (x == c) [ true ↦ sscanf format xs | false ↦ [] ]
sscanf (space ∷ format) text = sscanf format (skip_spaces text)
sscanf (int ∷ format) text = elim (scan_int text) [
  | none ↦ []
  | some (n, rest) ↦ n ∷ sscanf format rest
]
sscanf (skip_int ∷ format) text = elim (scan_int text) [
  | none ↦ []
  | some (n, rest) ↦ sscanf format rest
]
sscanf (char ∷ format) [] = []
sscanf (char ∷ format) (x ∷ xs) = pos x ∷ sscanf format xs
sscanf (skip_word ∷ format) text = sscanf format (skip_nonspaces (skip_spaces text))

scan_test :
    (sscanf (lits (codes "+CREG: ") (skip_int ∷ lits (codes ",") (int ∷ []))) (codes "+CREG: 0,5")
      ≡ pos 5 ∷ [])
    × (print_nat 1460 ≡ codes "1460")
unfolding sscanf print_nat
scan_test = (refl, refl)
