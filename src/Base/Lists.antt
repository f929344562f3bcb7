-- ===== src/Base/Lists.antt =====
-- Lists measured and indexed by native numbers, under the library's names, and what it means
-- that an array holds a text at its front.
use Prim.Native.Nat.{ℕ, zero, suc, ◌+◌, ◌-◌, ◌≤◌, ◌<◌}
use mathlib.Core.Path.{◌≡◌, refl, ap, ◌∙◌}
use mathlib.Core.Option.{Option, none, some}
use mathlib.Core.List.{List, [], ◌∷◌, ◌++◌}
use native.Mathlib.Omega.{arith}

module _ {ℓ} {A : Type ℓ} where
  abbrev pub length : List A → ℕ
  length [] = 0
  length (x ∷ xs) = suc (length xs)

  abbrev pub get_elem? : List A → ℕ → Option A
  get_elem? [] i = none
  get_elem? (x ∷ xs) zero = some x
  get_elem? (x ∷ xs) (suc i) = get_elem? xs i

  -- A write out of bounds changes nothing; the callers test the bound.
  abbrev pub set : List A → ℕ → A → List A
  set [] i v = []
  set (x ∷ xs) zero v = v ∷ xs
  set (x ∷ xs) (suc i) v = x ∷ set xs i v

  abbrev pub take : ℕ → List A → List A
  take zero xs = []
  take (suc n) [] = []
  take (suc n) (x ∷ xs) = x ∷ take n xs

  abbrev pub drop : ℕ → List A → List A
  drop zero xs = xs
  drop (suc n) [] = []
  drop (suc n) (x ∷ xs) = drop n xs

  pub length-append : (xs ys : List A) → length (xs ++ ys) ≡ length xs + length ys
  length-append [] ys = omega arith
  length-append (x ∷ xs) ys = omega (arith, length-append xs ys)

  pub length-set : (xs : List A) (i : ℕ) (v : A) → length (set xs i v) ≡ length xs
  length-set [] i v = refl
  length-set (x ∷ xs) zero v = refl
  length-set (x ∷ xs) (suc i) v = ap suc (length-set xs i v)

  pub take-nil : (n : ℕ) → ◌≡◌ {A = List A} (take n []) []
  take-nil zero = refl
  take-nil (suc n) = refl

  pub take-whole : (n : ℕ) (xs : List A) → length xs ≤ n → take n xs ≡ xs
  take-whole n [] h = take-nil n
  take-whole zero (x ∷ xs) h = absurd (omega arith)
  take-whole (suc n) (x ∷ xs) h = ap (◌∷◌ x) (take-whole n xs (omega arith))

  pub length-take_le : (n : ℕ) (xs : List A) → n ≤ length xs → length (take n xs) ≡ n
  length-take_le zero xs h = refl
  length-take_le (suc n) [] h = absurd (omega arith)
  length-take_le (suc n) (x ∷ xs) h = ap suc (length-take_le n xs (omega arith))

  pub length-drop : (n : ℕ) (xs : List A) → length (drop n xs) ≡ length xs - n
  length-drop zero xs = omega arith
  length-drop (suc n) [] = omega arith
  length-drop (suc n) (x ∷ xs) = omega (arith, length-drop n xs)

  pub take-set_zero : (xs : List A) (v : A) → 0 < length xs → take 1 (set xs 0 v) ≡ v ∷ []
  take-set_zero [] v h = absurd (omega arith)
  take-set_zero (x ∷ xs) v h = refl

  pub append_nil-inv : (xs ys : List A) → length (xs ++ ys) ≡ length xs → ys ≡ []
  append_nil-inv [] [] h = refl
  append_nil-inv [] (y ∷ ys) h = absurd (omega arith)
  append_nil-inv (x ∷ xs) ys h = append_nil-inv xs ys (omega arith)

module _ {A : Type 0} where
  -- The array begins with the text.
  abbrev pub Holds : List A → List A → Type 0
  Holds [] buf = Unit
  Holds (x ∷ xs) [] = ⊥
  Holds (x ∷ xs) (b ∷ buf) = (b ≡ x) × Holds xs buf

  pub Holds-length : (xs buf : List A) → Holds xs buf → length xs ≤ length buf
  Holds-length [] buf h = omega arith
  Holds-length (x ∷ xs) [] h = absurd h
  Holds-length (x ∷ xs) (b ∷ buf) h = omega (arith, Holds-length xs buf h.1)

  pub Holds-left : (xs ys buf : List A) → Holds (xs ++ ys) buf → Holds xs buf
  Holds-left [] ys buf h = tt
  Holds-left (x ∷ xs) ys [] h = absurd h
  Holds-left (x ∷ xs) ys (b ∷ buf) h = (h.0, Holds-left xs ys buf h.1)

  -- A write at or past the end of the text leaves the text alone.
  pub Holds-set :
      (xs buf : List A) (i : ℕ) (v : A) → length xs ≤ i → Holds xs buf → Holds xs (set buf i v)
  Holds-set [] buf i v le h = tt
  Holds-set (x ∷ xs) [] i v le h = absurd h
  Holds-set (x ∷ xs) (b ∷ buf) zero v le h = absurd (omega arith)
  Holds-set (x ∷ xs) (b ∷ buf) (suc i) v le h = (h.0, Holds-set xs buf i v (omega arith) h.1)

  -- A write just behind the text extends it.
  pub Holds-concat :
      (xs buf : List A) (i : ℕ) (v : A)
      → length xs ≡ i
      → i < length buf
      → Holds xs buf
      → Holds (xs ++ (v ∷ [])) (set buf i v)
  Holds-concat [] [] i v e lt h = absurd (omega arith)
  Holds-concat [] (b ∷ buf) zero v e lt h = (refl, tt)
  Holds-concat [] (b ∷ buf) (suc i) v e lt h = absurd (omega arith)
  Holds-concat (x ∷ xs) [] i v e lt h = absurd h
  Holds-concat (x ∷ xs) (b ∷ buf) zero v e lt h = absurd (omega arith)
  Holds-concat (x ∷ xs) (b ∷ buf) (suc i) v e lt h =
      (h.0, Holds-concat xs buf i v (omega arith) (omega arith) h.1)

  -- The bytes from the end of the first part on are the second part.
  pub take-Holds : (xs buf : List A) → Holds xs buf → take (length xs) buf ≡ xs
  take-Holds [] buf h = refl
  take-Holds (x ∷ xs) [] h = absurd h
  take-Holds (x ∷ xs) (b ∷ buf) h =
      ap (λ c. c ∷ take (length xs) buf) h.0 ∙ ap (◌∷◌ x) (take-Holds xs buf h.1)

  pub slice-Holds :
      (xs ys buf : List A) → Holds (xs ++ ys) buf → take (length ys) (drop (length xs) buf) ≡ ys
  slice-Holds [] ys buf h = take-Holds ys buf h
  slice-Holds (x ∷ xs) ys [] h = absurd h
  slice-Holds (x ∷ xs) ys (b ∷ buf) h = slice-Holds xs ys buf h.1

  pub take-Holds_le :
      (n : ℕ) (xs buf : List A) → n ≤ length xs → Holds xs buf → take n buf ≡ take n xs
  take-Holds_le zero xs buf le h = refl
  take-Holds_le (suc n) [] buf le h = absurd (omega arith)
  take-Holds_le (suc n) (x ∷ xs) [] le h = absurd h
  take-Holds_le (suc n) (x ∷ xs) (b ∷ buf) le h =
      ap (λ c. c ∷ take n buf) h.0 ∙ ap (◌∷◌ x) (take-Holds_le n xs buf (omega arith) h.1)

  pub take-set : (n i : ℕ) (v : A) (xs : List A) → n ≤ i → take n (set xs i v) ≡ take n xs
  take-set zero i v xs le = refl
  take-set (suc n) i v [] le = refl
  take-set (suc n) zero v (x ∷ xs) le = absurd (omega arith)
  take-set (suc n) (suc i) v (x ∷ xs) le = ap (◌∷◌ x) (take-set n i v xs (omega arith))

  pub Holds-take : (n : ℕ) (xs : List A) → Holds (take n xs) xs
  Holds-take zero xs = tt
  Holds-take (suc n) [] = tt
  Holds-take (suc n) (x ∷ xs) = (refl, Holds-take n xs)

  pub Holds-take-drop : (m n : ℕ) (xs : List A) → Holds (take m xs ++ take n (drop m xs)) xs
  Holds-take-drop zero n xs = Holds-take n xs
  Holds-take-drop (suc m) zero [] = tt
  Holds-take-drop (suc m) (suc n) [] = tt
  Holds-take-drop (suc m) n (x ∷ xs) = (refl, Holds-take-drop m n xs)
