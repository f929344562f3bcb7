-- ===== src/Modem/Inversion.antt =====
-- What the success of a sequence of steps says of each step, and of a copy into a buffer
-- (`memcpy` in the drivers).
use attentive.Base.{
  ℕ, ◌+◌, ◌≤◌, ◌≡◌, refl, ap, ◌∙◌, true, ◌&&◌, Option, none, some, [], ◌∷◌, ◌++◌, leb, Bool-cases,
  inl, inr, length, take, drop, arith, length-append, length-take_le, length-drop,
}
use attentive.Base.Int.{ℤ, pos, negsuc}
use attentive.Base.Text.{Bytes, same_bytes}
use attentive.Modem.{
  World, Outcome, done, returned, fault, unfinished, M, bind_outcome, ◌>>=◌, pure, crash, copy_into,
  memcpy,
}

pub same_bytes-eq : (xs ys : Bytes) → same_bytes xs ys ≡ true → xs ≡ ys
unfolding same_bytes
same_bytes-eq [] [] e = refl
same_bytes-eq [] (y ∷ ys) e = cc
same_bytes-eq (x ∷ xs) [] e = cc
same_bytes-eq (x ∷ xs) (y ∷ ys) e = let tail = same_bytes-eq xs ys in ground arith

-- A copy that does not fault has a count that is not negative, stays inside the buffer, and keeps its
-- length.
pub length-copy_into :
    (buffer : Bytes) (at : ℕ) (bytes : Bytes) (n : ℤ) (b : Bytes)
    → copy_into buffer at bytes n ≡ some b
    → (m : ℕ) × (n ≡ pos m) × (at + m ≤ length buffer) × (length b ≡ length buffer)
unfolding copy_into
length-copy_into buffer at bytes (negsuc n) b e = cc
length-copy_into buffer at bytes (pos n) b e =
    elim (Bool-cases (leb n (length bytes) && leb (at + n) (length buffer))) [
      | inl fits ↦ (n, refl, ground arith, long fits)
      | inr over ↦ absurd (ground arith)
    ]
  where
    long : (leb n (length bytes) && leb (at + n) (length buffer)) ≡ true → length b ≡ length buffer
    long fits =
        let parts : b ≡ take at buffer ++ (take n bytes ++ drop (at + n) buffer) = ground arith in
        let inside : (n ≤ length bytes) × (at + n ≤ length buffer) = ground arith in
        omega (
          arith,
          ap length parts,
          length-append (take at buffer) (take n bytes ++ drop (at + n) buffer),
          length-append (take n bytes) (drop (at + n) buffer),
          length-take_le at buffer (omega (arith, inside)),
          length-take_le n bytes inside.0,
          length-drop (at + n) buffer,
          inside.1,
        )

module _ {D : Type 0} where
  >>=-outcome :
      {A B : Type 0} (r : Outcome A) (u v : World D) (f : A → M D B) (b : B)
      → bind_outcome r u f ≡ (done b, v)
      → (a : A) × (r ≡ done a) × (f a u ≡ (done b, v))
  >>=-outcome (done a) u v f b e = (a, refl, e)
  >>=-outcome (returned n) u v f b e = absurd cc
  >>=-outcome fault u v f b e = absurd cc
  >>=-outcome unfinished u v f b e = absurd cc

  -- A sequence that goes on has steps that go on.
  pub >>=-steps :
      {A B : Type 0} (m : M D A) (f : A → M D B) (b : B) (w v : World D)
      → (m >>= f) w ≡ (done b, v)
      → (a : A) × (u : World D) × (m w ≡ (done a, u)) × (f a u ≡ (done b, v))
  >>=-steps m f b w v e =
      let (a, r, e') = >>=-outcome (m w).0 (m w).1 v f b e in
      (a, (m w).1, ap (λ x. (x, (m w).1)) r, e')

  pub length-memcpy :
      (buffer : Bytes) (at : ℕ) (bytes : Bytes) (n : ℤ) (b : Bytes) (w v : World D)
      → memcpy buffer at bytes n w ≡ (done b, v)
      → (m : ℕ) × (n ≡ pos m) × (at + m ≤ length buffer) × (length b ≡ length buffer)
  unfolding memcpy
  length-memcpy buffer at bytes n b w v e = go (copy_into buffer at bytes n) refl e
    where
      go :
          (r : Option Bytes)
          → copy_into buffer at bytes n ≡ r
          → (elim r as (λ _. M D Bytes) [ none ↦ crash | some buffer' ↦ pure buffer' ]) w
            ≡ (done b, v)
          → (m : ℕ) × (n ≡ pos m) × (at + m ≤ length buffer) × (length b ≡ length buffer)
      go none c e = absurd cc
      go (some b') c e =
          length-copy_into buffer at bytes n b (let same : b' ≡ b = cc in c ∙ ap some same)
