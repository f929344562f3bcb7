-- ===== src/Modem/Keeps.antt =====
-- Code that comes back, without a fault, and leaves the common state of the modem alone.
use attentive.Base.{
  if_both, ℕ, ◌≡◌, refl, ap, Bool, Option, none, some, List, [], ◌∷◌, leb, length, ◌++◌, ◌==◌,
  if◌then◌else◌,
}
use mathlib.Core.Path.{subst}
use attentive.Base.Int.{ℤ, minus_one}
use attentive.Base.Text.{Bytes}
use attentive.CString.{Format, same_string}
use attentive.Modem.{
  World, Cellular, Reply, Action, command, Outcome, done, returned, fault, unfinished, M, Notice,
  bind_outcome, ◌>>=◌, pure, return, next_reply, exchange, at_command, simple_scanf, scan, call,
  expect_ok, at_command_simple, not_null, init_modem, at_set_timeout, at_set_callbacks,
}

module _ {D : Type 0} where
  -- What comes out goes on or returns early, with this common state.
  abbrev Kept : {A : Type 0} → Cellular → Outcome A × World D → Type 0
  Kept c (done a, w) = w.modem ≡ c
  Kept c (returned n, w) = w.modem ≡ c
  Kept c (fault, w) = ⊥
  Kept c (unfinished, w) = ⊥

  abbrev pub Keeps : {A : Type 0} → M D A → Type 0
  Keeps m = (w : World D) → Kept w.modem (m w)

  -- A call comes back with some result, and leaves the common state alone.
  abbrev pub ComesBack : M D ℤ → Type 0
  ComesBack m =
      (w : World D) → (r : ℤ) × (v : World D) × (call m w ≡ (done r, v)) × (v.modem ≡ w.modem)

  pub Keeps-ComesBack : (m : M D ℤ) → Keeps m → ComesBack m
  Keeps-ComesBack m h w = go (m w) refl (h w)
    where
      go :
          (x : Outcome ℤ × World D)
          → m w ≡ x
          → Kept w.modem x
          → (r : ℤ) × (v : World D) × (call m w ≡ (done r, v)) × (v.modem ≡ w.modem)
      go (done a, v) e k = (a, v, ap (λ x. call (λ (_ : World D). x) w) e, k)
      go (returned n, v) e k = (n, v, ap (λ x. call (λ (_ : World D). x) w) e, k)
      go (fault, v) e k = absurd k
      go (unfinished, v) e k = absurd k

  pub >>=-Keeps :
      {A B : Type 0} (m : M D A) (f : A → M D B)
      → Keeps m
      → ((a : A) → Keeps (f a))
      → Keeps (m >>= f)
  >>=-Keeps {A} {B} m f h k w = go (m w).0 (m w).1 (h w)
    where
      go : (o : Outcome A) (u : World D) → Kept w.modem (o, u) → Kept w.modem (bind_outcome o u f)
      go (done a) u e = subst (λ c. Kept c (f a u)) e (k a u)
      go (returned n) u e = e
      go fault u e = absurd e
      go unfinished u e = absurd e

  pub pure-Keeps : {A : Type 0} (a : A) → Keeps (pure a)
  pure-Keeps a w = refl

  pub return-Keeps : (A : Type 0) (n : ℤ) → Keeps {A = A} (return n)
  return-Keeps A n w = refl

  pub if-Keeps :
      {A : Type 0} (b : Bool) (m m' : M D A) → Keeps m → Keeps m' → Keeps (if b then m else m')
  if-Keeps b m m' h h' = if_both Keeps b m m' h h'

  pub set_timeout-Keeps : (n : ℕ) → Keeps (at_set_timeout n)
  unfolding at_set_timeout
  set_timeout-Keeps n w = refl

  pub set_callbacks-Keeps : (b : Bool) → Keeps (at_set_callbacks b)
  unfolding at_set_callbacks
  set_callbacks-Keeps b w = refl

  pub not_null-Keeps : (r : Option Bytes) → Keeps (not_null r)
  unfolding not_null
  not_null-Keeps none w = refl
  not_null-Keeps (some response) w = refl

  pub simple_scanf-Keeps :
      (r : Option Bytes) (format : Format) (n : ℕ) → Keeps (simple_scanf r format n)
  unfolding simple_scanf
  simple_scanf-Keeps none format n = return-Keeps (List ℤ) minus_one
  simple_scanf-Keeps (some response) format n =
      if-Keeps (length (scan format response) == n) (pure (scan format response)) (return minus_one)
        (pure-Keeps {A = List ℤ} (scan format response)) (return-Keeps (List ℤ) minus_one)

  module _ (notice : Notice D) where
    expect_ok-Keeps : (r : Option Bytes) → Keeps (expect_ok notice r)
    unfolding expect_ok
    expect_ok-Keeps none = return-Keeps (Unit {0}) minus_one
    expect_ok-Keeps (some response) =
        if-Keeps (same_string response []) (pure tt) (return minus_one) (pure-Keeps tt)
          (return-Keeps (Unit {0}) minus_one)

    exchange-Keeps : (a : Action) → Keeps (exchange notice a)
    unfolding exchange next_reply
    exchange-Keeps a w = go w.script
      where
        go :
            (script : List Reply)
            → Kept w.modem (
              (next_reply notice script (record w { log = a ∷ w.log })).0,
              record ((next_reply notice script (record w { log = a ∷ w.log })).1) {
                command_scanner = none;
              },
            )
        go [] = refl
        go (reply ∷ script) = refl

    pub at_command-Keeps : (line : Bytes) → Keeps (at_command notice line)
    unfolding at_command
    at_command-Keeps line =
        if-Keeps (leb 79 (length line)) (pure none)
          (exchange notice (command (line ++ (b'\r' ∷ [])))) (pure-Keeps {A = Option Bytes} none)
          (exchange-Keeps _)

    pub at_command_simple-Keeps : (line : Bytes) → Keeps (at_command_simple notice line)
    unfolding at_command_simple
    at_command_simple-Keeps line =
        >>=-Keeps (at_command notice line) (expect_ok notice) (at_command-Keeps line)
          expect_ok-Keeps

    pub init_modem-Keeps : (lines : List Bytes) → Keeps (init_modem notice lines)
    unfolding init_modem
    init_modem-Keeps [] = pure-Keeps tt
    init_modem-Keeps (line ∷ lines) =
        >>=-Keeps (at_command_simple notice line) (λ _. init_modem notice lines)
          (at_command_simple-Keeps line) (λ _. init_modem-Keeps lines)
