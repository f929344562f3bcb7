-- ===== src/Posix/Agrees.antt =====
-- The flags of a channel agree with where its threads stand, whenever no thread holds the mutex.
use attentive.Base.{
  ℕ, ◌≡◌, refl, sym, Bool, true, false, ◌&&◌, some, [], ◌∷◌, Bool-cases, if_both, inl, inr, arith,
  length, leb, ◌++◌,
}
use mathlib.Core.Path.{subst}
use attentive.Base.Text.{Bytes}
use attentive.Posix.{
  Posix, Input, byte, interrupted, ended, Reader, Client, Control, reader_test, reader_report,
  reader_feed, command_begin, at_command, command_test, command_end, at_open, at_close, close_test,
  free_stop, at_set_timeout, at_expect_dataprompt,
}
use attentive.Posix.Step.{Wakes, Signals, Passes, Step, one, nobody, silent, signal}
use attentive.Posix.Parsing.{reader_feed-some}

-- The reader has the descriptor.
abbrev pub in_read : Reader → Bool
in_read Reader.reading = true
in_read (Reader.reporting input) = true
in_read _ = false

-- `at_close` waits for the reader.
abbrev pub in_close : Control → Bool
in_close (Control.parked freeing) = true
in_close (Control.awake freeing) = true
in_close _ = false

-- `at_free` has closed the channel; it has stopped it.
abbrev pub in_free : Control → Bool
in_free Control.stopping = true
in_free Control.joining = true
in_free Control.freed = true
in_free _ = false

abbrev pub is_stopped : Control → Bool
is_stopped Control.joining = true
is_stopped Control.freed = true
is_stopped _ = false

module _ {D : Type 0} where
  -- The flags agree with where the threads stand.
  pub record Agrees (s : Posix D) : Type 0 where
    pub busy : s.busy ≡ in_read s.reader
    pub open_fd : s.open_ ≡ true → s.fd ≡ true
    pub busy_fd : s.busy ≡ true → s.fd ≡ true
    pub closing : in_close s.control ≡ true → s.open_ ≡ false
    pub closing_fd : in_close s.control ≡ true → s.fd ≡ true
    pub closed : s.open_ ≡ false → in_close s.control ≡ false → s.busy ≡ false
    pub freeing : in_free s.control ≡ true → s.open_ ≡ false
    pub stopped : s.running ≡ false → is_stopped s.control ≡ true

  pub Wakes-Agrees : {s t : Posix D} → Wakes s t → Agrees s → Agrees t
  Wakes-Agrees (Wakes.reader e) h = ground arith
  Wakes-Agrees (Wakes.client e) h = ground arith
  Wakes-Agrees (Wakes.control freeing e) h = ground arith

  Signals-Agrees : {s t : Posix D} → Signals s t → Agrees s → Agrees t
  Signals-Agrees (one w) h = Wakes-Agrees w h
  Signals-Agrees (nobody q) h = h

  -- The facts that `Agrees` reads.
  record Same (s t : Posix D) : Type 0 where
    busy : t.busy ≡ s.busy
    fd : t.fd ≡ s.fd
    open_ : t.open_ ≡ s.open_
    running : t.running ≡ s.running
    reader : in_read t.reader ≡ in_read s.reader
    control : t.control ≡ s.control

  Same-Agrees : {s t : Posix D} → Same s t → Agrees s → Agrees t
  Same-Agrees e h = ground arith

  Agrees-test : (s : Posix D) → s.reader ≡ Reader.testing → Agrees s → Agrees (reader_test s)
  unfolding reader_test
  Agrees-test s e h = ground arith

  Agrees-report :
      (input : Input) (s : Posix D)
      → s.reader ≡ Reader.reporting input
      → Agrees s
      → Agrees (reader_report input s)
  unfolding reader_report
  Agrees-report (byte c) s e h = ground arith
  Agrees-report interrupted s e h = ground arith
  Agrees-report ended s e h = ground arith

  Agrees-at_open :
      (opened : Bool) (s : Posix D)
      → s.control ≡ Control.outside
      → Agrees s
      → Agrees (at_open opened s)
  unfolding at_open
  Agrees-at_open opened s e h = ground arith

  Agrees-close_test :
      (freeing : Bool) (s : Posix D)
      → s.control ≡ Control.awake freeing
      → Agrees s
      → Agrees (close_test freeing s)
  unfolding close_test
  Agrees-close_test freeing s e h = ground arith

  Agrees-at_close :
      (freeing : Bool) (s : Posix D)
      → s.control ≡ Control.outside
      → Agrees s
      → Agrees (at_close freeing s)
  unfolding at_close close_test
  Agrees-at_close freeing s e h = ground arith

  Agrees-free_stop : (s : Posix D) → s.control ≡ Control.stopping → Agrees s → Agrees (free_stop s)
  unfolding free_stop
  Agrees-free_stop s e h = ground arith

  Agrees-feed :
      (c : ℕ) (s t : Posix D)
      → s.reader ≡ Reader.holding c
      → reader_feed c s ≡ some t
      → Agrees s
      → Agrees t
  Agrees-feed c s t r e h =
      let (q, at, _, same) = reader_feed-some c s t e in subst Agrees (sym same) (ground arith)

  Passes-Agrees : {s t : Posix D} → Passes s t → Agrees s → Agrees t
  Passes-Agrees (silent e) h = h
  Passes-Agrees {s} (signal e g) h = Signals-Agrees g (
      Same-Agrees
        (record {
          busy = refl;
          fd = refl;
          open_ = refl;
          running = refl;
          reader = refl;
          control = refl;
        })
        h)

  Same-command_end : (s : Posix D) → Same s (command_end s)
  unfolding command_end
  Same-command_end s = record {
    busy = refl;
    fd = refl;
    open_ = refl;
    running = refl;
    reader = refl;
    control = refl;
  }

  Same-command_test : (s : Posix D) → Same s (command_test s)
  unfolding command_test
  Same-command_test s =
      if_both (Same s) (s.open_ && s.at.waiting) (record s { client = Client.parked })
        (command_end s)
        (record {
          busy = refl;
          fd = refl;
          open_ = refl;
          running = refl;
          reader = refl;
          control = refl;
        })
        (Same-command_end s)

  Same-command_begin : (bytes : Bytes) (s : Posix D) → Same s (command_begin bytes s)
  unfolding command_begin
  Same-command_begin bytes s = ground arith

  Same-at_command : (line : Bytes) (s : Posix D) → Same s (at_command line s)
  unfolding at_command
  Same-at_command line s = elim (Bool-cases (leb 79 (length line))) [
    | inl b ↦ rw b (record {
      busy = refl;
      fd = refl;
      open_ = refl;
      running = refl;
      reader = refl;
      control = refl;
    })
    | inr b ↦ rw b (Same-command_begin (line ++ (b'\r' ∷ [])) s)
  ]

  pub Step-Agrees : {s t : Posix D} → Step s t → Agrees s → Agrees t
  unfolding at_set_timeout at_expect_dataprompt
  Step-Agrees {s} (Step.test e) h = Agrees-test s e h
  Step-Agrees {s} (Step.read input e) h = ground arith
  Step-Agrees {s} (Step.report input e g) h = Signals-Agrees g (Agrees-report input s e h)
  Step-Agrees {s} (Step.feed c {t} e f p) h = Passes-Agrees p (Agrees-feed c s t e f h)
  Step-Agrees {s} (Step.command line r e) h = Same-Agrees (Same-at_command line s) h
  Step-Agrees {s} (Step.command_raw bytes r e) h = Same-Agrees (Same-command_begin bytes s) h
  Step-Agrees {s} (Step.set_timeout n r e) h = ground arith
  Step-Agrees {s} (Step.expect_dataprompt r e) h = ground arith
  Step-Agrees {s} (Step.set_scanner scanner r e) h = ground arith
  Step-Agrees {s} (Step.set_callbacks cbs arg r e) h = ground arith
  Step-Agrees {s} (Step.resume e) h = Same-Agrees (Same-command_test s) h
  Step-Agrees {s} (Step.expire e l) h = Same-Agrees (Same-command_end s) h
  Step-Agrees {s} (Step.open_fails e) h = Agrees-at_open false s e h
  Step-Agrees {s} (Step.opens e o g) h = Signals-Agrees g (Agrees-at_open true s e h)
  Step-Agrees {s} (Step.close e) h = Agrees-at_close false s e h
  Step-Agrees {s} (Step.free e) h = Agrees-at_close true s e h
  Step-Agrees {s} (Step.close_resume freeing e) h = Agrees-close_test freeing s e h
  Step-Agrees {s} (Step.stop e) h = Agrees-free_stop s e h
  Step-Agrees {s} (Step.join e r) h = ground arith
