-- ===== src/Posix/Step.antt =====
-- The threads of a channel in any order, with the condition variable between them.
use attentive.Base.{
  refl, sym, ap, ◌∙◌, [], ◌∷◌, ◌++◌, append-nil, append_assoc, ℕ, ◌<◌, ◌≡◌, ◌≢◌, Bool, true, false,
  Option, some,
}
use attentive.Base.Text.{Bytes}
use attentive.Parser.{LineScanner}
use attentive.Channel.{AtCallbacks, at_set_callbacks, at_set_command_scanner}
use attentive.Posix.{
  after_input, Posix, Input, Reader, Client, Control, reader_test, reader_report, reader_feed,
  at_command, at_command_raw, command_test, command_end, at_open, at_close, close_test, free_stop,
  at_set_timeout, at_expect_dataprompt,
}

-- Behind a read, the reader does not wait.
pub after_input-parked : (input : Input) → after_input input ≢ Reader.parked
after_input-parked (Input.byte c) e = cc
after_input-parked Input.interrupted e = cc
after_input-parked Input.ended e = cc

module _ {D : Type 0} where
  -- The wait of one thread ends.
  pub data Wakes (s : Posix D) : Posix D → Type 0 where
    reader : s.reader ≡ Reader.parked → Wakes s (record s { reader = Reader.testing })
    client : s.client ≡ Client.parked → Wakes s (record s { client = Client.awake })
    control :
        (freeing : Bool)
        → s.control ≡ Control.parked freeing
        → Wakes s (record s { control = Control.awake freeing })

  -- Nobody waits.
  pub record IsQuiet (s : Posix D) : Type 0 where
    pub reader : s.reader ≢ Reader.parked
    pub client : s.client ≢ Client.parked
    pub control : (freeing : Bool) → s.control ≢ Control.parked freeing

  -- `pthread_cond_signal` ends one wait, if there is one.
  pub data Signals (s : Posix D) : Posix D → Type 0 where
    one : {t : Posix D} → Wakes s t → Signals s t
    nobody : IsQuiet s → Signals s s

  -- The signal of `handle_response`, if it was called.
  pub data Passes (s : Posix D) : Posix D → Type 0 where
    silent : s.at.signalled ≡ false → Passes s s
    signal :
        {t : Posix D}
        → s.at.signalled ≡ true
        → Signals (record s { at = record (s.at) { signalled = false } }) t
        → Passes s t

  pub data Step (s : Posix D) : Posix D → Type 0 where
    test : s.reader ≡ Reader.testing → Step s (reader_test s)
    read :
        (input : Input)
        → s.reader ≡ Reader.reading
        → Step s (record s { reader = Reader.reporting input })
    report :
        (input : Input) {t : Posix D}
        → s.reader ≡ Reader.reporting input
        → Signals (reader_report input s) t
        → Step s t
    feed :
        (c : ℕ) {t u : Posix D}
        → s.reader ≡ Reader.holding c
        → reader_feed c s ≡ some t
        → Passes t u
        → Step s u
    command :
        (line : Bytes) (r : Option Bytes) → s.client ≡ Client.outside r → Step s (at_command line s)
    command_raw :
        (bytes : Bytes) (r : Option Bytes)
        → s.client ≡ Client.outside r
        → Step s (at_command_raw bytes s)
    set_timeout :
        (n : ℕ) (r : Option Bytes) → s.client ≡ Client.outside r → Step s (at_set_timeout n s)
    expect_dataprompt :
        (r : Option Bytes) → s.client ≡ Client.outside r → Step s (at_expect_dataprompt s)
    set_scanner :
        (scanner : Option (LineScanner D)) (r : Option Bytes)
        → s.client ≡ Client.outside r
        → Step s (record s { at = at_set_command_scanner scanner s.at })
    set_callbacks :
        (cbs : Option (AtCallbacks D)) (arg : D) (r : Option Bytes)
        → s.client ≡ Client.outside r
        → Step s (record s { at = at_set_callbacks cbs arg s.at })
    resume : s.client ≡ Client.awake → Step s (command_test s)
    expire : s.client ≡ Client.parked → 0 < s.timeout → Step s (command_end s)
    open_fails : s.control ≡ Control.outside → Step s (at_open false s)
    opens :
        {t : Posix D}
        → s.control ≡ Control.outside
        → s.open_ ≡ false
        → Signals (at_open true s) t
        → Step s t
    close : s.control ≡ Control.outside → Step s (at_close false s)
    free : s.control ≡ Control.outside → Step s (at_close true s)
    close_resume :
        (freeing : Bool) → s.control ≡ Control.awake freeing → Step s (close_test freeing s)
    stop : s.control ≡ Control.stopping → Step s (free_stop s)
    join :
        s.control ≡ Control.joining
        → s.reader ≡ Reader.finished
        → Step s (record s { control = Control.freed })

  -- POSIX lets a wait end with no signal.
  pub data Move (s t : Posix D) : Type 0 where
    step : Step s t → Move s t
    spurious : Wakes s t → Move s t

  pub data Reach (s : Posix D) : Posix D → Type 0 where
    here : Reach s s
    next : {t u : Posix D} → Reach s t → Move t u → Reach s u

  -- An order of the threads in which no wait ends without a signal. The state behind the last step may
  -- go by another name.
  pub data Run (s : Posix D) : Posix D → Type 0 where
    start : Run s s
    then_to : {t u v : Posix D} → Run s t → Step t u → u ≡ v → Run s v

  -- One more step.
  abbrev pub then_ : {s t u : Posix D} → Run s t → Step t u → Run s u
  then_ r m = then_to r m refl

  -- The bytes that the reader reads in a step.
  unfoldable reads : {s t : Posix D} → Step s t → Bytes
  reads (read (Input.byte c) _) = c ∷ []
  reads _ = []

  -- The bytes that the reader reads in all, in their order.
  unfoldable pub heard : {s t : Posix D} → Run s t → Bytes
  unfolding reads
  heard start = []
  heard (then_to r m e) = heard r ++ reads m

  pub Run-append : {s t u : Posix D} → Run s t → Run t u → Run s u
  Run-append r start = r
  Run-append r (then_to r' m e) = then_to (Run-append r r') m e

  heard-append :
      {s t u : Posix D} (r : Run s t) (r' : Run t u) → heard (Run-append r r') ≡ heard r ++ heard r'
  unfolding heard Run-append
  heard-append r start = sym (append-nil (heard r))
  heard-append r (then_to r' m e) =
      ap (λ x. x ++ reads m) (heard-append r r') ∙ append_assoc (heard r) (heard r') (reads m)

  -- An order of the threads with no spurious wake-up, in which the reader reads exactly the input.
  abbrev pub RunOn : Posix D → Bytes → Posix D → Type 0
  RunOn s input t = (r : Run s t) × (heard r ≡ input)

  pub RunOn-append :
      {s t u : Posix D} {xs ys : Bytes} → RunOn s xs t → RunOn t ys u → RunOn s (xs ++ ys) u
  RunOn-append {xs = xs} (r, e) (r', e') =
      (Run-append r r', heard-append r r' ∙ ap (λ x. x ++ heard r') e ∙ ap (λ y. xs ++ y) e')
