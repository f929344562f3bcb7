-- ===== src/Posix/Free.antt =====
-- `at_free` on a channel whose reader waits for it to be opened.
use attentive.Base.{
  ◌≡◌, ◌≢◌, ◌⊎◌, true, false, ◌&&◌, none, ◌∷◌, [], ◌++◌, if_both, leb, length, arith,
}
use mathlib.Core.Path.{subst}
use attentive.Base.Text.{Bytes}
use attentive.Posix.{
  Posix, Reader, Client, Control, at_command, command_begin, command_test, command_end, at_close,
  free_stop, at_set_timeout, at_expect_dataprompt,
}
use attentive.Posix.Step.{Step, Run, start, then_to}

module _ {D : Type 0} where
  -- The reader waits, and the thread that frees is behind `at_close`.
  record IsHung (s : Posix D) : Type 0 where
    reader : s.reader ≡ Reader.parked
    control : (s.control ≡ Control.stopping) ⊎ (s.control ≡ Control.joining)
    open_ : s.open_ ≡ false

  command_end-IsHung : (s : Posix D) → IsHung s → IsHung (command_end s)
  unfolding command_end
  command_end-IsHung s h = record { reader = h.reader; control = h.control; open_ = h.open_ }

  command_test-IsHung : (s : Posix D) → IsHung s → IsHung (command_test s)
  unfolding command_test
  command_test-IsHung s h =
      if_both IsHung (s.open_ && s.at.waiting) (record s { client = Client.parked }) (command_end s)
        (record { reader = h.reader; control = h.control; open_ = h.open_ })
        (command_end-IsHung s h)

  command_begin-IsHung : (bytes : Bytes) (s : Posix D) → IsHung s → IsHung (command_begin bytes s)
  unfolding command_begin
  command_begin-IsHung bytes s h = ground arith

  at_command-IsHung : (line : Bytes) (s : Posix D) → IsHung s → IsHung (at_command line s)
  unfolding at_command
  at_command-IsHung line s h =
      if_both IsHung (leb 79 (length line)) (record s { client = Client.outside none })
        (command_begin (line ++ (b'\r' ∷ [])) s)
        (record { reader = h.reader; control = h.control; open_ = h.open_ })
        (command_begin-IsHung (line ++ (b'\r' ∷ [])) s h)

  Step-IsHung : {s t : Posix D} → Step s t → IsHung s → IsHung t
  unfolding at_set_timeout at_expect_dataprompt free_stop
  Step-IsHung (Step.test e) h = absurd (ground arith)
  Step-IsHung (Step.read input e) h = absurd (ground arith)
  Step-IsHung (Step.report input e g) h = absurd (ground arith)
  Step-IsHung (Step.feed c e f p) h = absurd (ground arith)
  Step-IsHung {s} (Step.command line r e) h = at_command-IsHung line s h
  Step-IsHung {s} (Step.command_raw bytes r e) h = command_begin-IsHung bytes s h
  Step-IsHung (Step.set_timeout n r e) h = ground arith
  Step-IsHung (Step.expect_dataprompt r e) h = ground arith
  Step-IsHung (Step.set_scanner scanner r e) h = ground arith
  Step-IsHung (Step.set_callbacks cbs arg r e) h = ground arith
  Step-IsHung {s} (Step.resume e) h = command_test-IsHung s h
  Step-IsHung {s} (Step.expire e l) h = command_end-IsHung s h
  Step-IsHung (Step.open_fails e) h = absurd (ground arith)
  Step-IsHung (Step.opens e o g) h = absurd (ground arith)
  Step-IsHung (Step.close e) h = absurd (ground arith)
  Step-IsHung (Step.free e) h = absurd (ground arith)
  Step-IsHung (Step.close_resume freeing e) h = absurd (ground arith)
  Step-IsHung (Step.stop e) h = ground arith
  Step-IsHung (Step.join e r) h = absurd (ground arith)

  Run-IsHung : {s t : Posix D} → Run s t → IsHung s → IsHung t
  Run-IsHung start h = h
  Run-IsHung (then_to r m e) h = subst (IsHung) e (Step-IsHung m (Run-IsHung r h))

  at_close-IsHung :
      (s : Posix D) → s.open_ ≡ false → s.reader ≡ Reader.parked → IsHung (at_close true s)
  unfolding at_close
  at_close-IsHung s closed waits = ground arith

  -- at_free on a closed POSIX channel whose reader waits for the channel to be opened never comes
  -- to its end, in any order of the threads without spurious wake-ups: nothing wakes the reader.
  pub free-hangs :
      (s t : Posix D)
      → s.open_ ≡ false
      → s.reader ≡ Reader.parked
      → Run (at_close true s) t
      → t.control ≢ Control.freed
  free-hangs s t closed waits r e =
      let h = Run-IsHung r (at_close-IsHung s closed waits) in ground arith
