-- ===== src/Posix/Strand.antt =====
-- A command waits when the channel is closed.
use attentive.Base.{◌≡◌, refl, true, false, arith}
use mathlib.Core.Path.{subst}
use attentive.Posix.{
  Posix, interrupted, Reader, Client, Control, reader_test, reader_report, command_test,
  command_end, at_close, close_test,
}
use attentive.Posix.Step.{then_to, Step, Run, start, then_, Wakes, one}
use attentive.Posix.Invariant.{IsSound}
use attentive.Posix.Close.{IsStranded, Run-IsStranded}

module _ {D : Type 0} where
  -- The channel after `at_close` has begun to wait.
  unfoldable closing : Posix D → Posix D
  unfolding at_close close_test
  closing s = record s { open_ = false; control = Control.parked false }

  closing_lem : (s : Posix D) → s.open_ ≡ true → s.busy ≡ true → at_close false s ≡ closing s
  unfolding closing at_close close_test
  closing_lem s o b = ground arith

  test-parked :
      (s : Posix D)
      → s.running ≡ true
      → s.open_ ≡ false
      → reader_test s ≡ record s { reader = Reader.parked }
  unfolding reader_test
  test-parked s r o = ground arith

  test-closed : (s : Posix D) → s.open_ ≡ false → command_test s ≡ command_end s
  unfolding command_test
  test-closed s o = ground arith

  -- The read has returned, and its signal has ended the command's wait.
  unfoldable woken : Posix D → Posix D
  unfolding closing
  woken s = record (closing s) { busy = false; reader = Reader.testing; client = Client.awake }

  -- The command has returned and the reader waits.
  unfoldable pub stranded : Posix D → Posix D
  unfolding closing woken
  stranded s = record (command_end (woken s)) { reader = Reader.parked }

  stranded-IsStranded : (s : Posix D) → IsStranded false (stranded s)
  unfolding stranded woken closing command_end
  stranded-IsStranded s = record { control = refl; reader = refl; open_ = refl; client = (_, refl) }

  report-woken :
      (s : Posix D)
      → s.client ≡ Client.parked
      → Step (record (closing s) { reader = Reader.reporting interrupted }) (woken s)
  unfolding woken closing reader_report
  report-woken s w = Step.report interrupted refl (one (Wakes.client w))

  stranded-Run :
      (s : Posix D)
      → IsSound s
      → s.running ≡ true
      → s.open_ ≡ true
      → s.reader ≡ Reader.reading
      → s.client ≡ Client.parked
      → Run (at_close false s) (stranded s)
  unfolding stranded closing woken command_end
  stranded-Run s h running o r w =
      let busy : s.busy ≡ true = ground (arith, h.agrees.busy) in
      let closed = subst (λ t. Run (at_close false s) t) (closing_lem s o busy) start in
      let reported = then_ (then_ closed (Step.read interrupted r)) (report-woken s w) in
      let resumed = then_to reported (Step.resume refl) (test-closed (woken s) refl) in
      then_to resumed (Step.test refl) (test-parked (command_end (woken s)) running refl)

  -- A command waits on a sound POSIX channel that runs and is open, and the reader reads. at_close
  -- can then come into a state, with no spurious wake-up before or after, from which it never
  -- wakes: the signal of the reader has gone to the command. In every state that follows, at_close
  -- still waits.
  pub at_close-stranded :
      (s t : Posix D)
      → IsSound s
      → s.running ≡ true
      → s.open_ ≡ true
      → s.reader ≡ Reader.reading
      → s.client ≡ Client.parked
      → Run (stranded s) t
      → Run (at_close false s) (stranded s) × (t.control ≡ Control.parked false)
  at_close-stranded s t h running o r w more =
      (stranded-Run s h running o r w, (Run-IsStranded false more (stranded-IsStranded s)).control)
